-- ===== src/Base/Sort.antt =====
-- std::sort under a comparison `before x y`. The source leaves the order of equal elements open;
-- here they keep theirs.
use mathlib.Core.Path.{◌≡◌, refl, subst}
use mathlib.Core.Logic.{◌↔◌, inl, inr}
use mathlib.Core.Bool.{Bool, true, false}
use mathlib.Core.List.{List, [], ◌∷◌}
use gin_cpp.Base.Tests.{if◌then◌else◌, Bool-cases}
use gin_cpp.Base.Lists.{Has, Has-cons_map, All}

module _ {A : Type 0} (before : A → A → Bool) where
  -- Puts an element in front of the first one that it may not follow.
  unfoldable pub place : A → List A → List A
  place x [] = x ∷ []
  place x (y ∷ ys) = if before y x then y ∷ place x ys else x ∷ y ∷ ys

  unfoldable pub sort : List A → List A
  unfolding place
  sort [] = []
  sort (x ∷ xs) = place x (sort xs)

  pub place-Has : (a x : A) (ys : List A) → Has a (place x ys) ↔ Has a (x ∷ ys)
  unfolding place
  place-Has a x [] = (λ h. h, λ h. h)
  place-Has a x (y ∷ ys) = elim (Bool-cases (before y x)) [
    | inl e ↦ rw e (swap_left (place-Has a x ys).0, swap_right (place-Has a x ys).1)
    | inr e ↦ rw e (λ h. h, λ h. h)
  ]
    where
      swap_left :
          (Has a (place x ys) → Has a (x ∷ ys)) → Has a (y ∷ place x ys) → Has a (x ∷ y ∷ ys)
      swap_left f (inl e) = inr (inl e)
      swap_left f (inr h) = elim (f h) [ inl e ↦ inl e | inr k ↦ inr (inr k) ]

      swap_right :
          (Has a (x ∷ ys) → Has a (place x ys)) → Has a (x ∷ y ∷ ys) → Has a (y ∷ place x ys)
      swap_right f (inl e) = inr (f (inl e))
      swap_right f (inr (inl e)) = inl e
      swap_right f (inr (inr k)) = inr (f (inr k))

  -- Sorting neither loses an element nor makes one up.
  pub sort-Has : (a : A) (xs : List A) → Has a (sort xs) ↔ Has a xs
  unfolding sort
  sort-Has a [] = (λ h. h, λ h. h)
  sort-Has a (x ∷ xs) =
      let (down, up) = sort-Has a xs in
      (
        λ h. Has-cons_map a x (sort xs) xs down ((place-Has a x (sort xs)).0 h),
        λ h. (place-Has a x (sort xs)).1 (Has-cons_map a x xs (sort xs) up h),
      )

  module _ (asym : (x y : A) → before x y ≡ true → before y x ≡ false)
      (below : (x y z : A) → before x y ≡ false → before y z ≡ false → before x z ≡ false) where
    abbrev pub IsFirst : List A → List A → Type 0
    IsFirst [] xs = Unit
    IsFirst (h ∷ t) xs = All (λ y. before y h ≡ false) xs

    All-below :
        (h x : A) (xs : List A)
        → before h x ≡ false
        → All (λ y. before y h ≡ false) xs
        → All (λ y. before y x ≡ false) xs
    All-below h x [] e k = tt
    All-below h x (y ∷ ys) e k = (below y h x k.0 e, All-below h x ys e k.1)

    irreflexive : (x : A) → before x x ≡ false
    irreflexive x = elim (Bool-cases (before x x)) [ inl e ↦ asym x x e | inr e ↦ e ]

    place-IsFirst :
        (x : A) (l xs : List A) → (l ≡ [] → xs ≡ []) → IsFirst l xs → IsFirst (place x l) (x ∷ xs)
    unfolding place
    place-IsFirst x [] xs n h = rw (n refl) (irreflexive x, tt)
    place-IsFirst x (y ∷ ys) xs n h = elim (Bool-cases (before y x)) [
      | inl e ↦ rw e (asym y x e, h)
      | inr e ↦ rw e (irreflexive x, All-below y x xs e h)
    ]

    sort-nil : (xs : List A) → sort xs ≡ [] → xs ≡ []
    sort-nil [] e = refl
    sort-nil (x ∷ xs) e = absurd (subst (Has x) e ((sort-Has x (x ∷ xs)).1 (inl refl)))

    -- Nothing comes before the first element of a sorted list.
    pub sort-IsFirst : (xs : List A) → IsFirst (sort xs) xs
    unfolding sort
    sort-IsFirst [] = tt
    sort-IsFirst (x ∷ xs) = place-IsFirst x (sort xs) xs (sort-nil xs) (sort-IsFirst xs)
