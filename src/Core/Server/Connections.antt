-- ===== src/Core/Server/Connections.antt =====
-- mycppwebfw/src/core/server.cpp: one connection among those of the server, and the buffers that they hold.
use gin_cpp.Base.{
  ℕ, zero, suc, ◌+◌, ◌≡◌, refl, sym, ap, subst, ◌∙◌, ◌⊎◌, inl, inr, true, false, Option, none, some,
  List, [], ◌∷◌, ◌++◌, arith, some_inj, length, get_elem?, set,
}
use gin_cpp.Core.BufferPool.{BufferPool, release}
use gin_cpp.Core.BufferPool.Ownership.{count, Loses}
use gin_cpp.Core.Connection.{Connection, Event, handle}
use gin_cpp.Core.Connection.Phases.{IsLive, IsShut, Phase, live, shut, is_unsafe, handle-live}
use gin_cpp.Core.Connection.Closed.{handle-shut}
use gin_cpp.Core.Server.{with_pool}

-- A connection at rest: it serves with a buffer, or it is shut.
abbrev pub Standing : Connection → Type 0
Standing c = ((b : ℕ) × IsLive c.buffer_pool b c) ⊎ IsShut c.buffer_pool c

abbrev pub holder : Option ℕ → List ℕ → List ℕ
holder none bs = bs
holder (some b) bs = b ∷ bs

-- The buffers of the connections.
abbrev pub holders : List Connection → List ℕ
holders [] = []
holders (c ∷ cs) = holder c.buffer (holders cs)

-- What a step did with the buffer `o` of a connection: it kept it, or gave it back to the pool.
pub data Moves (pool : BufferPool) (o : Option ℕ) (d : Connection) : Type 0 where
  kept : d.buffer ≡ o → d.buffer_pool ≡ pool → Moves pool o d
  gave : {b : ℕ} → o ≡ some b → d.buffer ≡ none → d.buffer_pool ≡ release pool b → Moves pool o d

abbrev pub live_at :
    (pool : BufferPool) (b : ℕ) (d : Connection) → IsLive pool b d → IsLive d.buffer_pool b d
live_at pool b d l = record {
  works = l.works;
  has_buffer = l.has_buffer;
  took = refl;
  ready = l.ready;
  kept = l.kept;
}

abbrev pub shut_at : (pool : BufferPool) (d : Connection) → IsShut pool d → IsShut d.buffer_pool d
shut_at pool d h = record {
  ended = h.ended;
  no_buffer = h.no_buffer;
  gave = refl;
  left = h.left;
  not_open = h.not_open;
}

pub Phase-Moves :
    (pool : BufferPool) (b : ℕ) (o : Option ℕ) (d : Connection)
    → o ≡ some b
    → Phase pool b d
    → Standing d × Moves pool o d
Phase-Moves pool b o d e (live l) =
    (inl (b, live_at pool b d l), kept (l.has_buffer ∙ sym e) l.took)
Phase-Moves pool b o d e (shut h) = (inr (shut_at (release pool b) d h), gave e h.no_buffer h.gave)

pub Standing-with_pool :
    (c : Connection) (pool : BufferPool) → Standing c → Standing (with_pool c pool)
Standing-with_pool c pool (inl (b, l)) = inl (
  b,
  record {
    works = l.works;
    has_buffer = l.has_buffer;
    took = refl;
    ready = l.ready;
    kept = l.kept;
  },
)
Standing-with_pool c pool (inr h) = inr (record {
  ended = h.ended;
  no_buffer = h.no_buffer;
  gave = refl;
  left = h.left;
  not_open = h.not_open;
})

-- A connection that is shut stays so.
shut-live : (pool : BufferPool) (b : ℕ) (c : Connection) → IsLive pool b c → IsShut pool c → ⊥
shut-live pool b c l h = ground (arith, l.has_buffer, h.no_buffer)

-- What a handler makes of the connection: one at rest, that did what it should with its buffer, and
-- that is shut if it was.
abbrev pub Handles : Connection → Option Connection → Type 0
Handles c o =
    (d : Connection) × (o ≡ some d)
    × Standing d
    × Moves c.buffer_pool c.buffer d
    × (IsShut c.buffer_pool c → IsShut d.buffer_pool d)

-- What a handler that is safe makes of a connection that serves.
Handles-Phase :
    (c d : Connection) (b : ℕ) (o : Option Connection)
    → IsLive c.buffer_pool b c
    → o ≡ some d
    → Phase c.buffer_pool b d
    → Handles c o
Handles-Phase c d b o l k p =
    let (n, m) = Phase-Moves c.buffer_pool b c.buffer d l.has_buffer p in
    (d, k, n, m, λ h. absurd (shut-live c.buffer_pool b c l h))

-- A handler of a connection at rest.
pub handle-Handles :
    (c : Connection) (e : Event)
    → Standing c
    → ((is_unsafe c e ≡ false) × Handles c (handle c e))
      ⊎ ((is_unsafe c e ≡ true) × (handle c e ≡ none))
handle-Handles c e (inl (b, l)) = elim (handle-live c.buffer_pool b c e l) [
  | inl (n, (d, k, p)) ↦ inl (n, Handles-Phase c d b (handle c e) l k p)
  | inr unsafe ↦ inr unsafe
]
handle-Handles c e (inr h) = elim (handle-shut c.buffer_pool c e h) [
  | inl (n, (d, k, h')) ↦ inl (
    n,
    (
      d,
      k,
      inr (shut_at c.buffer_pool d h'),
      kept (h'.no_buffer ∙ sym h.no_buffer) h'.gave,
      λ _. shut_at c.buffer_pool d h',
    ),
  )
  | inr unsafe ↦ inr unsafe
]

holder-parts :
    (o : Option ℕ) (xs : List ℕ) (d : ℕ)
    → (count d (holder o xs) ≡ count d (holder o []) + count d xs)
      × (length (holder o xs) ≡ length (holder o []) + length xs)
unfolding count
holder-parts none xs d = ground arith
holder-parts (some b) xs d = ground arith

pub holders-append :
    (cs : List Connection) (c : Connection) (b d : ℕ)
    → c.buffer ≡ some b
    → (count d (b ∷ holders cs) ≡ count d (holders (cs ++ c ∷ [])))
      × (length (b ∷ holders cs) ≡ length (holders (cs ++ c ∷ [])))
unfolding count
holders-append [] c b d e =
    (ap (λ o. count d (holder o [])) (sym e), ap (λ o. length (holder o [])) (sym e))
holders-append (x ∷ cs) c b d e = ground (
  arith,
  holders-append cs c b d e,
  holder-parts x.buffer (holders cs) d,
  holder-parts x.buffer (holders (cs ++ c ∷ [])) d,
)

pub holders-set :
    (cs : List Connection) (i : ℕ) (c d : Connection)
    → get_elem? cs i ≡ some c
    → d.buffer ≡ c.buffer
    → holders (set cs i d) ≡ holders cs
holders-set [] i c d e f = absurd (ground arith)
holders-set (x ∷ cs) zero c d e f =
    ap (λ o. holder o (holders cs)) (f ∙ ap (λ y. y.buffer) (sym (some_inj x c e)))
holders-set (x ∷ cs) (suc i) c d e f = ap (holder x.buffer) (holders-set cs i c d e f)

pub holders-Loses :
    (cs : List Connection) (i : ℕ) (c d : Connection) (b : ℕ)
    → get_elem? cs i ≡ some c
    → c.buffer ≡ some b
    → d.buffer ≡ none
    → Loses b (holders cs) (holders (set cs i d))
unfolding count
holders-Loses [] i c d b e f g = absurd (ground arith)
holders-Loses (x ∷ cs) zero c d b e f g =
    subst (λ o. Loses b (holder o (holders cs)) (holder d.buffer (holders cs)))
      (sym (ap (λ y. y.buffer) (some_inj x c e) ∙ f))
      (subst (λ o. Loses b (b ∷ holders cs) (holder o (holders cs))) (sym g)
        ((λ k. ground arith), omega arith))
holders-Loses (x ∷ cs) (suc i) c d b e f g = (
  λ k. omega (
    arith,
    (holders-Loses cs i c d b e f g).0 k,
    (holder-parts x.buffer (holders cs) k).0,
    (holder-parts x.buffer (holders (set cs i d)) k).0,
  ),
  omega (
    arith,
    (holders-Loses cs i c d b e f g).1,
    (holder-parts x.buffer (holders cs) b).1,
    (holder-parts x.buffer (holders (set cs i d)) b).1,
  ),
)
