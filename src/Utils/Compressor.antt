-- ===== src/Utils/Compressor.antt =====
-- mycppwebfw/src/utils/compressor.cpp. zlib is a record of the model.
pub mod Output
mod Tests
use gin_cpp.Base.{
  ℕ, zero, suc, ◌+◌, ◌-◌, ◌*◌, ◌/◌, ◌%◌, ◌^◌, ◌≤◌, ◌<◌, ◌≡◌, refl, sym, ap, subst, ◌∙◌, ◌≢◌, ◌↔◌,
  ◌⊎◌, inl, inr, Bool, true, false, not, ◌&&◌, ◌||◌, Option, none, some, List, [], ◌∷◌, ◌++◌, map,
  arith, ltb, leb, ◌==◌, if◌then◌else◌, ltb→lt, lt→ltb, leb→le, ==_iff, ==_refl, Bool-cases,
  Option-cases, some_inj, length, get_elem?, set, take, drop, replicate, is_empty, length-append,
  length-replicate, get_elem?-some_lt, get_elem?-none_le, lt_of_get_elem?, Has, Has-cons_map,
  Has-append_left, Has-append_right, Has-append, All-Has, length-set, get_elem?-set_self,
  get_elem?-set_ne, All, All-append, Text, codes, same, same→eq, same_refl, same_iff, apart,
  drop_two_length_append, Free-append, find, starts_with, find_text, contains_text, Free, find-Free,
  find-none-Free, find-append, Free-take-find, find_parts, take-length_append, drop-length_append,
  drop-suc-length_append, starts_with-append, starts_with_parts, lookup, insert, erase,
  lookup-insert, lookup-erase,
}
use gin_cpp.Base.Int.{ℤ, pos, negsuc}
use gin_cpp.Base.Decimal.{to_string}

-- A stream of zlib. `init` is deflateInit2 with the options of the code, `none` where it does not return Z_OK;
-- `feed` sets next_in and avail_in, and so gives the bytes that can be read; `deflate` is a call with
-- Z_FINISH and an empty output buffer of 32768 bytes, its result, and the bytes that the buffer then begins
-- with. The text of a result is std::to_string of it, and zs.msg may be null.
pub record Zlib : Type 1 where
  pub Stream : Type 0
  pub init : Option Stream
  pub feed : Text → Stream → Stream
  pub deflate : Stream → Stream × ℤ × Text
  pub total_out : Stream → ℕ
  pub msg : Stream → Option Text
  pub int_to_string : ℤ → Text

abbrev pub z_ok : ℤ
z_ok = pos 0

abbrev pub z_stream_end : ℤ
z_stream_end = pos 1

abbrev pub same_int : ℤ → ℤ → Bool
same_int (pos a) (pos b) = a == b
same_int (negsuc a) (negsuc b) = a == b
same_int (pos a) (negsuc b) = false
same_int (negsuc a) (pos b) = false

-- The compressed text, an exception, or undefined behaviour; `endless` is a loop that the fuel did not end.
pub data Compressed : Type 0 where
  compressed : Text → Compressed
  throws : Text → Compressed
  undefined : Compressed
  endless : Compressed

module _ (z : Zlib) where
  open z use {Stream, deflate, feed, total_out, msg, int_to_string}

  -- outstring after a round that left the stream `s` and the buffer `out`.
  abbrev pub append_new : Text → Stream → Text → Text
  append_new outstring s out =
      if ltb (length outstring) (total_out s)
      then outstring ++ take (total_out s - length outstring) out
      else outstring

  abbrev pub failed : Stream → ℤ → Option Text → Compressed
  failed s ret none = undefined
  failed s ret (some m) =
      throws (codes "Exception during zlib compression: (" ++ int_to_string ret ++ codes ") " ++ m)

  abbrev pub finish_with : Text → Stream → ℤ → Compressed
  finish_with outstring s ret =
      if same_int ret z_stream_end then compressed outstring else failed s ret (msg s)

  -- The do-while loop.
  unfoldable pub deflate_loop : ℕ → Stream → Text → Compressed
  deflate_loop zero s outstring = endless
  deflate_loop (suc fuel) s outstring =
      let (s', ret, out) = deflate s in
      let outstring' = append_new outstring s' out in
      let again = deflate_loop fuel s' outstring' in
      if same_int ret z_ok then again else finish_with outstring' s' ret

  abbrev pub compress_stream : ℕ → Text → Option Stream → Compressed
  compress_stream fuel input none = throws (codes "deflateInit2 failed while compressing.")
  compress_stream fuel input (some s) = deflate_loop fuel (feed input s) []

  -- GzipCompressor::compress. avail_in has 32 bits, so zlib reads that many bytes of the data.
  unfoldable pub compress : ℕ → Text → Compressed
  unfolding deflate_loop
  compress fuel input =
      if is_empty input
      then compressed []
      else compress_stream fuel (take (length input % 2 ^ 32) input) z.init
