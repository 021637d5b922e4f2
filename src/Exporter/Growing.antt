-- ===== src/Exporter/Growing.antt =====
-- A file that grows, what its polls find, and where a new reader begins in it.
use loopstorm_guard.Common.{
  ℕ, zero, suc, ◌≤◌, ◌≡◌, refl, ap, Bool, true, false, none, some, List, [], ◌∷◌, ◌++◌, leb,
  if◌then◌else◌, arith, length, take, drop,
}
use loopstorm_guard.Exporter.Reader.{
  Bytes, Reader, SavedCursor, missing, corrupted, at, Poll, new_reader, load_cursor,
}

pub no_bytes : (t : Bytes) → length t ≡ 0 → t ≡ []
no_bytes [] h = refl
no_bytes (b ∷ t) h = absurd (omega (arith, h))

pub drop-append : (xs ys : Bytes) → drop (length xs) (xs ++ ys) ≡ ys
drop-append [] ys = refl
drop-append (x ∷ xs) ys = drop-append xs ys

pub take-drop : (n : ℕ) (xs : Bytes) → take n xs ++ drop n xs ≡ xs
take-drop zero xs = refl
take-drop (suc n) [] = refl
take-drop (suc n) (x ∷ xs) = ap (λ ys. x ∷ ys) (take-drop n xs)

-- The file grows by some bytes, and the reader polls it; the poll may fail.
pub record Growth : Type 0 where
  pub added : Bytes
  pub found : Bool
  pub readable : Bool
  pub writable : Bool

abbrev pub poll_with : Bool → Bool → Bool → Bytes → Poll
poll_with found readable writable file = record {
  file = if found then some file else none;
  readable = readable;
  writable = writable;
}

abbrev pub poll_of : Growth → Bytes → Poll
poll_of g = poll_with g.found g.readable g.writable

-- The file when it has grown.
abbrev pub grown : List Growth → Bytes → Bytes
grown [] file = file
grown (g ∷ gs) file = grown gs (file ++ g.added)

-- Where a reader begins: at the saved cursor, if the file is found and has as many bytes.
abbrev pub first_byte : SavedCursor → Bool → Bytes → ℕ
first_byte (at v) true old = if leb v (length old) then v else 0
first_byte (at v) false old = 0
first_byte missing found old = 0
first_byte corrupted found old = 0

unfoldable pub loaded : Bool → Bool → Bytes → SavedCursor → Reader
loaded found writable old saved =
    load_cursor writable (if found then some old else none) (new_reader saved)

pub load_cursor-first_byte :
    (found writable : Bool) (old : Bytes) (saved : SavedCursor)
    → ((loaded found writable old saved).cursor ≡ first_byte saved found old)
      × ((loaded found writable old saved).partial ≡ "")
unfolding loaded load_cursor
load_cursor-first_byte true true old (at v) = ground arith
load_cursor-first_byte true false old (at v) = ground arith
load_cursor-first_byte false true old (at v) = (refl, refl)
load_cursor-first_byte false false old (at v) = (refl, refl)
load_cursor-first_byte found true old missing = (refl, refl)
load_cursor-first_byte found false old missing = (refl, refl)
load_cursor-first_byte found true old corrupted = (refl, refl)
load_cursor-first_byte found false old corrupted = (refl, refl)

pub first_byte-le :
    (saved : SavedCursor) (found : Bool) (old : Bytes) → first_byte saved found old ≤ length old
first_byte-le (at v) true old = ground arith
first_byte-le (at v) false old = omega arith
first_byte-le missing found old = omega arith
first_byte-le corrupted found old = omega arith
