-- ===== src/ApiKeys/Headers.antt =====
-- The key in a header.
use Prim.Native.Char.{code}
use Prim.Native.String.{[], ◌∷◌}
use text.Mathlib.TextLemmas.{nil-append, cons-append}
use loopstorm_guard.Common.{
  ℕ, suc, ◌≡◌, refl, ◌∙◌, ap, String, Bool, true, false, ◌&&◌, not, some, str_eq, arith,
}
use loopstorm_guard.Common.Texts.{is_space, trim_end, trim_start, trim}
use loopstorm_guard.ApiKeys.Keys.{◌<>◌, take_chars, drop_chars, key_of_header}

-- No character of the text is white space.
unfoldable pub no_space : String → Bool
no_space [] = true
no_space (c ∷ s) = not (is_space (code c)) && no_space s

chars : String → ℕ
chars [] = 0
chars (c ∷ s) = suc (chars s)

take_chars-append : (s t : String) → take_chars (chars s) (s <> t) ≡ s
unfolding chars take_chars
take_chars-append [] t = refl
take_chars-append (c ∷ s) t = rw (cons-append c s t) (ap (λ x. c ∷ x) (take_chars-append s t))

drop_chars-append : (s t : String) → drop_chars (chars s) (s <> t) ≡ t
unfolding chars drop_chars
drop_chars-append [] t = nil-append t
drop_chars-append (c ∷ s) t = rw (cons-append c s t) (drop_chars-append s t)

pub no_space-append :
    (s t : String) → no_space s ≡ true → no_space t ≡ true → no_space (s <> t) ≡ true
unfolding no_space
no_space-append [] t h k = rw (nil-append t) k
no_space-append (c ∷ s) t h k =
    rw (cons-append c s t) (ground (arith, h, no_space-append s t (ground (arith, h)) k))

trim_end-no_space : (s : String) → no_space s ≡ true → trim_end s ≡ s
unfolding no_space trim_end
trim_end-no_space [] h = refl
trim_end-no_space (c ∷ s) h = ground (arith, h, trim_end-no_space s (ground (arith, h)))

trim_start-no_space : (s : String) → no_space s ≡ true → trim_start s ≡ s
unfolding no_space
trim_start-no_space [] h = refl
trim_start-no_space (c ∷ s) h = ground (arith, h)

pub trim-no_space : (s : String) → no_space s ≡ true → trim s ≡ s
unfolding trim
trim-no_space s h = ap trim_end (trim_start-no_space s h) ∙ trim_end-no_space s h

-- A key without white space comes out of its header.
pub key_of_header-bearer :
    (key : String)
    → no_space key ≡ true
    → str_eq key "" ≡ false
    → key_of_header (some ("Bearer " <> key)) ≡ some key
unfolding key_of_header chars
key_of_header-bearer key h e =
    let taken : take_chars 7 ("Bearer " <> key) ≡ "Bearer " = take_chars-append "Bearer " key in
    let left : drop_chars 7 ("Bearer " <> key) ≡ key = drop_chars-append "Bearer " key in
    rw (key_of_header, taken, left, trim-no_space key h, e) refl
