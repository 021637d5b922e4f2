-- ===== src/Exporter/Lines.antt =====
-- Complete lines, and how they come out of the pieces of a text.
use Prim.Native.Char.{Char, code}
use text.Mathlib.TextLemmas.{cons-append}
use loopstorm_guard.Common.{
  ℕ, ◌+◌, ◌≡◌, refl, sym, ◌∙◌, ap, inl, inr, String, Option, List, [], ◌∷◌, ◌++◌, append_assoc,
  ◌==◌, str_eq, if◌then◌else◌, arith, Bool-cases,
}
use loopstorm_guard.Common.Texts.{trim_end}
use loopstorm_guard.Policies.Content.{Value}
use loopstorm_guard.Exporter.Reader.{◌<>◌, put, split_lines, pop, process_lines, parse_line}

-- The complete lines of a text, and what follows the last line feed.
unfoldable pub cut : String → List String × String
unfolding split_lines pop
cut s = pop (split_lines s)

-- A character in front of a text that has been cut.
abbrev step : Char → List String × String → List String × String
step c (ls, r) =
    if code c == 10
    then ("" ∷ ls, r)
    else elim ls [ [] ↦ ([], String.◌∷◌ c r) | x ∷ xs ↦ (String.◌∷◌ c x ∷ xs, r) ]

split_lines-ne : (s : String) → (x : String) × (xs : List String) × (split_lines s ≡ x ∷ xs)
unfolding split_lines
split_lines-ne String.[] = ("", [], refl)
split_lines-ne (String.◌∷◌ c s) =
    let (x, xs, e) = split_lines-ne s in
    elim (Bool-cases (code c == 10)) [
      | inl t ↦ ("", x ∷ xs, rw (split_lines, t, e) refl)
      | inr t ↦ (String.◌∷◌ c x, xs, rw (split_lines, t, e) refl)
    ]

pop-step :
    (c : Char) (x : String) (xs : List String)
    → pop (if code c == 10 then "" ∷ x ∷ xs else String.◌∷◌ c x ∷ xs) ≡ step c (pop (x ∷ xs))
unfolding pop
pop-step c x [] = ground arith
pop-step c x (y ∷ ys) = ground arith

cut-cons : (c : Char) (s : String) → cut (String.◌∷◌ c s) ≡ step c (cut s)
unfolding cut split_lines
cut-cons c s =
    let (x, xs, e) = split_lines-ne s in
    ap (λ l. pop (if code c == 10 then "" ∷ l else put c l)) e
    ∙ pop-step c x xs
    ∙ ap (λ l. step c (pop l)) (sym e)

cut_cons_append : (c : Char) (s t : String) → cut (String.◌∷◌ c s <> t) ≡ step c (cut (s <> t))
cut_cons_append c s t = ap cut (cons-append c s t) ∙ cut-cons c (s <> t)

step-append :
    (c : Char) (ls : List String) (r t : String)
    → step c (ls ++ (cut (r <> t)).0, (cut (r <> t)).1)
      ≡ ((step c (ls, r)).0 ++ (cut ((step c (ls, r)).1 <> t)).0, (cut ((step c (ls, r)).1 <> t)).1)
step-append c [] r t = elim (Bool-cases (code c == 10)) [
  | inl e ↦ rw e refl
  | inr e ↦ let joined = sym (cut_cons_append c r t) in rw e (rw e at joined)
]
step-append c (x ∷ xs) r t = ground arith

pub cut-append :
    (s t : String)
    → cut (s <> t) ≡ ((cut s).0 ++ (cut ((cut s).1 <> t)).0, (cut ((cut s).1 <> t)).1)
unfolding cut split_lines pop
cut-append String.[] t = refl
cut-append (String.◌∷◌ c s) t =
    cut_cons_append c s t
    ∙ ap (step c) (cut-append s t)
    ∙ step-append c (cut s).0 (cut s).1 t
    ∙ ap (λ (p : List String × String). (p.0 ++ (cut (p.1 <> t)).0, (cut (p.1 <> t)).1))
        (sym (cut-cons c s))

module _ (json_parse : String → Option Value) where
  -- The events of complete lines, in order.
  unfoldable pub events_of : List String → List Value
  unfolding trim_end
  events_of [] = []
  events_of (line ∷ lines) =
      (if str_eq (trim_end line) "" then [] else parse_line json_parse (trim_end line))
      ++ events_of lines

  pub process_lines-events :
      (n : ℕ) (lines : List String) → (process_lines json_parse n lines).1 ≡ events_of lines
  unfolding process_lines events_of
  process_lines-events n [] = refl
  process_lines-events n (line ∷ lines) =
      ground (arith, process_lines-events n lines, process_lines-events (n + 1) lines)

  pub events_of-append : (xs ys : List String) → events_of (xs ++ ys) ≡ events_of xs ++ events_of ys
  unfolding events_of
  events_of-append [] ys = refl
  events_of-append (x ∷ xs) ys =
      rw (events_of-append xs ys) (sym (append_assoc _ (events_of xs) (events_of ys)))
