-- ===== src/Common/Dict.antt =====
-- `Map<string, V>`: an association list in insertion order, with `get`, `set` and `delete`.
use Prim.Native.Nat.{suc, ◌≤◌}
use Prim.Native.String.{String}
use mathlib.Core.Path.{◌≡◌, refl}
use mathlib.Core.Bool.{Bool, false}
use mathlib.Core.Option.{Option, none, some}
use mathlib.Core.List.{List, [], ◌∷◌}
use native.Mathlib.Omega.{arith}
use text.Mathlib.Text.{◌==◌ as str_eq}
use text.Mathlib.TextEquality.{eq_iff}
use loopstorm_guard.Common.Tests.{if◌then◌else◌}
use loopstorm_guard.Common.Lists.{length}

module _ {V : Type 0} where
  unfoldable pub get : String → List (String × V) → Option V
  get k [] = none
  get k ((j, v) ∷ m) = if str_eq j k then some v else get k m

  -- A key that is there keeps its place; a new key goes to the end.
  unfoldable pub set : String → V → List (String × V) → List (String × V)
  set k v [] = (k, v) ∷ []
  set k v ((j, w) ∷ m) = if str_eq j k then (j, v) ∷ m else (j, w) ∷ set k v m

  unfoldable pub delete : String → List (String × V) → List (String × V)
  delete k [] = []
  delete k ((j, w) ∷ m) = if str_eq j k then delete k m else (j, w) ∷ delete k m

  -- `for (const [k, v] of m) if (p(v)) m.delete(k)`.
  unfoldable pub delete_where : (V → Bool) → List (String × V) → List (String × V)
  delete_where p [] = []
  delete_where p ((j, w) ∷ m) = if p w then delete_where p m else (j, w) ∷ delete_where p m

  -- No key stands twice.
  abbrev pub IsDistinct : List (String × V) → Type 0
  IsDistinct [] = Unit
  IsDistinct ((j, w) ∷ m) = (get j m ≡ none) × IsDistinct m

  pub get-set :
      (k j : String) (v : V) (m : List (String × V))
      → get j (set k v m) ≡ (if str_eq k j then some v else get j m)
  unfolding get set
  get-set k j v [] = refl
  get-set k j v ((i, w) ∷ m) = ground (arith, eq_iff k j, eq_iff i k, eq_iff i j, get-set k j v m)

  pub get-delete :
      (k j : String) (m : List (String × V))
      → get j (delete k m) ≡ (if str_eq k j then none else get j m)
  unfolding get delete
  get-delete k j [] = ground arith
  get-delete k j ((i, w) ∷ m) = ground (arith, eq_iff k j, eq_iff i k, eq_iff i j, get-delete k j m)

  pub set-IsDistinct :
      (k : String) (v : V) (m : List (String × V)) → IsDistinct m → IsDistinct (set k v m)
  unfolding set get
  set-IsDistinct k v [] h = (refl, tt)
  set-IsDistinct k v ((i, w) ∷ m) (p, h) =
      ground (arith, eq_iff i k, eq_iff k i, get-set k i v m, set-IsDistinct k v m h)

  pub delete-IsDistinct :
      (k : String) (m : List (String × V)) → IsDistinct m → IsDistinct (delete k m)
  unfolding delete get
  delete-IsDistinct k [] h = tt
  delete-IsDistinct k ((i, w) ∷ m) (p, h) =
      ground (arith, eq_iff k i, get-delete k i m, delete-IsDistinct k m h)

  get-delete_where-none :
      (p : V → Bool) (k : String) (m : List (String × V))
      → get k m ≡ none
      → get k (delete_where p m) ≡ none
  unfolding get delete_where
  get-delete_where-none p k [] h = refl
  get-delete_where-none p k ((i, w) ∷ m) h = ground (arith, get-delete_where-none p k m)

  -- An entry that the test does not pick stays.
  pub get-delete_where_kept :
      (p : V → Bool) (k : String) (v : V) (m : List (String × V))
      → get k m ≡ some v
      → p v ≡ false
      → get k (delete_where p m) ≡ some v
  unfolding get delete_where
  get-delete_where_kept p k v [] h e = cc
  get-delete_where_kept p k v ((i, w) ∷ m) h e =
      ground (arith, eq_iff i k, get-delete_where_kept p k v m)

  pub delete_where-IsDistinct :
      (p : V → Bool) (m : List (String × V)) → IsDistinct m → IsDistinct (delete_where p m)
  unfolding delete_where
  delete_where-IsDistinct p [] h = tt
  delete_where-IsDistinct p ((i, w) ∷ m) (e, h) =
      ground (arith, get-delete_where-none p i m e, delete_where-IsDistinct p m h)

  pub length-delete_where :
      (p : V → Bool) (m : List (String × V)) → length (delete_where p m) ≤ length m
  unfolding delete_where
  length-delete_where p [] = omega arith
  length-delete_where p ((i, w) ∷ m) = ground (arith, length-delete_where p m)

  pub length-delete : (k : String) (m : List (String × V)) → length (delete k m) ≤ length m
  unfolding delete
  length-delete k [] = omega arith
  length-delete k ((i, w) ∷ m) = ground (arith, length-delete k m)

  pub length-delete_present :
      (k : String) (v : V) (m : List (String × V))
      → get k m ≡ some v
      → suc (length (delete k m)) ≤ length m
  unfolding get delete
  length-delete_present k v [] h = cc
  length-delete_present k v ((i, w) ∷ m) h =
      ground (arith, length-delete_present k v m, length-delete k m)

  pub length-set_absent :
      (k : String) (v : V) (m : List (String × V))
      → get k m ≡ none
      → length (set k v m) ≡ suc (length m)
  unfolding get set
  length-set_absent k v [] h = refl
  length-set_absent k v ((i, w) ∷ m) h = ground (arith, length-set_absent k v m)

  pub length-set_present :
      (k : String) (v u : V) (m : List (String × V))
      → get k m ≡ some u
      → length (set k v m) ≡ length m
  unfolding get set
  length-set_present k v u [] h = cc
  length-set_present k v u ((i, w) ∷ m) h = ground (arith, length-set_present k v u m)
