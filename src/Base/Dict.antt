-- ===== src/Base/Dict.antt =====
-- `Map` and plain objects with text keys, as ECMAScript keeps them: in insertion order, where `set`
-- on a present key writes in place and a new key goes to the end.
use vero_audit_guard.Base.Tests.{if◌then◌else◌}
use vero_audit_guard.Base.Lists.{length}
use vero_audit_guard.Base.Text.{str_eq}
use Prim.Native.Nat.{◌+◌, ◌≤◌}
use Prim.Native.String.{String}
use mathlib.Core.Path.{◌≡◌, refl}
use mathlib.Core.Bool.{Bool, false, ◌||◌}
use mathlib.Core.Option.{Option, none, some}
use mathlib.Core.List.{List, [], ◌∷◌}
use native.Mathlib.Omega.{arith}
use text.Mathlib.TextEquality.{eq_iff}

abbrev pub Dict {ℓ} : Type ℓ → Type ℓ
Dict V = List (String × V)

module _ {ℓ} {V : Type ℓ} where
  unfoldable pub lookup : String → Dict V → Option V
  lookup k [] = none
  lookup k ((j, v) ∷ m) = if str_eq j k then some v else lookup k m

  unfoldable pub has : String → Dict V → Bool
  has k [] = false
  has k ((j, v) ∷ m) = str_eq j k || has k m

  unfoldable pub insert : String → V → Dict V → Dict V
  insert k v [] = (k, v) ∷ []
  insert k v ((j, w) ∷ m) = if str_eq j k then (j, v) ∷ m else (j, w) ∷ insert k v m

  unfoldable pub delete : String → Dict V → Dict V
  delete k [] = []
  delete k ((j, w) ∷ m) = if str_eq j k then delete k m else (j, w) ∷ delete k m

module _ {ℓ} {V : Type ℓ} where
  -- `get` after `set`.
  pub lookup-insert :
      (set got : String) (m : Dict V) (v : V)
      → lookup got (insert set v m) ≡ (if str_eq set got then some v else lookup got m)
  unfolding insert lookup
  lookup-insert set got [] v = refl
  lookup-insert set got ((i, w) ∷ m) v =
      let rest = lookup-insert set got m v in
      ground (arith, eq_iff i got, eq_iff i set, eq_iff set got)

  pub lookup-delete :
      (k j : String) (m : Dict V)
      → lookup j (delete k m) ≡ (if str_eq k j then none else lookup j m)
  unfolding lookup delete
  lookup-delete k j [] = ground arith
  lookup-delete k j ((i, w) ∷ m) =
      ground (arith, eq_iff k j, eq_iff i k, eq_iff i j, lookup-delete k j m)

  pub has-eq-false : (k : String) (m : Dict V) → has k m ≡ false → lookup k m ≡ none
  unfolding has lookup
  has-eq-false k [] h = refl
  has-eq-false k ((j, w) ∷ m) h = ground (arith, has-eq-false k m)

  pub length-delete-le : (k : String) (m : Dict V) → length (delete k m) ≤ length m
  unfolding delete
  length-delete-le k [] = omega arith
  length-delete-le k ((j, w) ∷ m) = ground (arith, length-delete-le k m)

  pub length-insert-le : (k : String) (v : V) (m : Dict V) → length (insert k v m) ≤ length m + 1
  unfolding insert
  length-insert-le k v [] = omega arith
  length-insert-le k v ((j, w) ∷ m) = ground (arith, length-insert-le k v m)
