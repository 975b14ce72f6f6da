-- ===== src/Prelude/Dict.antt =====
-- `HashMap` and `BTreeMap` of the standard library as an association list with distinct use of
-- keys: an insert replaces the value in place or appends, a removal drops every entry of the key.
-- Where the source iterates over a map, the order is that of the list, and the theorems on such
-- code do not depend on it.
use Prim.Native.Nat.{◌+◌, ◌≤◌}
use mathlib.Core.Path.{◌≡◌, refl}
use mathlib.Core.Bool.{Bool}
use mathlib.Core.Option.{Option, none, some}
use mathlib.Core.List.{List, [], ◌∷◌, map}
use native.Mathlib.Omega.{arith}
use post_urbit.Prelude.Tests.{if◌then◌else◌, is_some}
use post_urbit.Prelude.Lists.{length}
use post_urbit.Prelude.Classes.{Eq, ◌==◌}

abbrev pub Dict {ℓ} : Type ℓ → Type ℓ → Type ℓ
Dict K V = List (K × V)

module _ {ℓ} {K V : Type ℓ} where
  -- `values()` and `keys()`
  abbrev pub values : Dict K V → List V
  values = map (λ e. e.1)

  abbrev pub keys : Dict K V → List K
  keys = map (λ e. e.0)

module _ {ℓ} {K V : Type ℓ} ⦃e : Eq K⦄ where
  unfoldable pub get : Dict K V → K → Option V
  get [] k = none
  get ((j, v) ∷ m) k = if j == k then some v else get m k

  unfoldable pub insert : Dict K V → K → V → Dict K V
  insert [] k v = (k, v) ∷ []
  insert ((j, w) ∷ m) k v = let rest = insert m k v in if j == k then (k, v) ∷ m else (j, w) ∷ rest

  unfoldable pub remove : Dict K V → K → Dict K V
  remove [] k = []
  remove ((j, w) ∷ m) k = let rest = remove m k in if j == k then rest else (j, w) ∷ rest

  -- `contains_key`
  abbrev pub contains_key : Dict K V → K → Bool
  contains_key m k = is_some (get m k)

  pub get-insert :
      (m : Dict K V) (k j : K) (v : V) → get (insert m k v) j ≡ (if k == j then some v else get m j)
  unfolding get insert
  get-insert [] k j v = refl
  get-insert ((i, w) ∷ m) k j v =
      ground (arith, e.beq_iff k j, e.beq_iff i k, e.beq_iff i j, get-insert m k j v)

  pub get-remove :
      (m : Dict K V) (k j : K) → get (remove m k) j ≡ (if k == j then none else get m j)
  unfolding get remove
  get-remove [] k j = ground arith
  get-remove ((i, w) ∷ m) k j =
      ground (arith, e.beq_iff k j, e.beq_iff i k, e.beq_iff i j, get-remove m k j)

  pub length-insert-le : (m : Dict K V) (k : K) (v : V) → length (insert m k v) ≤ length m + 1
  unfolding insert
  length-insert-le [] k v = omega arith
  length-insert-le ((j, w) ∷ m) k v = ground (arith, length-insert-le m k v)

  pub length-remove-le : (m : Dict K V) (k : K) → length (remove m k) ≤ length m
  unfolding remove
  length-remove-le [] k = omega arith
  length-remove-le ((j, w) ∷ m) k = ground (arith, length-remove-le m k)

  -- every key stands once, as in a map of the source
  abbrev pub IsDistinct : Dict K V → Type ℓ
  IsDistinct [] = Unit {ℓ}
  IsDistinct ((k, v) ∷ m) = (get m k ≡ none) × IsDistinct m

  pub insert-IsDistinct : (m : Dict K V) (k : K) (v : V) → IsDistinct m → IsDistinct (insert m k v)
  unfolding insert get
  insert-IsDistinct [] k v d = (refl, tt)
  insert-IsDistinct ((j, w) ∷ m) k v d =
      ground (arith, e.beq_iff j k, e.beq_iff k j, get-insert m k j v, insert-IsDistinct m k v)

  pub remove-IsDistinct : (m : Dict K V) (k : K) → IsDistinct m → IsDistinct (remove m k)
  unfolding remove get
  remove-IsDistinct [] k d = tt
  remove-IsDistinct ((j, w) ∷ m) k d =
      ground (arith, e.beq_iff j k, e.beq_iff k j, get-remove m k j, remove-IsDistinct m k)
