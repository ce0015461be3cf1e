-- ===== src/Base/Dict.antt =====
-- Go maps as association lists: `lookup` is `m[k]` with its `ok`, `insert` is `m[k] = v`.
use mathlib.Core.Path.{◌≡◌, refl}
use mathlib.Core.Logic.{◌≢◌}
use mathlib.Core.Bool.{true, false}
use mathlib.Core.Option.{Option, none, some}
use mathlib.Core.List.{List, [], ◌∷◌}
use native.Mathlib.Omega.{arith}
use forge_sync.Base.Equality.{Eq, ◌==◌, contains, if◌then◌else◌}

abbrev pub Dict {ℓ κ} : Type ℓ → Type κ → Type (ℓ ⊔ κ)
Dict K V = List (K × V)

abbrev pub keys {ℓ κ} : {K : Type ℓ} {V : Type κ} → Dict K V → List K
keys [] = []
keys ((k, _) ∷ d) = k ∷ keys d

module _ {ℓ κ} {K : Type ℓ} {V : Type κ} ⦃e : Eq K⦄ where
  unfoldable pub lookup : K → Dict K V → Option V
  lookup k [] = none
  lookup k ((j, v) ∷ d) = if j == k then some v else lookup k d

  unfoldable pub insert : K → V → Dict K V → Dict K V
  insert k v [] = (k, v) ∷ []
  insert k v ((j, w) ∷ d) = if j == k then (k, v) ∷ d else (j, w) ∷ insert k v d

  pub lookup-insert :
      (j k : K) (v : V) (d : Dict K V)
      → lookup j (insert k v d) ≡ (if k == j then some v else lookup j d)
  unfolding insert lookup
  lookup-insert j k v [] = ground arith
  lookup-insert j k v ((i, w) ∷ d) = ground (arith, lookup-insert j k v d)

  pub contains-keys : (d : Dict K V) (k : K) → (contains (keys d) k ≡ false) → lookup k d ≡ none
  unfolding lookup
  contains-keys [] k h = refl
  contains-keys ((j, v) ∷ d) k h = ground (arith, contains-keys d k)

  pub contains-keys_of_lookup :
      (d : Dict K V) (k : K) (v : V) → lookup k d ≡ some v → contains (keys d) k ≡ true
  unfolding lookup
  contains-keys_of_lookup [] k v h = ground arith
  contains-keys_of_lookup ((j, w) ∷ d) k v h = ground (arith, contains-keys_of_lookup d k v)

  pub lookup-ne-none : (d : Dict K V) (k : K) → contains (keys d) k ≡ true → lookup k d ≢ none
  unfolding lookup
  lookup-ne-none [] k h = ground arith
  lookup-ne-none ((j, v) ∷ d) k h = ground (arith, lookup-ne-none d k)
