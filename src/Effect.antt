-- ===== src/Effect.antt =====
-- Go methods that change a state and may return an error: an error undoes nothing, so each comes with
-- the state that it leaves.
pub mod Gives
pub mod Within
pub mod Same
use forge_sync.Base.{◌≡◌, refl, String, ◌<>◌, Bool, true, false, List, [], ◌∷◌, if◌then◌else◌}
use forge_sync.Result.{Error, Result, ok, err}

abbrev pub Exec {ℓ} : Type ℓ → Type ℓ → Type ℓ
Exec S A = S → Result A × S

module _ {ℓ} {S A : Type ℓ} where
  pub raise : Error → Exec S A
  raise e before = (err e, before)

  pub lift : Result A → Exec S A
  lift r before = (r, before)

  pub pure : A → Exec S A
  pure a before = (ok a, before)

  -- `fmt.Errorf("context: %w", err)` round a call
  pub wrapped : String → Exec S A → Exec S A
  wrapped context m s =
      let (r, s') = m s in (elim r [ ok a ↦ ok a | err e ↦ err (context <> ": " <> e) ], s')

module _ {S A : Type 0} where
  -- `if err := m; err != nil { return false }; return true`
  pub succeeded : Exec S A → Exec S Bool
  succeeded m s = let (r, s') = m s in (elim r [ ok a ↦ ok true | err e ↦ ok false ], s')

  -- `err := m`, for an error that is looked at
  unfoldable pub caught : Exec S A → Exec S (Result A)
  caught m s = let (r, s') = m s in (ok r, s')

  pub succeeded-ok :
      (m : Exec S A) (s : S) (a : A) → (m s).0 ≡ ok a → succeeded m s ≡ (ok true, (m s).1)
  unfolding succeeded
  succeeded-ok m s a h = rw h refl

module _ {ℓ} {S A B : Type ℓ} where
  abbrev pub continue : Result A → (A → Exec S B) → Exec S B
  continue (ok a) f s = f a s
  continue (err e) f s = (err e, s)

  infixl 5 ◌>>=◌ ◌>>◌
  -- opening this opens the actions above too
  unfoldable pub ◌>>=◌ : Exec S A → (A → Exec S B) → Exec S B
  unfolding pure raise lift wrapped succeeded caught
  ◌>>=◌ m f s = let (r, s') = m s in continue r f s'

  abbrev pub ◌>>◌ : Exec S A → Exec S B → Exec S B
  m >> n = m >>= λ _. n

-- `for _, x := range xs`, with the variables that the body changes as an accumulator.
module _ {ℓ} {S A X : Type ℓ} where
  unfoldable pub fold : (X → A → Exec S A) → List X → A → Exec S A
  fold body [] a = pure a
  fold body (x ∷ xs) a = body x a >>= λ a'. fold body xs a'

module _ {ℓ} {S X : Type ℓ} where
  unfoldable pub for_each : (X → Exec S (Unit {ℓ})) → List X → Exec S (Unit {ℓ})
  for_each body [] = pure tt
  for_each body (x ∷ xs) = body x >>= λ _. for_each body xs

module _ {ℓ} {S A B : Type ℓ} where
  continue-ok :
      (r : Result A) (f : A → Exec S B) (s : S) (b : B)
      → (continue r f s).0 ≡ ok b
      → (a : A) × (r ≡ ok a) × (continue r f s ≡ f a s)
  continue-ok (ok a) f s b h = (a, refl, refl)
  continue-ok (err e) f s b h = cc

  -- A sequence that succeeds is two steps that succeed.
  pub >>=-ok :
      (m : Exec S A) (f : A → Exec S B) (s : S) (b : B)
      → ((m >>= f) s).0 ≡ ok b
      → (a : A) × ((m s).0 ≡ ok a) × ((m >>= f) s ≡ f a (m s).1)
  unfolding ◌>>=◌
  >>=-ok m f s b h = continue-ok (m s).0 f (m s).1 b h
