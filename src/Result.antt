-- ===== src/Result.antt =====
-- Go's pair of a value and an error. An error is the text that its `Error` method returns.
use forge_sync.Base.{String, ◌<>◌, ◌≡◌, refl}

abbrev pub Error : Type 0
Error = String

pub data Result {ℓ} (A : Type ℓ) : Type ℓ where
  ok : A → Result A
  err : Error → Result A

-- `fmt.Errorf("context: %w", err)`
abbrev pub wrap {ℓ} : {A : Type ℓ} → String → Result A → Result A
wrap context (ok a) = ok a
wrap context (err e) = err (context <> ": " <> e)

-- `a, err := m; if err != nil { return err }`
module _ {ℓ κ} {A : Type ℓ} {B : Type κ} where
  infixl 5 ◌>>=◌
  abbrev pub ◌>>=◌ : Result A → (A → Result B) → Result B
  err e >>= next = err e
  ok a >>= next = next a

  -- A successful sequence is two successes.
  pub >>=-eq-ok :
      (first : Result A) (next : A → Result B) {b : B}
      → (first >>= next) ≡ ok b
      → (a : A) × (first ≡ ok a) × (next a ≡ ok b)
  >>=-eq-ok (err e) next h = cc
  >>=-eq-ok (ok a) next h = (a, refl, h)

infixl 5 ◌>>◌
abbrev pub ◌>>◌ {ℓ} : {B : Type ℓ} → Result (Unit {0}) → Result B → Result B
first >> second = first >>= λ _. second
