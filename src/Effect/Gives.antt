-- ===== src/Effect/Gives.antt =====
-- Actions that always succeed, one rule for each way to build them.
use forge_sync.Base.{String, Bool, true, false, ◌≡◌, refl, if◌then◌else◌}
use forge_sync.Result.{Result, ok}
use forge_sync.Effect.{Exec, pure, wrapped, succeeded, caught, ◌>>=◌}

-- In every state, `m` succeeds with a value that `P` holds of.
pub record Gives {S A : Type 0} (P : A → Type 0) (m : Exec S A) : Type 0 where
  pub at : (s : S) → (a : A) × ((m s).0 ≡ ok a) × P a

module _ {S A : Type 0} {P : A → Type 0} where
  pub Gives-pure : (a : A) → P a → Gives {S = S} P (pure a)
  unfolding pure
  Gives-pure a p = record { at = λ s. (a, refl, p) }

  pub Gives-if : (b : Bool) (m n : Exec S A) → Gives P m → Gives P n → Gives P (if b then m else n)
  Gives-if true m n gm gn = gm
  Gives-if false m n gm gn = gn

  pub Gives-wrapped : (c : String) (m : Exec S A) → Gives P m → Gives P (wrapped c m)
  unfolding wrapped
  Gives-wrapped c m g = record { at = λ s. let b = g.at s in (b.0, rw b.1 refl, b.2) }

module _ {S A : Type 0} where
  pub Gives-succeeded :
      (P : A → Type 0) (m : Exec S A) → Gives P m → Gives (λ b. b ≡ true) (succeeded m)
  unfolding succeeded
  Gives-succeeded P m g = record { at = λ s. let b = g.at s in (true, rw b.1 refl, refl) }

module _ {S A B : Type 0} (P : A → Type 0) {Q : B → Type 0} where
  pub Gives-bind :
      (m : Exec S A) (f : A → Exec S B)
      → Gives P m
      → ((a : A) → P a → Gives Q (f a))
      → Gives Q (m >>= f)
  unfolding ◌>>=◌
  Gives-bind m f gm gf = record {
    at = λ s. let b = gm.at s in let c = (gf b.0 b.2).at (m s).1 in (c.0, rw b.1 c.1, c.2);
  }

module _ {S A B : Type 0} {Q : B → Type 0} where
  -- An error that is looked at may be any error that `m` ends with.
  pub Gives-caught :
      (m : Exec S A) (f : Result A → Exec S B)
      → ((s : S) → Gives Q (f (m s).0))
      → Gives Q (caught m >>= f)
  unfolding ◌>>=◌
  Gives-caught m f g = record { at = λ s. (g s).at (m s).1 }
