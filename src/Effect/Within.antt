-- ===== src/Effect/Within.antt =====
-- A relation between the states before and after an action, one rule for each way to build it. The
-- relation is a preorder: what every later state keeps of an earlier one.
use forge_sync.Base.{String, Bool, true, false, List, [], ◌∷◌, if◌then◌else◌}
use forge_sync.Result.{Error, Result, ok, err}
use forge_sync.Effect.{
  Exec, pure, raise, lift, wrapped, succeeded, caught, continue, ◌>>=◌, fold, for_each,
}

pub record IsPreorder {ℓ} {S : Type ℓ} (R : S → S → Type ℓ) : Type ℓ where
  pub stays : (s : S) → R s s
  pub then_ : (s t u : S) → R s t → R t u → R s u

-- `m` ends, whether it returns or fails, in a state that `R` relates to the one it began in.
pub record Within {ℓ} {S A : Type ℓ} (R : S → S → Type ℓ) (m : Exec S A) : Type ℓ where
  pub at : (s : S) → R s (m s).1

module _ {ℓ} {S A : Type ℓ} {R : S → S → Type ℓ} where
  pub Within-pure : IsPreorder R → (a : A) → Within R (pure a)
  unfolding pure
  Within-pure p a = record { at = λ s. p.stays s }

  pub Within-raise : IsPreorder R → (e : Error) → Within R (raise {A = A} e)
  unfolding raise
  Within-raise p e = record { at = λ s. p.stays s }

  pub Within-lift : IsPreorder R → (r : Result A) → Within R (lift r)
  unfolding lift
  Within-lift p r = record { at = λ s. p.stays s }

  pub Within-wrapped : (c : String) (m : Exec S A) → Within R m → Within R (wrapped c m)
  unfolding wrapped
  Within-wrapped c m w = record { at = λ s. w.at s }

  pub Within-if :
      (b : Bool) (m n : Exec S A) → Within R m → Within R n → Within R (if b then m else n)
  Within-if true m n wm wn = wm
  Within-if false m n wm wn = wn

module _ {S A : Type 0} {R : S → S → Type 0} where
  pub Within-succeeded : (m : Exec S A) → Within R m → Within R (succeeded m)
  unfolding succeeded
  Within-succeeded m w = record { at = λ s. w.at s }

  pub Within-caught : (m : Exec S A) → Within R m → Within R (caught m)
  unfolding caught
  Within-caught m w = record { at = λ s. w.at s }

module _ {ℓ} {S A B : Type ℓ} {R : S → S → Type ℓ} where
  pub Within-bind :
      IsPreorder R
      → (m : Exec S A) (f : A → Exec S B) → Within R m
      → ((a : A) → Within R (f a))
      → Within R (m >>= f)
  unfolding ◌>>=◌
  Within-bind p m f wm wf = record { at = λ s. go s (m s).0 (m s).1 (wm.at s) }
    where
      go : (s : S) (r : Result A) (s' : S) → R s s' → R s (continue r f s').1
      go s (ok a) s' h = p.then_ s s' _ h ((wf a).at s')
      go s (err e) s' h = h

module _ {ℓ} {S A X : Type ℓ} {R : S → S → Type ℓ} where
  pub Within-fold :
      IsPreorder R
      → (body : X → A → Exec S A) (xs : List X) (a : A) → ((x : X) (b : A) → Within R (body x b))
      → Within R (fold body xs a)
  unfolding fold
  Within-fold p body [] a w = Within-pure p a
  Within-fold p body (x ∷ xs) a w =
      Within-bind p (body x a) _ (w x a) (λ b. Within-fold p body xs b w)

module _ {ℓ} {S X : Type ℓ} {R : S → S → Type ℓ} where
  pub Within-for_each :
      IsPreorder R
      → (body : X → Exec S (Unit {ℓ})) (xs : List X) → ((x : X) → Within R (body x))
      → Within R (for_each body xs)
  unfolding for_each
  Within-for_each p body [] w = Within-pure p tt
  Within-for_each p body (x ∷ xs) w =
      Within-bind p (body x) _ (w x) (λ _. Within-for_each p body xs w)

pub ruleset within_rules = (
  Within-pure, Within-raise, Within-lift, Within-wrapped, Within-succeeded, Within-caught,
  Within-if, Within-bind, Within-fold, Within-for_each,
)
