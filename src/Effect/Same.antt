-- ===== src/Effect/Same.antt =====
-- Two actions are equal when they are built in the same way from equal ones.
use forge_sync.Base.{◌≡◌, refl, Bool, List, if◌then◌else◌}
use forge_sync.Effect.{Exec, ◌>>=◌, fold, for_each}

module _ {S A : Type 0} where
  pub same_refl : (m : Exec S A) → m ≡ m
  same_refl m = refl

  pub same-if :
      (b : Bool) (m m' n n' : Exec S A)
      → m ≡ m'
      → n ≡ n'
      → (if b then m else n) ≡ (if b then m' else n')
  same-if b m m' n n' p q = λ i. if b then p i else q i

module _ {S A B : Type 0} where
  pub same-bind :
      (m m' : Exec S A) (f f' : A → Exec S B)
      → m ≡ m'
      → ((a : A) → f a ≡ f' a)
      → (m >>= f) ≡ (m' >>= f')
  same-bind m m' f f' p q = λ i. p i >>= (λ a. q a i)

module _ {S X : Type 0} where
  pub same-for_each :
      (f f' : X → Exec S (Unit {0})) (xs : List X)
      → ((x : X) → f x ≡ f' x)
      → for_each f xs ≡ for_each f' xs
  same-for_each f f' xs q = λ i. for_each (λ x. q x i) xs

module _ {S A X : Type 0} where
  pub same-fold :
      (f f' : X → A → Exec S A) (xs : List X) (a : A)
      → ((x : X) (b : A) → f x b ≡ f' x b)
      → fold f xs a ≡ fold f' xs a
  same-fold f f' xs a q = λ i. fold (λ x b. q x b i) xs a

pub ruleset same_rules = (same-if, same-bind, same-for_each, same-fold, same_refl)
