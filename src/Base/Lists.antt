-- ===== src/Base/Lists.antt =====
-- Lists: Go slices, and the keys of Go maps.
use Prim.Native.Nat.{ℕ, suc}
use mathlib.Core.Path.{◌≡◌, refl}
use mathlib.Core.Bool.{Bool, true, false, ◌||◌}
use mathlib.Core.Option.{Option, none, some}
use mathlib.Core.List.{List, [], ◌∷◌, ◌++◌}
use native.Mathlib.Omega.{arith}
use forge_sync.Base.Equality.{Eq, ◌==◌, contains, if◌then◌else◌}

module _ {ℓ} {A : Type ℓ} where
  abbrev pub length : List A → ℕ
  length [] = 0
  length (x ∷ xs) = suc (length xs)

  -- Every element satisfies `P`.
  abbrev pub All {κ} : (A → Type κ) → List A → Type κ
  All P [] = Unit
  All P (x ∷ xs) = P x × All P xs

  abbrev pub filter : (A → Bool) → List A → List A
  filter p [] = []
  filter p (x ∷ xs) = let rest = filter p xs in if p x then x ∷ rest else rest

  abbrev pub any : (A → Bool) → List A → Bool
  any p [] = false
  any p (x ∷ xs) = p x || any p xs

  -- The last element that passes, which is what a Go map holds after a loop of writes.
  abbrev pub find_last : (A → Bool) → List A → Option A
  find_last p [] = none
  find_last p (x ∷ xs) = elim (find_last p xs) [
    | some y ↦ some y
    | none ↦ if p x then some x else none
  ]

  abbrev pub find : (A → Bool) → List A → Option A
  find p [] = none
  find p (x ∷ xs) = let rest = find p xs in if p x then some x else rest

  -- Insertion sort by a test `before or equal`, for `sort.Strings`, `sort.Slice` and `ORDER BY`.
  unfoldable pub insert_sorted : (A → A → Bool) → A → List A → List A
  insert_sorted le x [] = x ∷ []
  insert_sorted le x (y ∷ ys) = if le x y then x ∷ y ∷ ys else y ∷ insert_sorted le x ys

  unfoldable pub sort_by : (A → A → Bool) → List A → List A
  unfolding insert_sorted
  sort_by le [] = []
  sort_by le (x ∷ xs) = insert_sorted le x (sort_by le xs)

  pub All-append {κ} : (P : A → Type κ) (xs ys : List A) → All P xs → All P ys → All P (xs ++ ys)
  All-append P [] ys hx hy = hy
  All-append P (x ∷ xs) ys hx hy = (hx.0, All-append P xs ys hx.1 hy)

  insert_sorted-All {κ} :
      (P : A → Type κ) (le : A → A → Bool) (x : A) (ys : List A)
      → P x
      → All P ys
      → All P (insert_sorted le x ys)
  unfolding insert_sorted
  insert_sorted-All P le x [] h hs = (h, tt)
  insert_sorted-All P le x (y ∷ ys) h hs =
      insert_sorted-All_step (le x y) (insert_sorted-All P le x ys h hs.1)
    where
      insert_sorted-All_step :
          (b : Bool)
          → All P (insert_sorted le x ys)
          → All P (if b then x ∷ y ∷ ys else y ∷ insert_sorted le x ys)
      insert_sorted-All_step true r = (h, hs)
      insert_sorted-All_step false r = (hs.0, r)

  pub sort_by-All {κ} :
      (P : A → Type κ) (le : A → A → Bool) (xs : List A) → All P xs → All P (sort_by le xs)
  unfolding sort_by
  sort_by-All P le [] h = tt
  sort_by-All P le (x ∷ xs) h =
      insert_sorted-All P le x (sort_by le xs) h.0 (sort_by-All P le xs h.1)

module _ {ℓ} {A : Type ℓ} ⦃e : Eq A⦄ where
  insert_sorted-contains :
      (le : A → A → Bool) (x : A) (ys : List A) (a : A)
      → contains (insert_sorted le x ys) a ≡ (x == a || contains ys a)
  unfolding insert_sorted
  insert_sorted-contains le x [] a = ground arith
  insert_sorted-contains le x (y ∷ ys) a = ground (arith, insert_sorted-contains le x ys a)

  -- Sorting keeps the elements.
  pub sort_by-contains :
      (le : A → A → Bool) (xs : List A) (a : A) → contains (sort_by le xs) a ≡ contains xs a
  unfolding sort_by
  sort_by-contains le [] a = refl
  sort_by-contains le (x ∷ xs) a =
      ground (arith, insert_sorted-contains le x (sort_by le xs) a, sort_by-contains le xs a)

  -- No element occurs twice.
  abbrev pub IsNodup : List A → Type 0
  IsNodup [] = Unit
  IsNodup (x ∷ xs) = (contains xs x ≡ false) × IsNodup xs

  insert_sorted-IsNodup :
      (le : A → A → Bool) (x : A) (ys : List A)
      → contains ys x ≡ false
      → IsNodup ys
      → IsNodup (insert_sorted le x ys)
  unfolding insert_sorted
  insert_sorted-IsNodup le x [] h n = (refl, tt)
  insert_sorted-IsNodup le x (y ∷ ys) h n =
      ground (arith, insert_sorted-IsNodup le x ys, insert_sorted-contains le x ys y)

  pub sort_by-IsNodup : (le : A → A → Bool) (xs : List A) → IsNodup xs → IsNodup (sort_by le xs)
  unfolding sort_by
  sort_by-IsNodup le [] n = tt
  sort_by-IsNodup le (x ∷ xs) n =
      insert_sorted-IsNodup le x (sort_by le xs) (ground (arith, sort_by-contains le xs x))
        (sort_by-IsNodup le xs n.1)
