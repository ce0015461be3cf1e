-- ===== src/Matching/Pairs.antt =====
-- The pairing of leftovers: only objects whose key is unique on both sides are paired.
use mathlib.Core.List.{append_assoc, append-nil}
use forge_sync.Base.{
  Bool, true, false, ◌||◌, some, List, [], ◌∷◌, ◌++◌, ◌≡◌, refl, sym, ◌∙◌, ap, arith, ◌==◌, Eq,
  contains, filter, All, IsNodup, Bool-cases, inl, inr,
}
use forge_sync.Base.Dict.{Dict, keys, lookup, insert, lookup-insert}
use forge_sync.Base.Int.{ℤ, int_eq}
use forge_sync.Matching.{Identified, members, group_by, pair_one, pair_groups, unique_pairs}

All-map :
    {X : Type 0} {P Q : X → Type 0} → ((x : X) → P x → Q x) → (xs : List X) → All P xs → All Q xs
All-map f [] a = tt
All-map f (x ∷ xs) a = (f x a.0, All-map f xs a.1)

module _ {K V : Type 0} ⦃e : Eq K⦄ where
  contains-insert :
      (j k : K) (v : V) (d : Dict K V)
      → contains (keys (insert k v d)) j ≡ (k == j || contains (keys d) j)
  unfolding insert
  contains-insert j k v [] = refl
  contains-insert j k v ((i, w) ∷ d) = ground (arith, contains-insert j k v d)

  insert-IsNodup : (k : K) (v : V) (d : Dict K V) → IsNodup (keys d) → IsNodup (keys (insert k v d))
  unfolding insert
  insert-IsNodup k v [] n = (refl, tt)
  insert-IsNodup k v ((i, w) ∷ d) n = elim (Bool-cases (i == k)) [
    | inl b ↦ rw b (ground arith)
    | inr b ↦ rw b (ground (arith, contains-insert i k v d), insert-IsNodup k v d n.1)
  ]

  All-insert :
      (P : K × V → Type 0) (k : K) (v : V) (d : Dict K V)
      → P (k, v)
      → All P d
      → All P (insert k v d)
  unfolding insert
  All-insert P k v [] p a = (p, tt)
  All-insert P k v ((i, w) ∷ d) p a = elim (Bool-cases (i == k)) [
    | inl b ↦ rw b (p, a.1)
    | inr b ↦ rw b (a.0, All-insert P k v d p a.1)
  ]

  lookup_tail :
      (k j : K) (v : V) (rest : Dict K V)
      → contains (keys rest) k ≡ false
      → contains (keys rest) j ≡ true
      → lookup j ((k, v) ∷ rest) ≡ lookup j rest
  unfolding lookup
  lookup_tail k j v rest n c = ground arith

  lookup_head : (k : K) (v : V) (rest : Dict K V) → lookup k ((k, v) ∷ rest) ≡ some v
  unfolding lookup
  lookup_head k v rest = ground arith

  -- In a map whose keys differ, each entry is what a lookup of its key finds.
  entries :
      (d rest : Dict K V)
      → IsNodup (keys rest)
      → ((k : K) → contains (keys rest) k ≡ true → lookup k d ≡ lookup k rest)
      → All (λ p. lookup p.0 d ≡ some p.1) rest
  entries d [] n h = tt
  entries d ((k, v) ∷ rest) n h = (
    h k (ground arith) ∙ lookup_head k v rest,
    entries d rest n.1 (λ j c. h j (ground arith) ∙ lookup_tail k j v rest n.0 c),
  )

module _ {A K : Type 0} ⦃i : Identified A⦄ ⦃e : Eq K⦄ (key : A → K) (accept : A → A → Bool) where
  abbrev pub with_key : K → List A → List A
  with_key k = filter (λ x. key x == k)

  members_same :
      (j k : K) (v : List A) (d : Dict K (List A))
      → (k == j) ≡ true
      → members key accept j (insert k v d) ≡ v
  members_same j k v d h = ground (arith, lookup-insert j k v d)

  members_other :
      (j k : K) (v : List A) (d : Dict K (List A))
      → (k == j) ≡ false
      → members key accept j (insert k v d) ≡ members key accept j d
  members_other j k v d h = ground (arith, lookup-insert j k v d)

  members-group_by :
      (xs : List A) (d : Dict K (List A)) (k : K)
      → members key accept k (group_by key accept xs d) ≡ members key accept k d ++ with_key k xs
  unfolding group_by
  members-group_by [] d k = sym (append-nil _)
  members-group_by (x ∷ xs) d k =
      members-group_by xs (insert (key x) (members key accept (key x) d ++ x ∷ []) d) k
      ∙ regroup (e.dec (key x) k)
    where
      regroup :
          Dec (key x ≡ k)
          → members key accept k (insert (key x) (members key accept (key x) d ++ x ∷ []) d)
              ++ with_key k xs
            ≡ members key accept k d ++ with_key k (x ∷ xs)
      regroup (yes p) =
          let b : (key x == k) ≡ true = ground arith in
          ap (λ ys. ys ++ with_key k xs)
            (members_same k (key x) (members key accept (key x) d ++ x ∷ []) d b)
          ∙ append_assoc (members key accept (key x) d) (x ∷ []) (with_key k xs)
          ∙ ap (λ j. members key accept j d ++ x ∷ with_key k xs) p
          ∙ rw b refl
      regroup (no q) =
          let b : (key x == k) ≡ false = ground arith in
          ap (λ ys. ys ++ with_key k xs)
            (members_other k (key x) (members key accept (key x) d ++ x ∷ []) d b)
          ∙ rw b refl

  members_of :
      (k : K) (v : List A) (d : Dict K (List A)) → lookup k d ≡ some v → v ≡ members key accept k d
  members_of k v d h = ground arith

  group_by-IsNodup :
      (xs : List A) (d : Dict K (List A))
      → IsNodup (keys d)
      → IsNodup (keys (group_by key accept xs d))
  unfolding group_by
  group_by-IsNodup [] d n = n
  group_by-IsNodup (x ∷ xs) d n =
      group_by-IsNodup xs _ (insert-IsNodup (key x) (members key accept (key x) d ++ x ∷ []) d n)

  -- The objects of the two ids are the only ones of their key on their side, and may be paired.
  pub record IsPair (gs fs : List A) (p : ℤ × ℤ) : Type 0 where
    pub g : A
    pub f : A
    pub id_github : i.id_of g ≡ p.0
    pub id_forgejo : i.id_of f ≡ p.1
    pub same_key : key g ≡ key f
    pub alone_github : with_key (key g) gs ≡ g ∷ []
    pub alone_forgejo : with_key (key g) fs ≡ f ∷ []
    pub accepted : accept g f ≡ true

  passes : (p : A → Bool) (xs : List A) (x : A) → filter p xs ≡ x ∷ [] → p x ≡ true
  passes p [] x h = ground arith
  passes p (y ∷ ys) x h = elim (Bool-cases (p y)) [
    | inl b ↦ ground arith
    | inr b ↦ passes p ys x (ground arith)
  ]

  only_of_key :
      (gs fs : List A) (x y : A) (k : K)
      → with_key k gs ≡ x ∷ []
      → with_key k fs ≡ y ∷ []
      → accept x y ≡ true
      → IsPair gs fs (i.id_of x, i.id_of y)
  only_of_key gs fs x y k p q c =
      let kx : key x ≡ k = ground (arith, passes (λ z. key z == k) gs x p) in
      let ky : key y ≡ k = ground (arith, passes (λ z. key z == k) fs y q) in
      record {
        g = x;
        f = y;
        id_github = refl;
        id_forgejo = refl;
        same_key = kx ∙ sym ky;
        alone_github = ap (λ j. with_key j gs) kx ∙ p;
        alone_forgejo = ap (λ j. with_key j fs) kx ∙ q;
        accepted = c;
      }

  pair_one-IsPair :
      (gs fs xs ys : List A) (k : K) (pairs : Dict ℤ ℤ)
      → xs ≡ with_key k gs
      → ys ≡ with_key k fs
      → All (IsPair gs fs) pairs
      → All (IsPair gs fs) (pair_one key accept xs ys pairs)
  unfolding pair_one
  pair_one-IsPair gs fs (x ∷ []) (y ∷ []) k pairs p q a = elim (Bool-cases (accept x y)) [
    | inl c ↦ rw c (
        All-insert (IsPair gs fs) (i.id_of x) (i.id_of y) pairs
          (only_of_key gs fs x y k (sym p) (sym q) c) a)
    | inr c ↦ rw c a
  ]
  pair_one-IsPair gs fs [] ys k pairs p q a = a
  pair_one-IsPair gs fs (x ∷ []) [] k pairs p q a = a
  pair_one-IsPair gs fs (x ∷ []) (y ∷ y' ∷ ys) k pairs p q a = a
  pair_one-IsPair gs fs (x ∷ x' ∷ xs) ys k pairs p q a = a

  pair_groups-IsPair :
      (gs fs : List A) (rest others : Dict K (List A)) (pairs : Dict ℤ ℤ)
      → All (λ p. p.1 ≡ with_key p.0 gs) rest
      → ((k : K) → members key accept k others ≡ with_key k fs)
      → All (IsPair gs fs) pairs
      → All (IsPair gs fs) (pair_groups key accept rest others pairs)
  unfolding pair_groups
  pair_groups-IsPair gs fs [] others pairs h o a = a
  pair_groups-IsPair gs fs ((k, xs) ∷ rest) others pairs h o a =
      pair_groups-IsPair gs fs rest others _ h.1 o
        (pair_one-IsPair gs fs xs (members key accept k others) k pairs h.0 (o k) a)

  group_by-with_key : (xs : List A) → All (λ p. p.1 ≡ with_key p.0 xs) (group_by key accept xs [])
  unfolding lookup
  group_by-with_key xs =
      All-map (λ p h. members_of p.0 p.1 (group_by key accept xs []) h ∙ members-group_by xs [] p.0)
        (group_by key accept xs [])
        (entries (group_by key accept xs []) (group_by key accept xs []) (group_by-IsNodup xs [] tt)
          (λ k h. refl))

  -- Objects are only paired if they are certain to belong together: of every pair of ids that is found, each
  -- side has an object of that id, both have the same key, no other object of either list has that key, and
  -- the test accepts the two.
  pub unique_pairs-IsPair : (gs fs : List A) → All (IsPair gs fs) (unique_pairs key accept gs fs)
  unfolding unique_pairs lookup
  unique_pairs-IsPair gs fs =
      pair_groups-IsPair gs fs (group_by key accept gs []) (group_by key accept fs []) []
        (group_by-with_key gs) (members-group_by fs []) tt
