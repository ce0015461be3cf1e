-- ===== src/Matching.antt =====
-- What the issue, comment and release reconcilers share: objects by id, the objects that no mapping
-- has consumed, and the pairing of leftovers by a key that is unique on both sides.
pub mod Pairs
use forge_sync.Base.{
  String, ◌<>◌, Bool, not, ◌||◌, Option, none, some, List, [], ◌∷◌, ◌++◌, ◌==◌, Eq, string_eq,
  contains, if◌then◌else◌, filter, find_last,
}
use forge_sync.Base.Dict.{Dict, lookup, insert}
use forge_sync.Base.Int.{ℤ, int_eq, format_int}
use forge_sync.Base.Text.{cut_at}
use forge_sync.Model.{RepositoryMapping}
use forge_sync.Result.{Result, ok, err, ◌>>◌}
use forge_sync.Effect.{Exec, pure}
use forge_sync.Effect.{◌>>◌ as ◌followed_by◌}
use forge_sync.State.Db.{Sys}

-- Objects with the `ID` field of a forge.
pub record Identified (A : Type 0) : Type 0 where
  pub id_of : A → ℤ

-- `consumedGitHub` and `consumedForgejo`
pub record Consumed : Type 0 where
  pub on_github : List ℤ
  pub on_forgejo : List ℤ

abbrev pub consume : ℤ → ℤ → Consumed → Consumed
consume g f c = record { on_github = g ∷ c.on_github; on_forgejo = f ∷ c.on_forgejo }

module _ {A : Type 0} ⦃i : Identified A⦄ where
  -- `byID(all)[id]`: a later object replaces an earlier one of its id.
  abbrev pub by_id : List A → ℤ → Option A
  by_id all id = find_last (λ x. i.id_of x == id) all

  abbrev pub unconsumed : List A → List ℤ → List A
  unconsumed all consumed = filter (λ x. not (contains consumed (i.id_of x))) all

  -- `seen` holds the ids of the objects before.
  unfoldable pub validate_unique :
      (A → Result (Unit {0})) → String → List A → List ℤ → Result (Unit {0})
  validate_unique check duplicate [] seen = ok tt
  validate_unique check duplicate (x ∷ xs) seen = do
    check x
    if contains seen (i.id_of x)
        then err (duplicate <> format_int (i.id_of x))
        else validate_unique check duplicate xs (i.id_of x ∷ seen)

  module _ {K : Type 0} ⦃e : Eq K⦄ (key : A → K) (accept : A → A → Bool) where
    abbrev pub members : K → Dict K (List A) → List A
    members k d = elim (lookup k d) [ none ↦ [] | some xs ↦ xs ]

    -- `m[key(x)] = append(m[key(x)], x)` for each object
    unfoldable pub group_by : List A → Dict K (List A) → Dict K (List A)
    group_by [] d = d
    group_by (x ∷ xs) d = group_by xs (insert (key x) (members (key x) d ++ x ∷ []) d)

    unfoldable pub pair_one : List A → List A → Dict ℤ ℤ → Dict ℤ ℤ
    pair_one (g ∷ []) (f ∷ []) pairs =
        if accept g f then insert (i.id_of g) (i.id_of f) pairs else pairs
    pair_one _ _ pairs = pairs

    unfoldable pub pair_groups : Dict K (List A) → Dict K (List A) → Dict ℤ ℤ → Dict ℤ ℤ
    pair_groups [] others pairs = pairs
    pair_groups ((k, gs) ∷ rest) others pairs =
        pair_groups rest others (pair_one gs (members k others) pairs)

    -- From GitHub ids to Forgejo ids: the pairs whose key occurs once on either side.
    unfoldable pub unique_pairs : List A → List A → Dict ℤ ℤ
    unfolding group_by pair_groups pair_one
    unique_pairs gs fs = pair_groups (group_by gs []) (group_by fs []) []

-- `fmt.Sprintf("github:%d/forgejo:%d", ...)`
abbrev pub object_key : ℤ → ℤ → String
object_key g f = "github:" <> format_int g <> "/forgejo:" <> format_int f

-- A call of a forge: it changes the outside and not the database.
unfoldable pub external : {W A : Type 0} → Exec W A → Exec (Sys W) A
external m s = let (r, w) = m s.world in (r, record s { world = w })

-- The owner and the name of the GitHub side, if the mapping names both sides.
unfoldable pub identity : RepositoryMapping → Result (String × String)
identity r = elim (cut_at b'/' r.github_full_name) [
  | none ↦ err "repository mapping has invalid identity"
  | some (owner, name) ↦
      if owner == "" || name == "" || r.forgejo_owner == "" || r.forgejo_name == ""
      then err "repository mapping has invalid identity"
      else ok (owner, name)
]

-- The body of the loop over a map of pairs. `write` records the pair, given what `byID` holds for the
-- two ids, which are ids of the lists.
module _ {S A : Type 0} (dry_run : Bool) (write : A → A → Exec S (Unit {0})) where
  unfoldable pub record_found : ℤ → ℤ → Option A → Option A → Consumed → Exec S Consumed
  record_found g f none on_forgejo consumed = pure (consume g f consumed)
  record_found g f (some a) none consumed = pure (consume g f consumed)
  record_found g f (some a) (some b) consumed =
      if dry_run
      then pure (consume g f consumed)
      else (write a b followed_by pure (consume g f consumed))

  unfoldable pub record_pair :
      ⦃i : Identified A⦄ → List A → List A → ℤ × ℤ → Consumed → Exec S Consumed
  unfolding record_found
  record_pair github_all forgejo_all (g, f) consumed =
      record_found g f (by_id github_all g) (by_id forgejo_all f) consumed
