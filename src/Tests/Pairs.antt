-- ===== src/Tests/Pairs.antt =====
-- internal/issues/reconcile.go: two issues of one number and title, and two that share a number.
use forge_sync.Base.{List, [], ◌∷◌, ◌≡◌, refl, All, ◌==◌, string_eq, nat_eq}
use forge_sync.Base.Dict.{insert, lookup}
use forge_sync.Base.Int.{ℤ, pos, int_eq}
use forge_sync.Model.{Issue}
use forge_sync.Matching.{unique_pairs}
use forge_sync.Matching.Pairs.{IsPair, unique_pairs-IsPair}
use forge_sync.Issues.{issue_identified, index_title_pairs}

abbrev issue : ℤ → ℤ → Issue
issue id index = record {
  id = id;
  index = index;
  title = "title";
  body = "";
  state = "open";
  labels = [];
  milestone = "";
  updated_at = 3;
}

abbrev on_github : List Issue
on_github = issue (pos 40) (pos 1) ∷ issue (pos 41) (pos 2) ∷ issue (pos 42) (pos 2) ∷ []

abbrev on_forgejo : List Issue
on_forgejo = issue (pos 51) (pos 2) ∷ issue (pos 50) (pos 1) ∷ []

one_pair : index_title_pairs on_github on_forgejo ≡ (pos 40, pos 50) ∷ []
unfolding index_title_pairs unique_pairs int_eq string_eq nat_eq insert lookup
one_pair = refl

unique_pairs-IsPair_example :
    All
      (IsPair (λ i. i.index) (λ g f. g.title == f.title) on_github on_forgejo)
      (unique_pairs (λ i. i.index) (λ g f. g.title == f.title) on_github on_forgejo)
unique_pairs-IsPair_example =
    unique_pairs-IsPair (λ i. i.index) (λ g f. g.title == f.title) on_github on_forgejo
