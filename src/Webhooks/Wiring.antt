-- ===== src/Webhooks/Wiring.antt =====
-- internal/webhooks/wiring.go: provisions the webhooks of both forges.
use forge_sync.Base.{
  String, ◌<>◌, Bool, true, false, not, ◌&&◌, ◌||◌, Option, none, some, List, [], ◌∷◌, ◌++◌, ◌==◌,
  string_eq, nat_eq, if◌then◌else◌, find, sort_by, length,
}
use forge_sync.Base.Int.{ℤ, pos}
use forge_sync.Gitrefs.Policy.{string_le}
use forge_sync.Model.{Repository}
use forge_sync.Effect.{Exec, pure, wrapped, ◌>>=◌, ◌>>◌, fold}

pub record Hook : Type 0 where
  pub id : ℤ
  pub url : String
  pub events : List String
  pub active : Bool

-- The interface of a forge client, over the state `W` of the outside. `list_org_webhooks` gives none
-- where the namespace is no organization.
pub record WireForge (W : Type 0) : Type 0 where
  pub list_org_webhooks : String → Exec W (Option (List Hook))
  pub create_org_webhook : String → Hook → String → Exec W (Unit {0})
  pub update_org_webhook : String → ℤ → Hook → String → Exec W (Unit {0})
  pub list_repo_webhooks : String → String → Exec W (List Hook)
  pub create_repo_webhook : String → String → Hook → String → Exec W (Unit {0})
  pub update_repo_webhook : String → String → ℤ → Hook → String → Exec W (Unit {0})
  pub list_repositories : String → Exec W (List Repository)

abbrev pub github_hook_events : List String
github_hook_events =
    "push" ∷ "repository" ∷ "issues" ∷ "issue_comment" ∷ "pull_request" ∷ "pull_request_review"
    ∷ "pull_request_review_comment" ∷ "release" ∷ []

abbrev pub forgejo_hook_events : List String
forgejo_hook_events =
    "push" ∷ "repository" ∷ "issues" ∷ "issue_comment" ∷ "pull_request" ∷ "release" ∷ []

pub record Report : Type 0 where
  pub created : List String
  pub updated : List String
  pub unchanged : List String
  pub skipped : List String

-- `repo` is empty for a hook of an organization.
pub record Target : Type 0 where
  pub org : String
  pub repo : String

abbrev pub org_target : String → Target
org_target org = record { org = org; repo = "" }

abbrev pub repo_target : String → String → Target
repo_target owner name = record { org = owner; repo = name }

abbrev equal_lists : List String → List String → Bool
equal_lists [] [] = true
equal_lists [] (y ∷ ys) = false
equal_lists (x ∷ xs) [] = false
equal_lists (x ∷ xs) (y ∷ ys) = x == y && equal_lists xs ys

-- The two lists sorted are the same list; lists of different lengths differ at once.
unfoldable pub same_events : List String → List String → Bool
same_events left right =
    length left == length right && equal_lists (sort_by string_le left) (sort_by string_le right)

-- `equal_fold` is `strings.EqualFold`, and depends on Unicode's case folding.
module _ {W : Type 0} (equal_fold : String → String → Bool) (forge : WireForge W)
    (hook_url secret : String) (events : List String) (dry_run : Bool) where
  abbrev pub desired : Hook
  desired = record { id = pos 0; url = hook_url; events = events; active = true }

  -- The first hook at the receiver's URL.
  abbrev pub matched : List Hook → Option Hook
  matched = find (λ h. equal_fold h.url hook_url)

  unfoldable pub create_hook : Target → String → Exec W (Unit {0})
  create_hook t label = wrapped ("create " <> label) (
      if t.repo == ""
      then forge.create_org_webhook t.org desired secret
      else forge.create_repo_webhook t.org t.repo desired secret)

  unfoldable pub update_hook : Target → ℤ → String → Exec W (Unit {0})
  update_hook t id label = wrapped ("update " <> label) (
      if t.repo == ""
      then forge.update_org_webhook t.org id desired secret
      else forge.update_repo_webhook t.org t.repo id desired secret)

  abbrev add_created : Report → String → Report
  add_created r label = record r { created = r.created ++ label ∷ [] }

  abbrev add_updated : Report → String → Report
  add_updated r label = record r { updated = r.updated ++ label ∷ [] }

  unfoldable pub repair_hook : Target → ℤ → Report → String → Exec W Report
  repair_hook t id report label =
      if dry_run
      then pure (add_updated report label)
      else do update_hook t id label; pure (add_updated report label)

  unfoldable pub ensure_hook : Target → List Hook → Report → String → Exec W Report
  ensure_hook t existing report label = elim (matched existing) [
    | none ↦
        if dry_run
        then pure (add_created report label)
        else do create_hook t label; pure (add_created report label)
    | some h ↦
        if not (same_events h.events events) || not h.active
        then repair_hook t h.id report label
        else pure (record report { unchanged = report.unchanged ++ label ∷ [] })
  ]

  unfoldable pub wire_repository : String → Repository → Report → Exec W Report
  wire_repository forge_name r report = do
    hooks ←
        wrapped ("list " <> forge_name <> " webhooks for " <> r.full_name)
          (forge.list_repo_webhooks r.owner r.name)
    ensure_hook (repo_target r.owner r.name) hooks report (forge_name <> ":repo/" <> r.full_name)

  unfoldable pub wire_namespace : String → String → Report → Exec W Report
  wire_namespace forge_name namespace report = do
    org_hooks ←
        wrapped ("list " <> forge_name <> " org webhooks for " <> namespace)
          (forge.list_org_webhooks namespace)
    elim org_hooks [
      | some hooks ↦
          ensure_hook (org_target namespace) hooks report (forge_name <> ":org/" <> namespace)
      | none ↦ do
        repositories ←
            wrapped ("list " <> forge_name <> " repositories for " <> namespace)
              (forge.list_repositories namespace)
        fold (wire_repository forge_name) repositories report
    ]

  unfoldable pub wire_forge : String → List String → Report → Exec W Report
  wire_forge forge_name namespaces report = fold (wire_namespace forge_name) namespaces report

-- The report that an error returns is left out: an error returns the error alone.
module _ {W : Type 0} (equal_fold : String → String → Bool) (github forgejo : WireForge W)
    (namespaces : List String) where
  abbrev skip : String → Report → Report
  skip message r = record r { skipped = r.skipped ++ message ∷ [] }

  unfoldable pub wire : String → String → String → String → Bool → Exec W Report
  wire github_url forgejo_url github_secret forgejo_secret dry_run = do
    first ←
        (if github_url == ""
          then pure (
              skip "github: FORGE_SYNC_GITHUB_WEBHOOK_URL is not configured"
                (record { created = []; updated = []; unchanged = []; skipped = [] }))
          else wire_forge equal_fold github github_url github_secret github_hook_events dry_run
              "github" namespaces
              (record { created = []; updated = []; unchanged = []; skipped = [] }))
    if forgejo_url == ""
        then pure (skip "forgejo: FORGE_SYNC_FORGEJO_WEBHOOK_URL is not configured" first)
        else wire_forge equal_fold forgejo forgejo_url forgejo_secret forgejo_hook_events dry_run
            "forgejo" namespaces first
