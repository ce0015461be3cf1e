-- ===== src/Webhooks/Server.antt =====
-- internal/webhooks/server.go: one request, from its method to the answer.
pub mod Laws
use Prim.Native.String.{len}
use forge_sync.Base.{
  ℕ, zero, suc, ◌+◌, String, Bool, true, false, not, ◌&&◌, ◌||◌, Option, none, some, List, [], ◌∷◌,
  ◌==◌, string_eq, nat_eq, ltb, if◌then◌else◌, contains, length,
}
use forge_sync.Base.Text.{cut_prefix, decode_hex}
use forge_sync.Result.{Error, Result, ok, err}
use forge_sync.Effect.{Exec}
use forge_sync.State.Db.{Env, Sys}
use forge_sync.State.Webhooks.{claim_webhook_delivery, mark_webhook_processed}

abbrev pub Bytes : Type 0
Bytes = List ℕ

-- `body` are the bytes that the request's reader gives before it ends, or before it fails if
-- `body_fails`. `header` is `Header.Get`, which gives "" for a missing header.
pub record Request : Type 0 where
  pub method : String
  pub path : String
  pub header : String → String
  pub body : Bytes
  pub body_fails : Bool

-- The keyed digest `crypto/hmac` with `crypto/sha256`, and the digest of a payload as hexadecimal.
pub record Crypto : Type 0 where
  pub hmac_sha256 : String → Bytes → Bytes
  pub payload_sha256 : Bytes → String

pub record Server (W : Type 0) : Type 0 where
  pub process_webhook : String → String → Bytes → Exec (Sys W) (Unit {0})
  pub github_secret : String
  pub forgejo_secret : String
  pub max_body : ℕ

abbrev pub github_events : List String
github_events =
    "ping" ∷ "repository" ∷ "push" ∷ "issues" ∷ "issue_comment" ∷ "pull_request"
    ∷ "pull_request_review" ∷ "pull_request_review_comment" ∷ "release" ∷ []

abbrev pub forgejo_events : List String
forgejo_events =
    "ping" ∷ "repository" ∷ "push" ∷ "issues" ∷ "issue" ∷ "issue_comment" ∷ "pull_request"
    ∷ "release" ∷ "create" ∷ []

-- `allowedEvents[forge][event]`
unfoldable pub allowed_event : String → String → Bool
allowed_event forge event =
    if forge == "github"
    then contains github_events event
    else if forge == "forgejo"
    then contains forgejo_events event
    else false

-- `io.ReadAll(io.LimitReader(body, limit))`
unfoldable pub read_limited : ℕ → Bool → Bytes → Option Bytes
read_limited zero fails body = some []
read_limited (suc limit) fails [] = if fails then none else some []
read_limited (suc limit) fails (b ∷ body) = elim (read_limited limit fails body) [
  | none ↦ none
  | some rest ↦ some (b ∷ rest)
]

-- `if value == "" { value = other }`
abbrev or_else : String → String → String
or_else value other = if value == "" then other else value

-- The delivery id, the event and the signature of a request.
unfoldable pub headers : (String → String) → String → String × String × String
headers header forge =
    if forge == "github"
    then (header "X-GitHub-Delivery", header "X-GitHub-Event", header "X-Hub-Signature-256")
    else (
      or_else (header "X-Forgejo-Delivery") (header "X-Gitea-Delivery"),
      or_else (header "X-Forgejo-Event") (header "X-Gitea-Event"),
      or_else (header "X-Forgejo-Signature") (header "X-Gitea-Signature"),
    )

-- `hmac.Equal`: the same bytes.
unfoldable pub equal_bytes : Bytes → Bytes → Bool
equal_bytes [] [] = true
equal_bytes [] (y ∷ ys) = false
equal_bytes (x ∷ xs) [] = false
equal_bytes (x ∷ xs) (y ∷ ys) = x == y && equal_bytes xs ys

-- The forge of a path, "" for any other path.
unfoldable pub forge_of_path : String → String
forge_of_path path =
    if path == "/webhooks/github"
    then "github"
    else if path == "/webhooks/forgejo"
    then "forgejo"
    else ""

-- What ServeHTTP decides from the request alone: a status that refuses it, or the delivery.
pub data Verdict : Type 0 where
  refused : ℕ → Verdict
  accepted : String → String → String → Bytes → Verdict

module _ (crypto : Crypto) where
  unfoldable pub valid_hex_signature : Option String → String → Bytes → Bool
  valid_hex_signature none secret body = false
  valid_hex_signature (some signature) secret body = elim (decode_hex signature) [
    | none ↦ false
    | some provided ↦ equal_bytes provided (crypto.hmac_sha256 secret body)
  ]

  unfoldable pub valid_signature : String → String → String → Bytes → Bool
  valid_signature forge signature secret body =
      if forge == "github"
      then valid_hex_signature (cut_prefix "sha256=" signature) secret body
      else valid_hex_signature (some signature) secret body

  module _ {W : Type 0} (env : Env W) (server : Server W) where
    unfoldable pub secret_for : String → String
    secret_for forge = if forge == "forgejo" then server.forgejo_secret else server.github_secret

    unfoldable pub check_body : Request → String → Option Bytes → Verdict
    check_body request forge none = refused 400
    check_body request forge (some body) =
        let (delivery, event, signature) = headers request.header forge in
        if ltb server.max_body (length body)
        then refused 413
        else if delivery == "" || ltb 200 (len delivery) || event == "" || ltb 100 (len event)
        then refused 400
        else if not (allowed_event forge event)
        then refused 400
        else if not (valid_signature forge signature (secret_for forge) body)
        then refused 401
        else accepted forge delivery event body

    unfoldable pub check_request : Request → Verdict
    check_request request =
        if not (request.method == "POST")
        then refused 405
        else if forge_of_path request.path == ""
        then refused 404
        else check_body request (forge_of_path request.path)
            (read_limited (server.max_body + 1) request.body_fails request.body)

    abbrev error_of : Result (Unit {0}) → Option Error
    error_of (ok _) = none
    error_of (err e) = some e

    abbrev status_of : Result (Unit {0}) → Result (Unit {0}) → ℕ
    status_of (ok _) (ok _) = 202
    status_of _ _ = 500

    -- ProcessWebhook and MarkWebhookProcessed, of a delivery that this request has claimed.
    unfoldable pub process : String → String → String → Bytes → Sys W → ℕ × Sys W
    process forge delivery event body s =
        let (done, s₁) = server.process_webhook forge event body s in
        let (marked, s₂) = mark_webhook_processed env forge delivery (error_of done) s₁ in
        (status_of done marked, s₂)

    unfoldable pub claim : String → String → String → Bytes → Sys W → ℕ × Sys W
    claim forge delivery event body s =
        let (claimed, s₁) =
          claim_webhook_delivery env forge delivery event (crypto.payload_sha256 body) s in
        elim claimed [
          | err e ↦ (500, s₁)
          | ok fresh ↦ if fresh then process forge delivery event body s₁ else (202, s₁)
        ]

    abbrev pub answer : Verdict → Sys W → ℕ × Sys W
    answer (refused status) s = (status, s)
    answer (accepted forge delivery event body) s = claim forge delivery event body s

    -- The status of the answer and the state after it.
    unfoldable pub serve_http : Request → Sys W → ℕ × Sys W
    serve_http request s = answer (check_request request) s
