-- ===== src/Tests/Requests.antt =====
-- internal/webhooks/server.go on one signed delivery.
use forge_sync.Base.{
  ℕ, suc, ◌≤◌, String, false, none, [], ◌∷◌, ◌≡◌, refl, ◌⊎◌, ◌==◌, if◌then◌else◌, string_eq, nat_eq,
}
use forge_sync.Base.Text.{cut_prefix, decode_hex}
use forge_sync.Result.{ok, err}
use forge_sync.Effect.{Exec, ◌>>=◌}
use forge_sync.State.Db.{Env, Sys, time_now, statement}
use forge_sync.State.Webhooks.{
  claim_webhook_delivery, mark_webhook_processed, insert_delivery, update_delivery, set_processed,
}
use forge_sync.Webhooks.Server.{
  Bytes, Request, Crypto, Server, allowed_event, read_limited, headers, equal_bytes, forge_of_path,
  valid_hex_signature, valid_signature, secret_for, check_body, check_request, process, claim,
  serve_http,
}
use forge_sync.Webhooks.Server.Laws.{IsAuthentic, serve_http-IsAuthentic}

abbrev pub env : Env ℕ
env = record { sqlite = λ w. (none, w); now = λ w. (suc w, suc w); format_time = λ t. "" }

-- A stand-in for the digest: the body itself.
abbrev pub crypto : Crypto
crypto = record { hmac_sha256 = λ secret body. body; payload_sha256 = λ body. "digest" }

abbrev accept : String → String → Bytes → Exec (Sys ℕ) (Unit {0})
accept forge event body s = (ok tt, s)

abbrev pub fail : String → String → Bytes → Exec (Sys ℕ) (Unit {0})
fail forge event body s = (err "failed", s)

abbrev pub server : Server ℕ
server = record {
  process_webhook = accept;
  github_secret = "k";
  forgejo_secret = "l";
  max_body = 4;
}

abbrev pub header : String → String
header name =
    if name == "X-GitHub-Delivery"
    then "d1"
    else if name == "X-GitHub-Event"
    then "push"
    else if name == "X-Hub-Signature-256"
    then "sha256=0aff"
    else ""

abbrev pub request : Request
request = record {
  method = "POST";
  path = "/webhooks/github";
  header = header;
  body = 10 ∷ 255 ∷ [];
  body_fails = false;
}

abbrev pub start : Sys ℕ
start = record {
  db = record {
    repositories = [];
    issues = [];
    pull_requests = [];
    comments = [];
    releases = [];
    deliveries = [];
    conflicts = [];
    conflict_seq = 0;
    runs = [];
    run_seq = 0;
  };
  world = 0;
}

first_answer : (serve_http crypto env server request start).0 ≡ 202
unfolding serve_http check_request check_body string_eq forge_of_path read_limited headers
    allowed_event valid_signature valid_hex_signature cut_prefix nat_eq decode_hex equal_bytes claim
    claim_webhook_delivery ◌>>=◌ time_now statement insert_delivery process mark_webhook_processed
    set_processed update_delivery secret_for
first_answer = refl

serve_http-IsAuthentic_example :
    ((n : ℕ) × (serve_http crypto env server request start ≡ (n, start)) × (400 ≤ n) × (n ≤ 413))
    ⊎ IsAuthentic crypto env server request
serve_http-IsAuthentic_example = serve_http-IsAuthentic crypto env server request start
