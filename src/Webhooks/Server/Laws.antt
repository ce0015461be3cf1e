-- ===== src/Webhooks/Server/Laws.antt =====
-- Only authentic requests are processed, and each delivery once.
use forge_sync.Base.{
  ℕ, zero, suc, ◌+◌, ◌≤◌, String, Bool, true, false, Option, none, some, [], ◌∷◌, ◌≡◌, ◌≢◌, refl,
  ◌∙◌, ap, ◌⊎◌, inl, inr, arith, string_eq, nat_eq, length, any,
}
use forge_sync.Model.{Time}
use forge_sync.Result.{Error, Result, ok, err}
use forge_sync.Effect.{Exec, ◌>>=◌}
use forge_sync.Effect.Within.{Within}
use forge_sync.State.Db.{Db, Env, Sys, time_now}
use forge_sync.State.Webhooks.{is_delivery, insert_delivery, claim_webhook_delivery}
use forge_sync.State.Lookup.{any-append_here, statement-ran}
use forge_sync.State.Rules.{OnDb, Within-mark_webhook_processed}
use forge_sync.State.Extends.{Extends, Extends-trans, Extends-rules, update_delivery-Extends}
use forge_sync.Webhooks.Server.{
  Bytes, Request, Crypto, Server, Verdict, refused, accepted, headers, valid_signature, secret_for,
  allowed_event, forge_of_path, read_limited, check_body, check_request, process, claim, answer,
  serve_http,
}

insert_delivery-claimed :
    (forge id event hash : String) (t : Time) (db db' : Db) (b : Bool)
    → insert_delivery forge id event hash t db ≡ ok (b, db')
    → any (is_delivery forge id) db'.deliveries ≡ true
unfolding insert_delivery
insert_delivery-claimed forge id event hash t db db' b h = ground (
  arith,
  any-append_here (is_delivery forge id) db.deliveries
      (record {
        forge = forge;
        delivery_id = id;
        event_type = event;
        payload_hash = hash;
        received_at = t;
        processed_at = none;
        error = none;
      })
      (ground arith),
)

insert_delivery-again :
    (forge id event hash : String) (t : Time) (db db' : Db) (b : Bool)
    → any (is_delivery forge id) db.deliveries ≡ true
    → insert_delivery forge id event hash t db ≡ ok (b, db')
    → b ≡ false
unfolding insert_delivery
insert_delivery-again forge id event hash t db db' b c h = ground arith

module _ {W : Type 0} (env : Env W) where
  module _ (forge id event hash : String) (s : Sys W) where
    pub claim_claimed :
        (b : Bool)
        → (claim_webhook_delivery env forge id event hash s).0 ≡ ok b
        → any
            (is_delivery forge id)
            (claim_webhook_delivery env forge id event hash s).1.db.deliveries
          ≡ true
    unfolding claim_webhook_delivery time_now ◌>>=◌
    claim_claimed b h = insert_delivery-claimed forge id event hash (env.now s.world).0 s.db _ b (
        statement-ran env (record s { world = (env.now s.world).1 })
          (insert_delivery forge id event hash (env.now s.world).0) b (ground arith))

    pub claim_again :
        (b : Bool)
        → any (is_delivery forge id) s.db.deliveries ≡ true
        → (claim_webhook_delivery env forge id event hash s).0 ≡ ok b
        → b ≡ false
    unfolding claim_webhook_delivery time_now ◌>>=◌
    claim_again b c h = insert_delivery-again forge id event hash (env.now s.world).0 s.db _ b c (
        statement-ran env (record s { world = (env.now s.world).1 })
          (insert_delivery forge id event hash (env.now s.world).0) b (ground arith))

option-cases : {A : Type 0} (o : Option A) → (o ≡ none) ⊎ ((a : A) × (o ≡ some a))
option-cases none = inl refl
option-cases (some a) = inr (a, refl)

read_limited-whole :
    (limit : ℕ) (fails : Bool) (body read : Bytes)
    → read_limited limit fails body ≡ some read
    → suc (length read) ≤ limit
    → (read ≡ body) × (fails ≡ false)
unfolding read_limited
read_limited-whole zero fails body read h l = absurd (ground arith)
read_limited-whole (suc limit) fails [] read h l = (ground arith, ground arith)
read_limited-whole (suc limit) fails (b ∷ body) read h l =
    elim (option-cases (read_limited limit fails body)) [
      | inl e ↦ absurd (ground arith)
      | inr (rest, e) ↦
          let q : read ≡ b ∷ rest = ground arith in
          let (w, c) = read_limited-whole limit fails body rest e (ground arith) in
          (q ∙ ap (λ r. b ∷ r) w, c)
    ]

claimed-cases : (r : Result Bool) → ((r ≡ ok true) ⊎ (r ≡ ok false)) ⊎ ((e : Error) × (r ≡ err e))
claimed-cases (ok true) = inl (inl refl)
claimed-cases (ok false) = inl (inr refl)
claimed-cases (err e) = inr (e, refl)

-- The server with another processor.
abbrev pub with_processor :
    {W : Type 0} → (String → String → Bytes → Exec (Sys W) (Unit {0})) → Server W → Server W
with_processor p server = record server { process_webhook = p }

module _ {W : Type 0} (crypto : Crypto) (env : Env W) (server : Server W) where
  abbrev Keeps : Type 0
  Keeps =
      (forge event : String) (body : Bytes)
      → Within (OnDb Extends) (server.process_webhook forge event body)

  process-Extends :
      Keeps
      → (forge id event : String) (body : Bytes) (s : Sys W)
      → OnDb Extends s (process crypto env server forge id event body s).1
  unfolding process
  process-Extends keeps forge id event body s =
      Extends-trans _ _ _ ((keeps forge event body).at s) (
        (Within-mark_webhook_processed Extends-rules env forge id _
            (λ t x. update_delivery-Extends forge id t x)).at
          (server.process_webhook forge event body s).1)

  claim-202 :
      Keeps
      → (forge id event : String) (body : Bytes) (s : Sys W)
      → (claim crypto env server forge id event body s).0 ≡ 202
      → any (is_delivery forge id) (claim crypto env server forge id event body s).1.db.deliveries
        ≡ true
  unfolding claim
  claim-202 keeps forge id event body s h =
      elim (claimed-cases
        (claim_webhook_delivery env forge id event (crypto.payload_sha256 body) s).0) [
          | inl (inl e) ↦
              rw (e, claim)
                ((process-Extends keeps forge id event body
                    (claim_webhook_delivery env forge id event (crypto.payload_sha256 body)
                      s).1).deliveries
                  forge id (claim_claimed env forge id event (crypto.payload_sha256 body) s true e))
          | inl (inr e) ↦
              rw (e, claim)
                (claim_claimed env forge id event (crypto.payload_sha256 body) s false e)
          | inr (x, e) ↦ absurd (ground arith)
        ]

  claim-twice :
      (p : String → String → Bytes → Exec (Sys W) (Unit {0})) (forge id event : String)
      (body : Bytes) (t : Sys W)
      → any (is_delivery forge id) t.db.deliveries ≡ true
      → claim crypto env server forge id event body t
        ≡ claim crypto env (with_processor p server) forge id event body t
  unfolding claim
  claim-twice p forge id event body t h =
      elim (claimed-cases
        (claim_webhook_delivery env forge id event (crypto.payload_sha256 body) t).0) [
          | inl (inl e) ↦
              absurd
                (not_true (claim_again env forge id event (crypto.payload_sha256 body) t true h e))
          | inl (inr e) ↦ rw (e, claim) refl
          | inr (x, e) ↦ rw (e, claim) refl
        ]
    where
      not_true : true ≡ false → ⊥
      not_true c = ground arith

  answer-once :
      Keeps
      → (p : String → String → Bytes → Exec (Sys W) (Unit {0})) (v : Verdict) (s t : Sys W)
      → (answer crypto env server v s).0 ≡ 202
      → OnDb Extends (answer crypto env server v s).1 t
      → answer crypto env server v t ≡ answer crypto env (with_processor p server) v t
  answer-once keeps p (refused status) s t h x = refl
  answer-once keeps p (accepted forge id event body) s t h x =
      claim-twice p forge id event body t
        (x.deliveries forge id (claim-202 keeps forge id event body s h))

  -- A request that was answered with 202 is processed at most once. If the processor keeps what the
  -- database records, then in every state that keeps what the first answer recorded, serving the
  -- request again gives the status and the state that the server with any other processor gives: the
  -- processor is not run.
  pub serve_http-once :
      Keeps
      → (p : String → String → Bytes → Exec (Sys W) (Unit {0})) (request : Request) (s t : Sys W)
      → (serve_http crypto env server request s).0 ≡ 202
      → OnDb Extends (serve_http crypto env server request s).1 t
      → serve_http crypto env server request t
        ≡ serve_http crypto env (with_processor p server) request t
  unfolding serve_http check_request check_body secret_for
  serve_http-once keeps p request s t h x =
      answer-once keeps p (check_request crypto env server request) s t h x

  -- What the server asks of a request before it touches the database.
  pub record IsAuthentic (request : Request) : Type 0 where
    pub method : request.method ≡ "POST"
    pub path : forge_of_path request.path ≢ ""
    pub complete : request.body_fails ≡ false
    pub short : length request.body ≤ server.max_body
    pub event :
        allowed_event
          (forge_of_path request.path)
          (headers request.header (forge_of_path request.path)).1
        ≡ true
    pub signature :
        valid_signature crypto
          (forge_of_path request.path)
          (headers request.header (forge_of_path request.path)).2
          (secret_for crypto env server (forge_of_path request.path))
          request.body
        ≡ true

  check_request-accepted :
      (request : Request) (forge id event : String) (body : Bytes)
      → check_request crypto env server request ≡ accepted forge id event body
      → (read_limited (server.max_body + 1) request.body_fails request.body ≡ some body)
        × (length body ≤ server.max_body)
  unfolding check_request check_body
  check_request-accepted request forge id event body h = (ground arith, ground arith)

  check_request-IsAuthentic :
      (request : Request) (forge id event : String) (body : Bytes)
      → check_request crypto env server request ≡ accepted forge id event body
      → IsAuthentic request
  unfolding check_request check_body
  check_request-IsAuthentic request forge id event body h =
      let (r, l) = check_request-accepted request forge id event body h in
      let (q, c) =
        read_limited-whole (server.max_body + 1) request.body_fails request.body body r
          (omega arith) in
      record {
        method = ground arith;
        path = ground arith;
        complete = c;
        short = rw (← q) l;
        event = ground arith;
        signature = rw (← q) (ground arith);
      }

  refused-4xx :
      (request : Request) (n : ℕ)
      → check_request crypto env server request ≡ refused n
      → (400 ≤ n) × (n ≤ 413)
  unfolding check_request check_body
  refused-4xx request n h = ground arith

  serve_verdict :
      (request : Request) (s : Sys W) (v : Verdict)
      → check_request crypto env server request ≡ v
      → ((n : ℕ) × (answer crypto env server v s ≡ (n, s)) × (400 ≤ n) × (n ≤ 413))
        ⊎ IsAuthentic request
  serve_verdict request s (refused n) h =
      let (a, b) = refused-4xx request n h in inl (n, refl, a, b)
  serve_verdict request s (accepted forge id event body) h =
      inr (check_request-IsAuthentic request forge id event body h)

  -- Each request is either answered with a status from 400 to 413 and changes neither the database
  -- nor the outside, or it is authentic: a POST to the path of a forge, with an event that the forge
  -- may send, whose whole body was read, is at most `max_body` bytes long and has the signature that
  -- the secret of the forge gives.
  pub serve_http-IsAuthentic :
      (request : Request) (s : Sys W)
      → ((n : ℕ) × (serve_http crypto env server request s ≡ (n, s)) × (400 ≤ n) × (n ≤ 413))
        ⊎ IsAuthentic request
  unfolding serve_http
  serve_http-IsAuthentic request s =
      serve_verdict request s (check_request crypto env server request) refl
