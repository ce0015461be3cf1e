-- ===== src/State/Webhooks.antt =====
-- internal/state/store.go: the claims of webhook deliveries.
use forge_sync.Base.{
  ℕ, String, Bool, true, false, ◌&&◌, ◌||◌, List, [], ◌∷◌, ◌++◌, ◌==◌, if◌then◌else◌, any,
  string_eq, nat_eq, Option, none, some, length, filter,
}
use forge_sync.Model.{Time}
use forge_sync.Result.{Error, Result, ok, err}
use forge_sync.Effect.{Exec, pure, raise, wrapped, ◌>>=◌}
use forge_sync.State.Db.{Db, Env, Sys, Delivery, time_now, statement}

-- PRIMARY KEY (forge, delivery_id)
abbrev pub is_delivery : String → String → Delivery → Bool
is_delivery forge id row = row.forge == forge && row.delivery_id == id

-- `CHECK (forge IN ('github', 'forgejo'))`
abbrev pub valid_forge : String → Bool
valid_forge forge = forge == "github" || forge == "forgejo"

-- `INSERT ... ON CONFLICT(forge, delivery_id) DO NOTHING`, and whether a row was inserted.
unfoldable pub insert_delivery : String → String → String → String → Time → Db → Result (Bool × Db)
insert_delivery forge id event hash now db =
    if valid_forge forge
    then if any (is_delivery forge id) db.deliveries
      then ok (false, db)
      else ok (
        true,
        record db {
          deliveries =
              db.deliveries
              ++ (record {
                forge = forge;
                delivery_id = id;
                event_type = event;
                payload_hash = hash;
                received_at = now;
                processed_at = none;
                error = none;
              })
                ∷ [];
        },
      )
    else err "CHECK constraint failed"

unfoldable pub set_processed : String → String → Time → Option Error → List Delivery → List Delivery
set_processed forge id now e [] = []
set_processed forge id now e (row ∷ rows) =
    (if is_delivery forge id row then record row { processed_at = some now; error = e } else row)
    ∷ set_processed forge id now e rows

-- The UPDATE, and the number of rows that it met.
unfoldable pub update_delivery : String → String → Time → Option Error → Db → Result (ℕ × Db)
unfolding set_processed
update_delivery forge id now e db = ok (
  length (filter (is_delivery forge id) db.deliveries),
  record db { deliveries = set_processed forge id now e db.deliveries },
)

module _ {W : Type 0} (env : Env W) where
  -- True if this call is the first to claim the delivery.
  unfoldable pub claim_webhook_delivery : String → String → String → String → Exec (Sys W) Bool
  claim_webhook_delivery forge id event hash = do
    now ← time_now env
    wrapped "claim webhook delivery" (statement env (insert_delivery forge id event hash now))

  unfoldable pub mark_webhook_processed : String → String → Option Error → Exec (Sys W) (Unit {0})
  mark_webhook_processed forge id process_err = do
    now ← time_now env
    count ←
        wrapped "mark webhook processed" (statement env (update_delivery forge id now process_err))
    if count == 1 then pure tt else raise "webhook delivery was not claimed"
