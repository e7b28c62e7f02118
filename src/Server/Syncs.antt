-- ===== src/Server/Syncs.antt =====
-- The operations of `SyncRequest` in `dispatch` of services/core-api/src/main.rs.
use resilient_messenger.Prelude.{
  ℕ, ◌-◌, ◌%◌, ◌^◌, List, [], ◌∷◌, ◌++◌, Bytes, be16, be32, be64, length, ltb, ◌==◌, if◌then◌else◌,
  none, some,
}
use resilient_messenger.Protocol.{FrameType, sync_batch}
use resilient_messenger.Api.{invalid_input, ℤ, pos, negsuc, SyncEvent}
use resilient_messenger.Api.Events.{sync_group, sync_global}
use resilient_messenger.Api.Mailbox.{fetch_key_package, fetch_welcomes}
use resilient_messenger.Server.Reader.{Ambient, array, u8, u64, end}
use resilient_messenger.Server.Requests.{
  M, ◌>>=◌, ◌>>◌, return, refuse, read, call, query, authenticated,
}

-- `value as i64`
abbrev pub as_i64 : ℕ → ℤ
as_i64 n = if ltb n (2 ^ 63) then pos n else negsuc (2 ^ 64 - 1 - n)

-- One event of a page: `event_kind.to_be_bytes()`, `ciphertext.len() as u32`.
unfoldable pub put_events : List SyncEvent → Bytes
put_events [] = []
put_events (e ∷ es) =
    be64 e.cursor
    ++ (e.event_id
        ++ (be16 e.event_kind
            ++ (be32 (length e.ciphertext % 2 ^ 32) ++ (e.ciphertext ++ put_events es))))

unfoldable pub put_welcomes : List (Bytes × Bytes × Bytes) → Bytes
put_welcomes [] = []
put_welcomes ((welcome_id, group_id, welcome) ∷ ws) =
    welcome_id ++ (group_id ++ (be32 (length welcome % 2 ^ 32) ++ (welcome ++ put_welcomes ws)))

module _ (w : Ambient) where
  unfoldable pub sync_events : Bytes → ℕ → M Bytes
  sync_events device operation = do
    group_id ← if operation == 0 then (do id ← read (array 16); return (some id)) else return none
    after ← read u64
    limit ← read u8
    read end
    events ← elim group_id [
      | some group ↦ query (sync_group device group (as_i64 after) (pos limit) w.now)
      | none ↦ query (sync_global device (as_i64 after) (pos limit) w.now)
    ]
    return (length events % 256 ∷ put_events events)

  unfoldable pub sync_package : M Bytes
  sync_package = do
    target ← read (array 16)
    read end
    found ← call (fetch_key_package target w.now)
    return (elim found [ none ↦ 0 ∷ [] | some (id, content) ↦ 1 ∷ (id ++ content) ])

  unfoldable pub sync_welcomes : Bytes → M Bytes
  sync_welcomes device = do
    limit ← read u8
    read end
    welcomes ← call (fetch_welcomes device (pos limit) w.now)
    return (length welcomes % 256 ∷ put_welcomes welcomes)

  unfoldable pub sync : M (FrameType × Bytes)
  sync = do
    device ← authenticated w
    operation ← read u8
    found ←
        if operation == 0
        then sync_events device 0
        else if operation == 1
        then sync_events device 1
        else if operation == 2
        then sync_package
        else if operation == 3
        then sync_welcomes device
        else refuse invalid_input
    return (sync_batch, operation ∷ found)
