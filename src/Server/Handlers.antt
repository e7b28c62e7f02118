-- ===== src/Server/Handlers.antt =====
-- `dispatch` of services/core-api/src/main.rs, one function for each kind of frame.
use resilient_messenger.Prelude.{
  ℕ, zero, suc, List, [], ◌∷◌, ◌++◌, Bytes, ltb, ◌==◌, if◌then◌else◌, none, some, Result, ok, err,
}
use resilient_messenger.Cursor
use resilient_messenger.Cursor.{Cursor, Parser}
use resilient_messenger.Protocol.{
  protocol_version, FrameType, client_hello, server_hello, auth_challenge, auth_response,
  auth_accepted, upload_envelope, sync_request, delivery_receipt_batch, read_receipt_batch,
  relay_directory_request, relay_directory_response, ping, pong, TransportFrame,
}
use resilient_messenger.Api.{ApiError, invalid_input, Backend}
use resilient_messenger.Api.Devices.{register_account_device}
use resilient_messenger.Api.Sessions.{
  SessionTokens, begin_challenge, complete_challenge, rotate_refresh,
}
use resilient_messenger.Api.Events.{record_receipts}
use resilient_messenger.Api.Recovery.{fetch_recovery_package}
use resilient_messenger.Server.Reader.{Ambient, array, u8, u64, remaining_len, end}
use resilient_messenger.Server.Requests.{
  M, ◌>>=◌, ◌>>◌, return, refuse, read, call, query, authenticated,
}
use resilient_messenger.Server.Uploads.{upload}
use resilient_messenger.Server.Syncs.{sync}

abbrev pub answer_frame : Bytes → FrameType × Bytes → TransportFrame
answer_frame id (kind, body) = record {
  version = protocol_version;
  kind = kind;
  client_message_id = id;
  ttl_seconds = 0;
  body = body;
}

abbrev pub finished :
    Bytes
    → Result ApiError ((FrameType × Bytes) × Cursor) × Backend
    → Result ApiError TransportFrame × Backend
finished id (ok (r, d), db) = (ok (answer_frame id r), db)
finished id (err e, db) = (err e, db)

module _ (w : Ambient) where
  unfoldable pub hello : M (FrameType × Bytes)
  hello = do
    account_id ← read (array 32)
    root_public_key ← read (array 32)
    device_id ← read (array 16)
    device_public_key ← read (array 32)
    issued_at ← read u64
    signature ← read (array 64)
    read end
    call (
        register_account_device w.sha256 w.ed account_id root_public_key (record {
          device_id = device_id;
          device_public_key = device_public_key;
          issued_at = issued_at;
          signature = signature;
        }))
    return (server_hello, [])

  -- The challenge is stored before the end of the body is checked.
  unfoldable pub challenge : M (FrameType × Bytes)
  challenge = do
    device_id ← read (array 16)
    begun ← call (begin_challenge w.challenge device_id w.now)
    read end
    return (auth_challenge, begun.challenge_id ++ begun.challenge)

  unfoldable pub answer : M SessionTokens
  answer = do
    challenge_id ← read (array 16)
    signature ← read (array 64)
    call (complete_challenge w.sha256 w.ed w.tokens w.family challenge_id signature w.now)

  unfoldable pub refresh : M SessionTokens
  refresh = do
    device_id ← read (array 16)
    refresh_token ← read (array 32)
    signature ← read (array 64)
    call (rotate_refresh w.sha256 w.ed w.tokens device_id refresh_token signature w.now)

  unfoldable pub response : M (FrameType × Bytes)
  response = do
    left ← read remaining_len
    tokens ← if left == 80 then answer else if left == 112 then refresh else refuse invalid_input
    read end
    return (auth_accepted, tokens.access_token ++ tokens.refresh_token)

  unfoldable pub directory : M (FrameType × Bytes)
  directory = do
    operation ← read u8
    if operation == 1 then return tt else refuse invalid_input
    recovery_identifier ← read (array 32)
    read end
    found ← query (λ db. ok (fetch_recovery_package recovery_identifier db))
    return
        (relay_directory_response, operation ∷ elim found [ none ↦ 0 ∷ [] | some blob ↦ 1 ∷ blob ])

  unfoldable pub read_ids : ℕ → M (List Bytes)
  read_ids zero = return []
  read_ids (suc n) = do id ← read (array 16); more ← read_ids n; return (id ∷ more)

  unfoldable pub receipts : FrameType → ℕ → M (FrameType × Bytes)
  receipts kind receipt_type = do
    device ← authenticated w
    count ← read u8
    if ltb 50 count then refuse invalid_input else return tt
    event_ids ← read_ids count
    read end
    call (record_receipts device event_ids receipt_type)
    return (kind, [])

  unfoldable pub handle : TransportFrame → M (FrameType × Bytes)
  handle frame = elim frame.kind [
    | client_hello ↦ hello
    | auth_challenge ↦ challenge
    | auth_response ↦ response
    | upload_envelope ↦ upload w frame.client_message_id
    | sync_request ↦ sync w
    | relay_directory_request ↦ directory
    | delivery_receipt_batch ↦ receipts delivery_receipt_batch 1
    | read_receipt_batch ↦ receipts read_receipt_batch 2
    | ping ↦ return (pong, frame.body)
    | _ ↦ refuse invalid_input
  ]

  unfoldable pub dispatch : Backend → TransportFrame → Result ApiError TransportFrame × Backend
  dispatch db frame = finished frame.client_message_id (handle frame db (Cursor.new frame.body))
