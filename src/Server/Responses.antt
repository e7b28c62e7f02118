-- ===== src/Server/Responses.antt =====
-- The answers of services/core-api/src/main.rs, and `handle_binary`. What other servers commit while
-- a long poll waits, and whether it can listen at all, are arguments.
use resilient_messenger.Prelude.{
  ℕ, ◌+◌, ◌%◌, ◌^◌, Bool, true, false, not, ◌&&◌, ◌||◌, [], ◌∷◌, ◌++◌, Bytes, codes, get_elem?,
  ◌==◌, if◌then◌else◌, Option, none, some, Result, ok, err,
}
use resilient_messenger.Protocol.{
  protocol_version, FrameType, sync_request, sync_batch, error, TransportFrame,
}
use resilient_messenger.Protocol.ErrorCodes.{ErrorCode, error_number}
use resilient_messenger.Protocol.Codec.{encode_frame, decode_frame}
use resilient_messenger.Api.{
  ApiError, invalid_credentials, expired, replay, token_reuse, conflict, unauthorized,
  cursor_regression, invalid_input, database, pos, Backend,
}
use resilient_messenger.Api.Limits.{check_rate_limit}
use resilient_messenger.Server.Reader.{Ambient}
use resilient_messenger.Server.Handlers.{dispatch}

-- `StatusCode`, by its number
unfoldable pub map_error : ApiError → ℕ × ErrorCode
map_error expired = (401, ErrorCode.replay)
map_error replay = (409, ErrorCode.replay)
map_error token_reuse = (409, ErrorCode.replay)
map_error conflict = (409, ErrorCode.duplicate)
map_error unauthorized = (401, ErrorCode.malformed)
map_error invalid_credentials = (401, ErrorCode.malformed)
map_error cursor_regression = (409, ErrorCode.cursor_regression)
map_error invalid_input = (400, ErrorCode.malformed)
map_error database = (500, ErrorCode.malformed)

pub record Response : Type 0 where
  pub status : ℕ
  pub body : Bytes

-- `unwrap_or_default()`
abbrev pub or_empty : {E : Type 0} → Result E Bytes → Bytes
or_empty (ok b) = b
or_empty (err e) = []

unfoldable pub cbor_response : ℕ → TransportFrame → Response
cbor_response status frame = record { status = status; body = or_empty (encode_frame frame) }

abbrev pub error_frame : Bytes → ErrorCode → TransportFrame
error_frame id code = record {
  version = protocol_version;
  kind = error;
  client_message_id = id;
  ttl_seconds = 0;
  body = error_number code ∷ [];
}

unfoldable pub error_response : ℕ → Bytes → ErrorCode → Response
error_response status id code = cbor_response status (error_frame id code)

-- `Id([0; 16])`
abbrev pub no_id : Bytes
no_id = 0 ∷ 0 ∷ 0 ∷ 0 ∷ 0 ∷ 0 ∷ 0 ∷ 0 ∷ 0 ∷ 0 ∷ 0 ∷ 0 ∷ 0 ∷ 0 ∷ 0 ∷ 0 ∷ []

pub record App : Type 0 where
  pub backend : Backend
  pub requests : ℕ
  pub errors : ℕ

-- `fetch_add(1)` on an AtomicU64
abbrev pub add_one : ℕ → ℕ
add_one n = (n + 1) % 2 ^ 64

abbrev pub with_error : App → App
with_error app = record app { errors = add_one app.errors }

unfoldable pub answer_error : Bytes → ApiError → Response
answer_error id e = let (status, code) = map_error e in error_response status id code

abbrev pub is_err : {A : Type 0} → Result ApiError A → Bool
is_err (ok a) = false
is_err (err e) = true

abbrev pub is_sync_request : FrameType → Bool
is_sync_request sync_request = true
is_sync_request _ = false

abbrev pub is_sync_batch : FrameType → Bool
is_sync_batch sync_batch = true
is_sync_batch _ = false

abbrev pub is_byte : ℕ → Option ℕ → Bool
is_byte n none = false
is_byte n (some x) = x == n

-- A page of events with none in it.
unfoldable pub is_empty_page : TransportFrame → Bool
is_empty_page f =
    is_sync_batch f.kind
    && (is_byte 0 (get_elem? f.body 0) || is_byte 1 (get_elem? f.body 0))
    && is_byte 0 (get_elem? f.body 1)

unfoldable pub rate_scope : TransportFrame → Bytes
rate_scope frame = codes "frame/v1/" ++ frame.client_message_id

-- The end of a request: the answer of `dispatch` with the state that it leaves.
abbrev pub answered : App → Bytes → Result ApiError TransportFrame × Backend → Response × App
answered app id (ok response, db) = (cbor_response 200 response, record app { backend = db })
answered app id (err e, db) = (answer_error id e, with_error (record app { backend = db }))

-- `w` is what the request meets, `later` what its second query meets after the wait.
module _ (w later : Ambient) (listens : Bool) (meanwhile : Backend → Backend) where
  abbrev pub waits :
      Bool
      → TransportFrame
      → Result ApiError TransportFrame × Backend
      → Result ApiError TransportFrame × Backend
  waits long_poll frame (err e, db) = (err e, db)
  waits long_poll frame (ok response, db) =
      if is_empty_page response && long_poll && listens
      then dispatch later (meanwhile db) frame
      else (ok response, db)

  unfoldable pub handle_frame : Bool → App → TransportFrame → Response × App
  handle_frame long_poll app frame =
      let (limited, db) =
        check_rate_limit (rate_scope frame) (pos 120) (pos 60) w.now app.backend in
      let app = record app { backend = db } in
      if is_err limited
      then (error_response 429 frame.client_message_id ErrorCode.rate_limited, with_error app)
      else if long_poll && not (is_sync_request frame.kind)
      then (error_response 400 frame.client_message_id ErrorCode.malformed, with_error app)
      else answered app frame.client_message_id (waits long_poll frame (dispatch w db frame))

  unfoldable pub handle_binary : App → Bytes → Bool → Response × App
  handle_binary app body long_poll =
      let app = record app { requests = add_one app.requests } in
      elim (decode_frame body) [
        | err e ↦ (error_response 400 no_id ErrorCode.malformed, with_error app)
        | ok frame ↦ handle_frame long_poll app frame
      ]
