-- ===== src/Server/Guards.antt =====
-- What stands in front of the operations in services/core-api/src/main.rs: the decoding of the frame,
-- the rate limit and the authentication.
use resilient_messenger.Prelude.{
  ◌≤◌, ◌<◌, ◌≡◌, ◌≢◌, refl, ap, ◌⊎◌, inl, inr, Bool, true, false, not, if◌then◌else◌, ◌&&◌, List,
  Bytes, length, take, ltb, Result, ok, err, arith, Bool-cases, Result-cases,
}
use resilient_messenger.Cursor
use resilient_messenger.Core.Sql.{find_where}
use resilient_messenger.Protocol.{
  Error, FrameType, upload_envelope, sync_request, delivery_receipt_batch, read_receipt_batch,
  TransportFrame,
}
use resilient_messenger.Protocol.ErrorCodes.{ErrorCode}
use resilient_messenger.Protocol.Codec.{decode_frame}
use resilient_messenger.Api.{ApiError, invalid_input, pos, CounterRow, Backend}
use resilient_messenger.Api.Sessions.{authenticate_access}
use resilient_messenger.Api.Limits.{is_scope, check_rate_limit}
use resilient_messenger.Api.Limits.Windows.{IsOver, check_first}
use resilient_messenger.Server.Reader.{Ambient, array}
use resilient_messenger.Server.Requests
use resilient_messenger.Server.Requests.{authenticated, read, query}
use resilient_messenger.Server.Uploads.{upload}
use resilient_messenger.Server.Syncs.{sync}
use resilient_messenger.Server.Handlers.{receipts, handle, dispatch}
use resilient_messenger.Server.Responses.{
  map_error, Response, cbor_response, error_response, no_id, App, add_one, answer_error, is_err,
  is_sync_request, rate_scope, with_error, answered, waits, handle_frame, handle_binary,
}

-- The requests that carry an access token in front.
abbrev pub IsPrivate : FrameType → Type 0
IsPrivate k =
    (k ≡ upload_envelope)
    ⊎ (k ≡ sync_request)
    ⊎ (k ≡ delivery_receipt_batch)
    ⊎ (k ≡ read_receipt_batch)

authenticated_refused :
    (w : Ambient) (db : Backend) (b : Bytes) (e : ApiError)
    → authenticate_access w.sha256 (take 32 b) w.now db ≡ err e
    → (x : ApiError) × (authenticated w db (Cursor.new b) ≡ (err x, db))
unfolding authenticated Requests.◌>>=◌ read query array Cursor.take
authenticated_refused w db b e h = elim (Bool-cases (ltb (length b) 32)) [
  | inl short ↦ (invalid_input, rw short refl)
  | inr long ↦ (e, rw (long, h) refl)
]

handle_refused :
    (w : Ambient) (db : Backend) (frame : TransportFrame) (x : ApiError)
    → IsPrivate frame.kind
    → authenticated w db (Cursor.new frame.body) ≡ (err x, db)
    → handle w frame db (Cursor.new frame.body) ≡ (err x, db)
unfolding handle upload sync receipts Requests.◌>>=◌
handle_refused w db frame x (inl k) e = rw (k, handle) (rw e refl)
handle_refused w db frame x (inr (inl k)) e = rw (k, handle) (rw e refl)
handle_refused w db frame x (inr (inr (inl k))) e = rw (k, handle) (rw e refl)
handle_refused w db frame x (inr (inr (inr k))) e = rw (k, handle) (rw e refl)

-- An upload, a synchronisation or a batch of receipts whose first 32 bytes are no access token that
-- authenticates a device is answered with an error and changes nothing, whatever follows the token.
pub dispatch_unauthenticated :
    (w : Ambient) (db : Backend) (frame : TransportFrame) (e : ApiError)
    → IsPrivate frame.kind
    → authenticate_access w.sha256 (take 32 frame.body) w.now db ≡ err e
    → (x : ApiError) × (dispatch w db frame ≡ (err x, db))
unfolding dispatch
dispatch_unauthenticated w db frame e private h =
    let (x, refused) = authenticated_refused w db frame.body e h in
    (x, rw (handle_refused w db frame x private refused) refl)

map_error-ne-ok : (e : ApiError) → (map_error e).0 ≢ 200
unfolding map_error
map_error-ne-ok ApiError.expired = λ k. absurd (omega (arith, k))
map_error-ne-ok _ = λ k. absurd (omega (arith, k))

-- A request is counted, and an error exactly if its status is not 200.
abbrev pub IsCounted : App → Response × App → Type 0
IsCounted app (r, app') =
    (app'.requests ≡ add_one app.requests)
    × ((r.status ≡ 200) × (app'.errors ≡ app.errors)
        ⊎ (r.status ≢ 200) × (app'.errors ≡ add_one app.errors))

module _ (w later : Ambient) (listens : Bool) (meanwhile : Backend → Backend) where
  answered_counts :
      (app counted : App) (id : Bytes) (r : Result ApiError TransportFrame × Backend)
      → counted.requests ≡ add_one app.requests
      → counted.errors ≡ app.errors
      → IsCounted app (answered counted id r)
  unfolding answer_error error_response cbor_response
  answered_counts app counted id (ok f, db) req errs = (req, inl (refl, errs))
  answered_counts app counted id (err e, db) req errs =
      (req, inr (map_error-ne-ok e, ap add_one errs))

  handle_frame_counts :
      (long_poll : Bool) (app counted : App) (frame : TransportFrame)
      → counted.requests ≡ add_one app.requests
      → counted.errors ≡ app.errors
      → IsCounted app (handle_frame w later listens meanwhile long_poll counted frame)
  unfolding handle_frame error_response cbor_response
  handle_frame_counts long_poll app counted frame req errs =
      let limited = check_rate_limit (rate_scope frame) (pos 120) (pos 60) w.now counted.backend in
      elim (Bool-cases (is_err limited.0)) [
        | inl over ↦ rw over (req, inr ((λ k. absurd (omega (arith, k))), ap add_one errs))
        | inr within ↦
            rw within (elim (Bool-cases (long_poll && not (is_sync_request frame.kind))) [
              | inl other ↦ rw other (req, inr ((λ k. absurd (omega (arith, k))), ap add_one errs))
              | inr fine ↦ rw fine (
                  answered_counts app (record counted { backend = limited.1 })
                    frame.client_message_id _ req errs)
            ])
      ]

  -- Whatever comes, also while it waits, a request is counted once, and as an error exactly if its
  -- status is not 200. Whatever the decoder refuses, a frame of a foreign version included, is
  -- answered with the status 400 and the error for a malformed frame, and leaves the backend as it
  -- is.
  pub handle_binary_counts :
      (app : App) (body : Bytes) (long_poll : Bool)
      → IsCounted app (handle_binary w later listens meanwhile app body long_poll)
        × ((e : Error)
            → decode_frame body ≡ err e
            → ((handle_binary w later listens meanwhile app body long_poll).0
                ≡ error_response 400 no_id ErrorCode.malformed)
              × ((handle_binary w later listens meanwhile app body long_poll).1.backend
                  ≡ app.backend))
  unfolding handle_binary error_response cbor_response
  handle_binary_counts app body long_poll = (
    elim (Result-cases (decode_frame body)) [
      | inl (frame, e) ↦
          rw (e, handle_binary)
            (handle_frame_counts long_poll app (record app { requests = add_one app.requests })
              frame refl refl)
      | inr (x, e) ↦ rw (e, handle_binary) (refl, inr ((λ k. absurd (omega (arith, k))), refl))
    ],
    λ x e. rw (e, handle_binary) (refl, refl),
  )

  not_waiting :
      (frame : TransportFrame) (r : Result ApiError TransportFrame × Backend)
      → waits w later listens meanwhile false frame r ≡ r
  not_waiting frame (ok f, db) = ground arith
  not_waiting frame (err e, db) = refl

  -- The limit is kept for each identifier of a request, which the client chooses: a request with an
  -- identifier of 16 bytes of which no window is open, as a new one, is never limited. With only the
  -- counters of the backend changed, it is dispatched and answered, after the wait if it is the long
  -- poll of a `SyncRequest`; a long poll of another type is refused as malformed.
  pub handle_frame_unlimited :
      (app : App) (frame : TransportFrame)
      → length frame.client_message_id ≡ 16
      → IsOver 60 w.now (find_where (is_scope (rate_scope frame)) app.backend.counters)
      → (counters : List CounterRow) × (let db = record app.backend { counters = counters } in
          let counted = record app { backend = db } in
          let id = frame.client_message_id in
          (handle_frame w later listens meanwhile false app frame
            ≡ answered counted id (dispatch w db frame))
          × (handle_frame w later listens meanwhile true app frame ≡ (
              if is_sync_request frame.kind
              then answered counted id
                  (waits w later listens meanwhile true frame (dispatch w db frame))
              else (error_response 400 id ErrorCode.malformed, with_error counted))))
  unfolding handle_frame
  handle_frame_unlimited app frame width over =
      let id = frame.client_message_id in
      let named : (0 < length (rate_scope frame)) × (length (rate_scope frame) ≤ 96) =
        unfold rate_scope in (omega (arith, width), omega (arith, width)) in
      let (db, c, passes, _, _, _, same) =
        check_first (rate_scope frame) 120 60 named (omega arith, omega arith) w.now app.backend
          over in
      let direct : handle_frame w later listens meanwhile false app frame
          ≡ answered (record app { backend = db }) id (dispatch w db frame) =
        rw passes (rw (not_waiting frame (dispatch w db frame)) refl) in
      let polled : handle_frame w later listens meanwhile true app frame ≡ (
          if is_sync_request frame.kind
          then answered (record app { backend = db }) id
              (waits w later listens meanwhile true frame (dispatch w db frame))
          else (
            error_response 400 id ErrorCode.malformed,
            with_error (record app { backend = db }),
          )) =
        rw passes (elim (Bool-cases (is_sync_request frame.kind)) [
          | inl e ↦ rw e refl
          | inr e ↦ rw e refl
        ]) in
      (db.counters, rw (← same) (direct, polled))
