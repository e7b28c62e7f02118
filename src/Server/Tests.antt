-- ===== src/Server/Tests.antt =====
-- Tests of services/core-api/src/main.rs.
use resilient_messenger.Prelude.{
  ℕ, ◌<◌, ◌≡◌, ◌≢◌, refl, inl, inr, true, false, List, [], ◌∷◌, codes, take, none, ok, err, arith,
}
use resilient_messenger.Fixtures.{zeros, length-zeros, empty, toy_ed, toy_hash}
use resilient_messenger.Core.Sql.{find_where}
use resilient_messenger.Protocol.{
  Error, max_frame_size, protocol_version, sync_batch, sync_request, TransportFrame,
}
use resilient_messenger.Protocol.ErrorCodes.{ErrorCode}
use resilient_messenger.Protocol.Codec.{decode_frame}
use resilient_messenger.Api.{ApiError, invalid_credentials, SyncEvent, CounterRow}
use resilient_messenger.Api.Sessions.{authenticate_access}
use resilient_messenger.Api.Limits.{is_scope}
use resilient_messenger.Server.Reader.{Ambient}
use resilient_messenger.Server.Syncs.{put_events}
use resilient_messenger.Server.Handlers.{dispatch, answer_frame}
use resilient_messenger.Server.Responses.{
  waits, cbor_response, error_frame, error_response, no_id, App, rate_scope, answered, handle_frame,
  handle_binary,
}
use resilient_messenger.Server.Answers.{decode_frame-error_response, total, cbor_response_too_large}
use resilient_messenger.Server.Guards.{
  IsCounted, dispatch_unauthenticated, handle_binary_counts, handle_frame_unlimited,
}

abbrev world : Ambient
world = record {
  sha256 = toy_hash;
  ed = toy_ed;
  now = 5000;
  challenge = record { challenge_id = 1 ∷ zeros 15; challenge = 1 ∷ zeros 31 };
  tokens = record { access_token = 2 ∷ zeros 31; refresh_token = 3 ∷ zeros 31 };
  family = 4 ∷ zeros 15;
}

abbrev app : App
app = record { backend = empty; requests = 7; errors = 1 }

abbrev sync_frame : TransportFrame
sync_frame = record {
  version = protocol_version;
  kind = sync_request;
  client_message_id = 5 ∷ zeros 15;
  ttl_seconds = 0;
  body = 1 ∷ 2 ∷ 3 ∷ [];
}

no_session :
    authenticate_access toy_hash (take 32 sync_frame.body) 5000 empty ≡ err invalid_credentials
unfolding authenticate_access find_where
no_session = refl

dispatch_unauthenticated_example :
    (x : ApiError) × (dispatch world empty sync_frame ≡ (err x, empty))
dispatch_unauthenticated_example =
    dispatch_unauthenticated world empty sync_frame invalid_credentials (inr (inl refl)) no_session

handle_binary_counts_example :
    IsCounted app (handle_binary world world true (λ db. db) app (codes "no frame") true)
    × ((e : Error)
        → decode_frame (codes "no frame") ≡ err e
        → ((handle_binary world world true (λ db. db) app (codes "no frame") true).0
            ≡ error_response 400 no_id ErrorCode.malformed)
          × ((handle_binary world world true (λ db. db) app (codes "no frame") true).1.backend
              ≡ empty))
handle_binary_counts_example =
    handle_binary_counts world world true (λ db. db) app (codes "no frame") true

no_counter : find_where {A = CounterRow} (is_scope (rate_scope sync_frame)) [] ≡ none
unfolding find_where
no_counter = refl

handle_frame_unlimited_example :
    (counters : List CounterRow) × (let db = record empty { counters = counters } in
      let counted = record app { backend = db } in
      let id = sync_frame.client_message_id in
      (handle_frame world world true (λ db. db) false app sync_frame
        ≡ answered counted id (dispatch world db sync_frame))
      × (handle_frame world world true (λ db. db) true app sync_frame
          ≡ answered counted id
              (waits world world true (λ db. db) true sync_frame (dispatch world db sync_frame))))
handle_frame_unlimited_example =
    handle_frame_unlimited world world true (λ db. db) app sync_frame refl (rw no_counter tt)

decode_frame-error_response_example :
    decode_frame (error_response 429 (5 ∷ zeros 15) ErrorCode.rate_limited).body
    ≡ ok (error_frame (5 ∷ zeros 15) ErrorCode.rate_limited)
decode_frame-error_response_example =
    decode_frame-error_response 429 (5 ∷ zeros 15) ErrorCode.rate_limited
      (record { width = refl; bytes = omega arith })

-- Two events of 40,000 bytes.
large : ℕ → SyncEvent
large n = record { cursor = n; event_id = zeros 16; event_kind = 1; ciphertext = zeros n }

large-total : max_frame_size < total (large 40000 ∷ large 40000 ∷ [])
unfolding large
large-total = omega (arith, length-zeros 40000)

cbor_response_too_large_example :
    let response =
      cbor_response 200 (
        answer_frame
          (zeros 16)
          (sync_batch, 1 ∷ 2 ∷ put_events (large 40000 ∷ large 40000 ∷ []))) in
    (response ≡ record { status = 200; body = [] })
    × ((f : TransportFrame) → decode_frame response.body ≢ ok f)
cbor_response_too_large_example =
    cbor_response_too_large (zeros 16) 1 2 (large 40000 ∷ large 40000 ∷ []) large-total
