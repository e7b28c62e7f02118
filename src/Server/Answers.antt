-- ===== src/Server/Answers.antt =====
-- The answers of `handle_binary` in services/core-api/src/main.rs.
use resilient_messenger.Prelude.{
  ℕ, ◌+◌, ◌%◌, ◌^◌, ◌≤◌, ◌<◌, ◌≡◌, ◌≢◌, refl, sym, ap, ◌∙◌, true, List, [], ◌∷◌, ◌++◌, append-nil,
  Bytes, be16, be32, length, length-append, ltb, ok, arith,
}
use resilient_messenger.Protocol.{
  max_frame_size, max_ttl_seconds, sync_batch, TransportFrame, IsMessageId, IsFrame,
}
use resilient_messenger.Protocol.ErrorCodes.{ErrorCode, error_number}
use resilient_messenger.Protocol.Encoder
use resilient_messenger.Protocol.Decoder
use resilient_messenger.Cursor
use resilient_messenger.Protocol.Codec.{frame_bytes, encode_frame, parse_frame, decode_frame}
use resilient_messenger.Protocol.RoundTrip.{
  frame_fields, frame_bytes-append, decode_frame-encode_frame,
}
use resilient_messenger.Api.{SyncEvent}
use resilient_messenger.Server.Syncs.{put_events}
use resilient_messenger.Server.Handlers.{answer_frame}
use resilient_messenger.Server.Responses.{cbor_response, error_frame, error_response}

length-major : (m n : ℕ) → length (Encoder.major m n []) ≤ 5
unfolding Encoder.major
length-major m n = ground arith

length-array : (n : ℕ) → length (Encoder.array n []) ≤ 5
unfolding Encoder.array
length-array n = length-major 4 n

length-uint : (n : ℕ) → length (Encoder.uint n []) ≤ 5
unfolding Encoder.uint
length-uint n = length-major 0 n

length-bytes : (b : Bytes) → length (Encoder.bytes b []) ≤ 5 + length b
unfolding Encoder.bytes
length-bytes b =
    omega (arith, length-append (Encoder.major 2 (length b) []) b, length-major 2 (length b))

-- The heads take at most 35 bytes.
length-frame_bytes :
    (f : TransportFrame)
    → length (frame_bytes f) ≤ 35 + (length f.client_message_id + length f.body)
length-frame_bytes f =
    let same : frame_bytes f ≡ frame_fields f [] =
      sym (append-nil (frame_bytes f)) ∙ frame_bytes-append f [] in
    omega (arith, ap length same, length-append {0}, length-array, length-uint, length-bytes)

encode_frame_fits :
    (f : TransportFrame)
    → f.ttl_seconds ≤ max_ttl_seconds
    → 35 + (length f.client_message_id + length f.body) ≤ max_frame_size
    → encode_frame f ≡ ok (frame_bytes f)
unfolding encode_frame
encode_frame_fits f ttl small = let size = length-frame_bytes f in ground arith

number_is_byte : (code : ErrorCode) → error_number code < 256
unfolding error_number
number_is_byte ErrorCode.malformed = omega arith
number_is_byte _ = omega arith

-- Every error that the server reports reaches the client: its body decodes to the error frame with
-- the identifier of the request and the number of the error, whatever the status is.
pub decode_frame-error_response :
    (status : ℕ) (id : Bytes) (code : ErrorCode)
    → IsMessageId id
    → decode_frame (error_response status id code).body ≡ ok (error_frame id code)
unfolding error_response cbor_response
decode_frame-error_response status id code h =
    let f = error_frame id code in
    let fits = encode_frame_fits f (omega arith) (omega (arith, h.width)) in
    let proper : IsFrame f = record {
      version = omega arith;
      client_message_id = h;
      ttl_seconds = omega arith;
      body = (number_is_byte code, tt);
    } in
    rw fits (decode_frame-encode_frame f (frame_bytes f) proper fits)

-- The bytes of the ciphertexts of a page.
abbrev pub total : List SyncEvent → ℕ
total [] = 0
total (e ∷ es) = length e.ciphertext + total es

total-le : (es : List SyncEvent) → total es ≤ length (put_events es)
unfolding put_events
total-le [] = omega arith
total-le (e ∷ es) = omega (
  arith,
  total-le es,
  length-append e.event_id (
      be16 e.event_kind
      ++ (be32 (length e.ciphertext % 2 ^ 32) ++ (e.ciphertext ++ put_events es))),
  length-append e.ciphertext (put_events es),
)

decode_frame-nil : (f : TransportFrame) → decode_frame [] ≢ ok f
unfolding decode_frame parse_frame Decoder.array_len Decoder.head Cursor.◌>>=◌ Cursor.next_byte
decode_frame-nil f e = cc

-- A page of events whose ciphertexts have more than 64 KiB together does not fit into a frame: the
-- answer has the status 200 and an empty body, which no client can decode.
pub cbor_response_too_large :
    (id : Bytes) (operation count : ℕ) (es : List SyncEvent)
    → max_frame_size < total es
    → let response =
        cbor_response 200 (answer_frame id (sync_batch, operation ∷ count ∷ put_events es)) in
      (response ≡ record { status = 200; body = [] })
      × ((f : TransportFrame) → decode_frame response.body ≢ ok f)
unfolding cbor_response encode_frame
cbor_response_too_large id operation count es large =
    let long = total-le es in
    let f = answer_frame id (sync_batch, operation ∷ count ∷ put_events es) in
    let over : ltb max_frame_size (length f.body) ≡ true = ground arith in
    (rw over refl, rw over (λ g e. decode_frame-nil g e))
