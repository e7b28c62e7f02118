-- ===== src/Protocol/Codec.antt =====
-- `encode` and `decode` of `TransportFrame` and `ApplicationEnvelope`.
use resilient_messenger.Prelude.{
  ◌%◌, ◌^◌, [], Bytes, length, ltb, ◌==◌, if◌then◌else◌, not, Result, ok, err,
}
use resilient_messenger.Protocol.{
  Error, malformed, too_large, unsupported_version, trailing_bytes, field_out_of_range,
  protocol_version, max_frame_size, max_encrypted_text_event_size, max_ttl_seconds, TransportFrame,
  ApplicationEnvelope, frame_tag, parse_frame_type, application_tag, parse_application_type,
}
use resilient_messenger.Protocol.Encoder
use resilient_messenger.Protocol.Decoder
use resilient_messenger.Cursor.{Parser, new, finish, ◌>>=◌, ◌>>◌, pure, require, lift, value}

-- The buffer that `TransportFrame::encode` fills.
unfoldable pub frame_bytes : TransportFrame → Bytes
frame_bytes f =
    let e = Encoder.array 6 [] in
    let e = Encoder.uint 1 e in
    let e = Encoder.uint f.version e in
    let e = Encoder.uint (frame_tag f.kind) e in
    let e = Encoder.bytes f.client_message_id e in
    let e = Encoder.uint f.ttl_seconds e in Encoder.bytes f.body e

unfoldable pub encode_frame : TransportFrame → Result Error Bytes
encode_frame f =
    if ltb max_ttl_seconds f.ttl_seconds
    then err field_out_of_range
    else if ltb max_frame_size (length f.body)
    then err too_large
    else if ltb max_frame_size (length (frame_bytes f))
    then err too_large
    else ok (frame_bytes f)

unfoldable pub parse_frame : Parser Error TransportFrame
parse_frame = do
  Decoder.array_len 6
  first ← Decoder.uint
  require (first == 1) malformed
  version ← Decoder.uint
  require (version == protocol_version) unsupported_version
  tag ← Decoder.uint
  kind ← lift (parse_frame_type tag)
  id ← Decoder.id
  ttl ← Decoder.uint
  require (not (ltb max_ttl_seconds ttl)) field_out_of_range
  body ← Decoder.bytes
  finish trailing_bytes
  pure (record {
    version = version % 2 ^ 16;
    kind = kind;
    client_message_id = id;
    ttl_seconds = ttl % 2 ^ 32;
    body = body;
  })

unfoldable pub decode_frame : Bytes → Result Error TransportFrame
decode_frame input =
    if ltb max_frame_size (length input) then err too_large else value (parse_frame (new input))

unfoldable pub envelope_bytes : ApplicationEnvelope → Bytes
envelope_bytes a =
    let e = Encoder.array 5 [] in
    let e = Encoder.uint 2 e in
    let e = Encoder.uint (application_tag a.kind) e in
    let e = Encoder.bytes a.event_id e in
    let e = Encoder.bytes a.conversation_id e in Encoder.bytes a.encrypted_content e

unfoldable pub encode_envelope : ApplicationEnvelope → Result Error Bytes
encode_envelope a =
    if ltb max_encrypted_text_event_size (length a.encrypted_content)
    then err too_large
    else ok (envelope_bytes a)

unfoldable pub parse_envelope : Parser Error ApplicationEnvelope
parse_envelope = do
  Decoder.array_len 5
  first ← Decoder.uint
  require (first == 2) malformed
  tag ← Decoder.uint
  kind ← lift (parse_application_type tag)
  event_id ← Decoder.id
  conversation_id ← Decoder.id
  encrypted_content ← Decoder.bytes
  require (not (ltb max_encrypted_text_event_size (length encrypted_content))) too_large
  finish trailing_bytes
  pure (record {
    kind = kind;
    event_id = event_id;
    conversation_id = conversation_id;
    encrypted_content = encrypted_content;
  })

unfoldable pub decode_envelope : Bytes → Result Error ApplicationEnvelope
decode_envelope input = value (parse_envelope (new input))
