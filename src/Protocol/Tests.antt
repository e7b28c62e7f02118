-- ===== src/Protocol/Tests.antt =====
-- Tests of the codec of crates/messenger-protocol/src/lib.rs on one frame and one envelope.
use resilient_messenger.Prelude.{
  ◌≤◌, ◌≡◌, refl, [], ◌∷◌, ◌++◌, Bytes, are_bytes-IsBytes, IsBytes, ok, arith,
}
use resilient_messenger.Protocol.{
  MessageId, IsMessageId, upload_envelope, text_message, frame_tag, application_tag, TransportFrame,
  ApplicationEnvelope, IsFrame, IsEnvelope, protocol_version, max_ttl_seconds,
}
use resilient_messenger.Protocol.Encoder
use resilient_messenger.Protocol.Codec.{
  frame_bytes, encode_frame, decode_frame, envelope_bytes, encode_envelope, decode_envelope,
}
use resilient_messenger.Protocol.RoundTrip.{decode_frame-encode_frame}
use resilient_messenger.Protocol.Envelopes.{decode_envelope-encode_envelope}
use resilient_messenger.Protocol.Canonical.{encode_frame-decode_frame}

abbrev id_a : MessageId
id_a = 1 ∷ 2 ∷ 3 ∷ 4 ∷ 5 ∷ 6 ∷ 7 ∷ 8 ∷ 9 ∷ 10 ∷ 11 ∷ 12 ∷ 13 ∷ 14 ∷ 15 ∷ 16 ∷ []

id_a-IsMessageId : IsMessageId id_a
id_a-IsMessageId = record { width = refl; bytes = are_bytes-IsBytes id_a refl }

abbrev upload : TransportFrame
upload = record {
  version = 1;
  kind = upload_envelope;
  client_message_id = id_a;
  ttl_seconds = 60;
  body = 7 ∷ 8 ∷ [];
}

abbrev upload_bytes : Bytes
upload_bytes = 134 ∷ 1 ∷ 1 ∷ 6 ∷ 80 ∷ id_a ++ 24 ∷ 60 ∷ 66 ∷ 7 ∷ 8 ∷ []

upload-IsFrame : IsFrame upload
upload-IsFrame = record {
  version = omega arith;
  client_message_id = id_a-IsMessageId;
  ttl_seconds = omega arith;
  body = are_bytes-IsBytes (7 ∷ 8 ∷ []) refl;
}

encode_upload : encode_frame upload ≡ ok upload_bytes
unfolding encode_frame frame_bytes Encoder.bytes Encoder.major Encoder.uint Encoder.array frame_tag
encode_upload = refl

decode_frame-encode_frame_example : decode_frame upload_bytes ≡ ok upload
decode_frame-encode_frame_example =
    decode_frame-encode_frame upload upload_bytes upload-IsFrame encode_upload

-- The bytes of the encoded frame.
upload_bytes-IsBytes : IsBytes upload_bytes
upload_bytes-IsBytes = are_bytes-IsBytes upload_bytes refl

decode_upload : decode_frame upload_bytes ≡ ok upload
decode_upload = decode_frame-encode_frame upload upload_bytes upload-IsFrame encode_upload

encode_frame-decode_frame_example :
    (encode_frame upload ≡ ok upload_bytes)
    × IsFrame upload
    × (upload.version ≡ protocol_version)
    × (upload.ttl_seconds ≤ max_ttl_seconds)
encode_frame-decode_frame_example =
    encode_frame-decode_frame upload_bytes upload upload_bytes-IsBytes decode_upload

abbrev text : ApplicationEnvelope
text = record {
  kind = text_message;
  event_id = id_a;
  conversation_id = id_a;
  encrypted_content = 9 ∷ [];
}

abbrev text_bytes : Bytes
text_bytes = 133 ∷ 2 ∷ 1 ∷ 80 ∷ id_a ++ 80 ∷ id_a ++ 65 ∷ 9 ∷ []

text-IsEnvelope : IsEnvelope text
text-IsEnvelope = record {
  event_id = id_a-IsMessageId;
  conversation_id = id_a-IsMessageId;
  encrypted_content = are_bytes-IsBytes (9 ∷ []) refl;
}

encode_text : encode_envelope text ≡ ok text_bytes
unfolding encode_envelope envelope_bytes Encoder.bytes Encoder.major Encoder.uint Encoder.array
    application_tag
encode_text = refl

decode_envelope-encode_envelope_example : decode_envelope text_bytes ≡ ok text
decode_envelope-encode_envelope_example =
    decode_envelope-encode_envelope text text_bytes text-IsEnvelope encode_text (omega arith)

decode_text : decode_envelope text_bytes ≡ ok text
decode_text =
    decode_envelope-encode_envelope text text_bytes text-IsEnvelope encode_text (omega arith)

text_bytes-IsBytes : IsBytes text_bytes
text_bytes-IsBytes = are_bytes-IsBytes text_bytes refl
