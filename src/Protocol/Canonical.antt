-- ===== src/Protocol/Canonical.antt =====
-- `encode` of crates/messenger-protocol/src/lib.rs on what `decode` accepted.
use resilient_messenger.Prelude.{
  ◌%◌, ◌≤◌, ◌^◌, ◌≡◌, refl, sym, ap, ◌∙◌, inl, inr, ltb, ==_iff, Bool-cases, [], append-nil, Bytes,
  IsBytes, length, length-append, Result, ok, err, ◌>>=◌, arith,
}
use resilient_messenger.Protocol.{
  Error, protocol_version, max_frame_size, max_encrypted_text_event_size, max_ttl_seconds,
  TransportFrame, ApplicationEnvelope, IsFrame, IsEnvelope, parse_frame_type,
  frame_tag-parse_frame_type, parse_application_type, application_tag-parse_application_type,
}
use resilient_messenger.Protocol.Encoder
use resilient_messenger.Protocol.Decoder
use resilient_messenger.Cursor.{Cursor, new, value, lift}
use resilient_messenger.Protocol.Codec.{
  frame_bytes, encode_frame, parse_frame, decode_frame, envelope_bytes, encode_envelope,
  parse_envelope, decode_envelope,
}
use resilient_messenger.Protocol.RoundTrip.{frame_fields, frame_bytes-append}
use resilient_messenger.Protocol.Envelopes.{envelope_fields, envelope_bytes-append}
use resilient_messenger.Cursor.Takes.{
  err_ne_ok, Ends, Ends-bind, Ends-finish, Takes-lift, Takes-require,
}
use resilient_messenger.Protocol.Shapes.{Takes-uint, Takes-array_len, Takes-bytes, Takes-id}

-- What `parse_frame` accepted.
record Accepted (f : TransportFrame) (input : Bytes) : Type 0 where
  fields : input ≡ frame_fields f []
  version : f.version ≡ protocol_version
  ttl : f.ttl_seconds ≤ max_ttl_seconds
  frame : IsFrame f

Ends-parse_frame : Ends parse_frame Accepted
unfolding parse_frame
Ends-parse_frame = Ends-bind (Decoder.array_len 6) _ _ _ (Takes-array_len 6) λ _ x0 e0.
    Ends-bind Decoder.uint _ _ _ Takes-uint λ first x1 (e1, _).
      Ends-bind _ _ _ _ (Takes-require _ _) λ _ x2 (e2, is_first).
        Ends-bind Decoder.uint _ _ _ Takes-uint λ version x3 (e3, _).
          Ends-bind _ _ _ _ (Takes-require _ _) λ _ x4 (e4, is_version).
            Ends-bind Decoder.uint _ _ _ Takes-uint λ tag x5 (e5, _).
              Ends-bind (lift (parse_frame_type tag)) _ _ _ (Takes-lift _) λ kind x6 (e6, is_kind).
                Ends-bind Decoder.id _ _ _ Takes-id λ id x7 (e7, is_id).
                  Ends-bind Decoder.uint _ _ _ Takes-uint λ ttl x8 (e8, _).
                    Ends-bind _ _ _ _ (Takes-require _ _) λ _ x9 (e9, is_ttl).
                      Ends-bind Decoder.bytes _ _ _ Takes-bytes λ body x10 (e10, _, is_body).
                        let first_is : first ≡ 1 = (==_iff first 1).0 is_first in
                        let version_is : version ≡ protocol_version =
                          (==_iff version 1).0 is_version in
                        let version_same : version % 2 ^ 16 ≡ version = omega arith in
                        let ttl_fits : ttl ≤ max_ttl_seconds = ground arith in
                        let ttl_same : ttl % 2 ^ 32 ≡ ttl = omega arith in
                        Ends-finish _ _ _ (record {
                          fields =
                              rw (e0, e1, e2, e3, e4, e5, e6, e7, e8, e9, e10)
                                (rw
                                  (
                                    first_is,
                                    version_same,
                                    ttl_same,
                                    frame_tag-parse_frame_type tag kind is_kind,
                                  )
                                  refl);
                          version = version_same ∙ version_is;
                          ttl = rw ttl_same ttl_fits;
                          frame = record {
                            version = omega arith;
                            client_message_id = is_id;
                            ttl_seconds = omega arith;
                            body = is_body;
                          };
                        })

value-eq-ok :
    {A : Type 0} (r : Result Error (A × Cursor)) (a : A)
    → value r ≡ ok a
    → (d : Cursor) × (r ≡ ok (a, d))
value-eq-ok (ok (a, d)) b e = (d, ap (λ (x : Result Error _). x >>= λ k. ok (k, d)) e)
value-eq-ok (err x) b e = cc

decode_frame-Accepted :
    (input : Bytes) (f : TransportFrame)
    → IsBytes input
    → decode_frame input ≡ ok f
    → Accepted f input × (length input ≤ max_frame_size)
unfolding decode_frame
decode_frame-Accepted input f bs e = elim (Bool-cases (ltb max_frame_size (length input))) [
  | inl big ↦ absurd (err_ne_ok (rw big at e))
  | inr fits ↦
      let start : Cursor = new input in
      let (d, run) = value-eq-ok (parse_frame start) f (rw fits at e) in
      (Ends-parse_frame.at start f d bs run, ground arith)
]

-- The body of a frame is no longer than the frame's bytes.
body-le : (f : TransportFrame) → length f.body ≤ length (frame_bytes f)
unfolding frame_bytes Encoder.bytes
body-le f = omega (arith, length-append {0})

-- An input of bytes that decodes to a frame is what `encode` writes for that frame, and the frame
-- is a proper value of its type, at the protocol's version and with a permitted time to live.
pub encode_frame-decode_frame :
    (input : Bytes) (f : TransportFrame)
    → IsBytes input
    → decode_frame input ≡ ok f
    → (encode_frame f ≡ ok input)
      × IsFrame f
      × (f.version ≡ protocol_version)
      × (f.ttl_seconds ≤ max_ttl_seconds)
unfolding encode_frame
encode_frame-decode_frame input f bs e =
    let (a, fits) = decode_frame-Accepted input f bs e in
    let same : frame_bytes f ≡ input =
      sym (append-nil _) ∙ frame_bytes-append f [] ∙ sym a.fields in
    (ground (arith, body-le f, ap length same), a.frame, a.version, a.ttl)

Ends-parse_envelope : Ends parse_envelope (λ a input.
    (input ≡ envelope_fields a [])
    × IsEnvelope a
    × (length a.encrypted_content ≤ max_encrypted_text_event_size))
unfolding parse_envelope
Ends-parse_envelope = Ends-bind (Decoder.array_len 5) _ _ _ (Takes-array_len 5) λ _ x0 e0.
    Ends-bind Decoder.uint _ _ _ Takes-uint λ first x1 (e1, _).
      Ends-bind _ _ _ _ (Takes-require _ _) λ _ x2 (e2, is_first).
        Ends-bind Decoder.uint _ _ _ Takes-uint λ tag x3 (e3, _).
          Ends-bind (lift (parse_application_type tag)) _ _ _ (Takes-lift _)
            λ kind x4 (e4, is_kind).
              Ends-bind Decoder.id _ _ _ Takes-id λ event_id x5 (e5, is_event).
                Ends-bind Decoder.id _ _ _ Takes-id λ conversation_id x6 (e6, is_conversation).
                  Ends-bind Decoder.bytes _ _ _ Takes-bytes λ content x7 (e7, _, is_content).
                    Ends-bind _ _ _ _ (Takes-require _ _) λ _ x8 (e8, is_small).
                      let first_is : first ≡ 2 = (==_iff first 2).0 is_first in
                      Ends-finish _ _ _ (
                        rw (e0, e1, e2, e3, e4, e5, e6, e7, e8)
                            (rw (first_is, application_tag-parse_application_type tag kind is_kind)
                              refl),
                        record {
                          event_id = is_event;
                          conversation_id = is_conversation;
                          encrypted_content = is_content;
                        },
                        ground arith,
                      )

-- An input of bytes that decodes to an envelope is what `encode` writes for that envelope, which
-- is a proper value of its type.
pub encode_envelope-decode_envelope :
    (input : Bytes) (a : ApplicationEnvelope)
    → IsBytes input
    → decode_envelope input ≡ ok a
    → (encode_envelope a ≡ ok input) × IsEnvelope a
unfolding decode_envelope encode_envelope
encode_envelope-decode_envelope input a bs e =
    let start : Cursor = new input in
    let (d, run) = value-eq-ok (parse_envelope start) a e in
    let (fields, proper, small) = Ends-parse_envelope.at start a d bs run in
    let same : envelope_bytes a ≡ input =
      sym (append-nil _) ∙ envelope_bytes-append a [] ∙ sym fields in
    (ground arith, proper)
