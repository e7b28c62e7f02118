-- ===== src/Protocol/Envelopes.antt =====
-- `decode` after `encode` for `ApplicationEnvelope` of crates/messenger-protocol/src/lib.rs.
use resilient_messenger.Prelude.{
  ℕ, ◌≤◌, ◌<◌, ◌^◌, ◌≡◌, refl, sym, ap, ◌∙◌, subst, [], ◌∷◌, ◌++◌, append-nil, Bytes, length,
  Result, ok, err, arith,
}
use resilient_messenger.Protocol.{
  Error, trailing_bytes, max_encrypted_text_event_size, ApplicationEnvelope, IsEnvelope,
  application_tag, parse_application_type-application_tag, application_tag-lt,
}
use resilient_messenger.Protocol.Encoder
use resilient_messenger.Protocol.Decoder
use resilient_messenger.Cursor.{new, ◌>>◌, pure, lift, finish}
use resilient_messenger.Protocol.Codec.{
  envelope_bytes, encode_envelope, parse_envelope, decode_envelope,
}
use resilient_messenger.Cursor.Reads.{
  At-new, Runs, Runs-bind, Runs-finish, Runs-finish_trailing, Runs-require, Reads-lift,
}
use resilient_messenger.Protocol.Heads.{
  uint_then, bytes_then, Reads-uint, Reads-array_len, Reads-bytes, Reads-id,
}

-- The fields of an envelope in wire order, with `t` behind them.
abbrev pub envelope_fields : ApplicationEnvelope → Bytes → Bytes
envelope_fields a t =
    Encoder.array 5 []
    ++ (Encoder.uint 2 []
        ++ (Encoder.uint (application_tag a.kind) []
            ++ (Encoder.bytes a.event_id []
                ++ (Encoder.bytes a.conversation_id []
                    ++ (Encoder.bytes a.encrypted_content [] ++ t)))))

pub envelope_bytes-append :
    (a : ApplicationEnvelope) (t : Bytes) → envelope_bytes a ++ t ≡ envelope_fields a t
unfolding envelope_bytes
envelope_bytes-append a t =
    let e1 = Encoder.array 5 [] in
    let e2 = Encoder.uint 2 e1 in
    let e3 = Encoder.uint (application_tag a.kind) e2 in
    let e4 = Encoder.bytes a.event_id e3 in
    let e5 = Encoder.bytes a.conversation_id e4 in
    bytes_then e5 a.encrypted_content t
    ∙ bytes_then e4 a.conversation_id _
    ∙ bytes_then e3 a.event_id _
    ∙ uint_then e2 (application_tag a.kind) _
    ∙ uint_then e1 2 _

module _ (a : ApplicationEnvelope) (h : IsEnvelope a) (t : Bytes) where
  parse_envelope-Runs :
      (r : Result Error ApplicationEnvelope)
      → length a.encrypted_content ≤ max_encrypted_text_event_size
      → Runs (finish trailing_bytes >> pure a) r t
      → Runs parse_envelope r (envelope_fields a t)
  unfolding parse_envelope
  parse_envelope-Runs r small last =
      Runs-bind (Decoder.array_len 5) _ tt r _ _ (Reads-array_len 5 (omega arith)) (
        Runs-bind Decoder.uint _ 2 r _ _ (Reads-uint 2 (omega arith)) (
          Runs-require _ _ _ r _ refl (
            Runs-bind Decoder.uint _ (application_tag a.kind) r _ _
              (Reads-uint _ (omega (arith, application_tag-lt a.kind)))
              (Runs-bind (lift _) _ a.kind r [] _
                (Reads-lift _ a.kind (parse_application_type-application_tag a.kind))
                (Runs-bind Decoder.id _ a.event_id r _ _ (Reads-id _ h.event_id.width) (
                  Runs-bind Decoder.id _ a.conversation_id r _ _
                    (Reads-id _ h.conversation_id.width)
                    (Runs-bind Decoder.bytes _ a.encrypted_content r _ _
                      (Reads-bytes _ (omega arith))
                      (Runs-require _ _ _ r _ (ground arith) last))))))))

encode_envelope-eq-ok :
    (a : ApplicationEnvelope) (out : Bytes)
    → encode_envelope a ≡ ok out
    → (out ≡ envelope_bytes a) × (length a.encrypted_content ≤ max_encrypted_text_event_size)
unfolding encode_envelope
encode_envelope-eq-ok a out e = ground arith

-- What `encode` wrote, with bytes behind it or none: `decode` takes the envelope back if there are
-- none, and refuses the input as having trailing bytes if there are some.
module _ (a : ApplicationEnvelope) (out : Bytes) (h : IsEnvelope a)
    (e : encode_envelope a ≡ ok out) where
  decode_envelope-Runs :
      (t : Bytes) (r : Result Error ApplicationEnvelope)
      → length (out ++ t) < 2 ^ 64
      → Runs (finish trailing_bytes >> pure a) r t
      → decode_envelope (out ++ t) ≡ r
  unfolding decode_envelope
  decode_envelope-Runs t r small last =
      let (wire, content) = encode_envelope-eq-ok a out e in
      let same : out ++ t ≡ envelope_fields a t =
        ap (λ k. k ++ t) wire ∙ envelope_bytes-append a t in
      (subst (Runs parse_envelope r) (sym same) (parse_envelope-Runs a h t r content last)).at
        (new (out ++ t)) (At-new (out ++ t) small)

  -- What `encode` wrote for an envelope with proper fields, if shorter than 2 ^ 64 bytes, decodes to
  -- that envelope.
  pub decode_envelope-encode_envelope : length out < 2 ^ 64 → decode_envelope out ≡ ok a
  decode_envelope-encode_envelope small =
      subst (λ k. decode_envelope k ≡ ok a) (append-nil out)
        (decode_envelope-Runs [] (ok a) (rw (append-nil out) small) (Runs-finish trailing_bytes a))

  -- Bytes behind what `encode` wrote for an envelope with proper fields are refused as trailing bytes,
  -- if the whole is shorter than 2 ^ 64 bytes.
  pub decode_envelope-trailing :
      (x : ℕ) (xs : Bytes)
      → length (out ++ x ∷ xs) < 2 ^ 64
      → decode_envelope (out ++ x ∷ xs) ≡ err trailing_bytes
  decode_envelope-trailing x xs small =
      decode_envelope-Runs (x ∷ xs) _ small (Runs-finish_trailing trailing_bytes a x xs)
