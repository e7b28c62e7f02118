-- ===== src/Protocol/RoundTrip.antt =====
-- `TransportFrame::decode` on what `TransportFrame::encode` of crates/messenger-protocol/src/lib.rs
-- wrote.
use resilient_messenger.Prelude.{
  ℕ, ◌%◌, ◌≤◌, ◌<◌, ◌^◌, ◌≡◌, ◌≢◌, refl, sym, ap, ◌∙◌, inl, inr, false, ltb, ◌==◌, if◌then◌else◌,
  ==_iff, Bool-cases, [], ◌∷◌, ◌++◌, append-nil, Bytes, length, Result, ok, err, arith,
}
use resilient_messenger.Protocol.{
  Error, unsupported_version, trailing_bytes, protocol_version, max_frame_size, max_ttl_seconds,
  TransportFrame, IsFrame, frame_tag, parse_frame_type-frame_tag, frame_tag-lt,
}
use resilient_messenger.Protocol.Encoder
use resilient_messenger.Protocol.Decoder
use resilient_messenger.Cursor.{new, ◌>>◌, pure, lift, finish}
use resilient_messenger.Protocol.Codec.{frame_bytes, encode_frame, parse_frame, decode_frame}
use resilient_messenger.Cursor.Reads.{
  At-new, Runs, Runs-bind, Runs-finish, Runs-finish_trailing, Runs-require, Runs-require_fails,
  Reads-lift,
}
use resilient_messenger.Protocol.Heads.{
  uint_then, bytes_then, Reads-uint, Reads-array_len, Reads-bytes, Reads-id,
}

-- The fields of a frame in wire order, with `t` behind them.
abbrev pub frame_fields : TransportFrame → Bytes → Bytes
frame_fields f t =
    Encoder.array 6 []
    ++ (Encoder.uint 1 []
        ++ (Encoder.uint f.version []
            ++ (Encoder.uint (frame_tag f.kind) []
                ++ (Encoder.bytes f.client_message_id []
                    ++ (Encoder.uint f.ttl_seconds [] ++ (Encoder.bytes f.body [] ++ t))))))

pub frame_bytes-append : (f : TransportFrame) (t : Bytes) → frame_bytes f ++ t ≡ frame_fields f t
unfolding frame_bytes
frame_bytes-append f t =
    let e1 = Encoder.array 6 [] in
    let e2 = Encoder.uint 1 e1 in
    let e3 = Encoder.uint f.version e2 in
    let e4 = Encoder.uint (frame_tag f.kind) e3 in
    let e5 = Encoder.bytes f.client_message_id e4 in
    let e6 = Encoder.uint f.ttl_seconds e5 in
    bytes_then e6 f.body t
    ∙ uint_then e5 f.ttl_seconds _
    ∙ bytes_then e4 f.client_message_id _
    ∙ uint_then e3 (frame_tag f.kind) _
    ∙ uint_then e2 f.version _
    ∙ uint_then e1 1 _

module _ (f : TransportFrame) (h : IsFrame f) (t : Bytes) where
  version_fits : f.version < 2 ^ 32
  version_fits = omega arith

  tag_fits : frame_tag f.kind < 2 ^ 32
  tag_fits = omega (arith, frame_tag-lt f.kind)

  parsed : TransportFrame
  parsed = record f { version = f.version % 2 ^ 16; ttl_seconds = f.ttl_seconds % 2 ^ 32 }

  parsed_lem : parsed ≡ f
  unfolding parsed
  parsed_lem = ground arith

  parse_frame-Runs :
      (r : Result Error TransportFrame)
      → length f.body < 2 ^ 32
      → f.version ≡ protocol_version
      → f.ttl_seconds ≤ max_ttl_seconds
      → Runs (finish trailing_bytes >> pure f) r t
      → Runs parse_frame r (frame_fields f t)
  unfolding parse_frame parsed
  parse_frame-Runs r small v ttl last =
      Runs-bind (Decoder.array_len 6) _ tt r _ _ (Reads-array_len 6 (omega arith)) (
        Runs-bind Decoder.uint _ 1 r _ _ (Reads-uint 1 (omega arith)) (
          Runs-require _ _ _ r _ refl (
            Runs-bind Decoder.uint _ f.version r _ _ (Reads-uint f.version version_fits) (
              Runs-require _ _ _ r _ ((==_iff f.version 1).1 v) (
                Runs-bind Decoder.uint _ (frame_tag f.kind) r _ _ (Reads-uint _ tag_fits) (
                  Runs-bind (lift _) _ f.kind r [] _
                    (Reads-lift _ f.kind (parse_frame_type-frame_tag f.kind))
                    (Runs-bind Decoder.id _ f.client_message_id r _ _
                      (Reads-id _ h.client_message_id.width)
                      (Runs-bind Decoder.uint _ f.ttl_seconds r _ _
                        (Reads-uint f.ttl_seconds h.ttl_seconds)
                        (Runs-require _ _ _ r _ (ground arith) (
                          Runs-bind Decoder.bytes _ f.body r _ _ (Reads-bytes f.body small)
                            (rw parsed_lem last)))))))))))

  parse_frame_other_version :
      f.version ≢ protocol_version → Runs parse_frame (err unsupported_version) (frame_fields f t)
  unfolding parse_frame
  parse_frame_other_version v =
      Runs-bind (Decoder.array_len 6) _ tt _ _ _ (Reads-array_len 6 (omega arith)) (
        Runs-bind Decoder.uint _ 1 _ _ _ (Reads-uint 1 (omega arith)) (
          Runs-require _ _ _ _ _ refl (
            Runs-bind Decoder.uint _ f.version _ _ _ (Reads-uint f.version version_fits)
              (Runs-require_fails _ _ _ _ (ground arith)))))

-- What a successful `encode` says of the frame.
encode_frame-eq-ok :
    (f : TransportFrame) (out : Bytes)
    → encode_frame f ≡ ok out
    → (out ≡ frame_bytes f)
      × (f.ttl_seconds ≤ max_ttl_seconds)
      × (length f.body ≤ max_frame_size)
      × (length out ≤ max_frame_size)
unfolding encode_frame
encode_frame-eq-ok f out e = ground arith

decode_frame-Runs :
    (input : Bytes) (r : Result Error TransportFrame)
    → length input ≤ max_frame_size
    → Runs parse_frame r input
    → decode_frame input ≡ r
unfolding decode_frame
decode_frame-Runs input r h run =
    let fits : ltb max_frame_size (length input) ≡ false = ground arith in
    rw fits (run.at (new input) (At-new input (omega arith)))

-- Whatever `encode` writes for a frame with proper fields, `decode` takes back: the frame itself if
-- its version is the protocol's, and the error for a foreign version if it is not.
pub decode_frame-encode_frame :
    (f : TransportFrame) (out : Bytes)
    → IsFrame f
    → encode_frame f ≡ ok out
    → decode_frame out ≡ (if f.version == protocol_version then ok f else err unsupported_version)
decode_frame-encode_frame f out h e =
    let (wire, ttl, body, fits) = encode_frame-eq-ok f out e in
    let same : out ≡ frame_fields f [] = wire ∙ sym (append-nil _) ∙ frame_bytes-append f [] in
    decode_frame-Runs out _ fits (
      rw same (elim (Bool-cases (f.version == protocol_version)) [
        | inl v ↦ rw v (
            parse_frame-Runs f h [] (ok f) (omega arith) ((==_iff _ _).0 v) ttl
              (Runs-finish trailing_bytes f))
        | inr v ↦ rw v (parse_frame_other_version f h [] (ground arith))
      ]))

-- Bytes behind what `encode` wrote for a frame with proper fields and the protocol's version are
-- refused as trailing bytes, up to the size limit.
pub decode_frame-trailing :
    (f : TransportFrame) (out : Bytes) (x : ℕ) (xs : Bytes)
    → IsFrame f
    → f.version ≡ protocol_version
    → encode_frame f ≡ ok out
    → length (out ++ x ∷ xs) ≤ max_frame_size
    → decode_frame (out ++ x ∷ xs) ≡ err trailing_bytes
decode_frame-trailing f out x xs h v e small =
    let (wire, ttl, body, fits) = encode_frame-eq-ok f out e in
    let same : out ++ x ∷ xs ≡ frame_fields f (x ∷ xs) =
      ap (λ k. k ++ x ∷ xs) wire ∙ frame_bytes-append f (x ∷ xs) in
    decode_frame-Runs (out ++ x ∷ xs) _ small (
      rw same (
        parse_frame-Runs f h (x ∷ xs) _ (omega arith) v ttl
          (Runs-finish_trailing trailing_bytes f x xs)))
