-- ===== src/Transport/Directory/Written.antt =====
-- The bytes that `put_string` and the loop of `SignedRelayDirectory::signing_bytes` in
-- crates/messenger-transport/src/lib.rs write.
use resilient_messenger.Prelude.{
  ◌%◌, ◌≤◌, ◌^◌, ◌≡◌, sym, ap, ◌∙◌, true, ltb, inl, inr, Bool-cases, List, [], ◌∷◌, ◌++◌,
  append_assoc, All, Bytes, be16, be64, length, Result, ok, err, >>=-eq-ok, arith,
}
use resilient_messenger.Transport.{
  RelayEndpoint, SignedRelayDirectory, TransportError, invalid_response,
}
use resilient_messenger.Transport.Directory.{
  directory_tag, put_string, put_endpoint, put_endpoints, has_known_schemes,
}

-- The URLs of an endpoint are short enough to write, and have the schemes that `decode` wants.
pub record IsShort (e : RelayEndpoint) : Type 0 where
  pub websocket : length e.websocket_url ≤ 2048
  pub https : length e.https_url ≤ 2048

abbrev pub HasKnownSchemes : RelayEndpoint → Type 0
HasKnownSchemes e = has_known_schemes e.websocket_url e.https_url ≡ true

abbrev pub string_bytes : Bytes → Bytes → Bytes
string_bytes s t = be16 (length s) ++ (s ++ t)

abbrev pub endpoint_bytes : RelayEndpoint → Bytes
endpoint_bytes e =
    e.endpoint_id ++ (be16 e.priority ++ string_bytes e.websocket_url (string_bytes e.https_url []))

abbrev pub endpoints_bytes : List RelayEndpoint → Bytes
endpoints_bytes [] = []
endpoints_bytes (e ∷ es) = endpoint_bytes e ++ endpoints_bytes es

abbrev pub directory_bytes : SignedRelayDirectory → List RelayEndpoint → Bytes
directory_bytes d es =
    directory_tag
    ++ (be64 d.version
        ++ (be64 d.issued_at
            ++ (be64 d.expires_at
                ++ (be16 (length es) ++ (endpoints_bytes es ++ (d.signature ++ []))))))

pub endpoint_bytes-append :
    (e : RelayEndpoint) (t : Bytes)
    → endpoint_bytes e ++ t
      ≡ e.endpoint_id
        ++ (be16 e.priority ++ string_bytes e.websocket_url (string_bytes e.https_url t))
endpoint_bytes-append e t = simp append_assoc

pub put_string-eq-ok :
    (out s v : Bytes)
    → put_string out s ≡ ok v
    → (length s ≤ 2048) × ((t : Bytes) → v ++ t ≡ out ++ string_bytes s t)
unfolding put_string
put_string-eq-ok out s v e = elim (Bool-cases (ltb 2048 (length s))) [
  | inl long ↦ absurd (differs (rw long at e))
  | inr short ↦
      let small : length s ≤ 2048 = ground arith in
      let width : length s % 2 ^ 16 ≡ length s = omega arith in
      let at_v : (out ++ be16 (length s)) ++ s ≡ v = same (rw (short, width) at e) in
      (
        small,
        λ t. rw (← at_v) (
            append_assoc (out ++ be16 (length s)) s t
            ∙ append_assoc out (be16 (length s)) (s ++ t)),
      )
]
  where
    differs : ◌≡◌ {A = Result TransportError Bytes} (err invalid_response) (ok v) → ⊥
    differs h = cc

    same : {a : Bytes} → ◌≡◌ {A = Result TransportError Bytes} (ok a) (ok v) → a ≡ v
    same h = cc

pub put_endpoint-eq-ok :
    (out v : Bytes) (e : RelayEndpoint)
    → put_endpoint out e ≡ ok v
    → IsShort e × ((t : Bytes) → v ++ t ≡ out ++ (endpoint_bytes e ++ t))
unfolding put_endpoint
put_endpoint-eq-ok out v e h =
    let start = (out ++ e.endpoint_id) ++ be16 e.priority in
    let (mid, first, second) = >>=-eq-ok (put_string start e.websocket_url) _ h in
    let (small1, cut1) = put_string-eq-ok start e.websocket_url mid first in
    let (small2, cut2) = put_string-eq-ok mid e.https_url v second in
    (
      record { websocket = small1; https = small2 },
      λ t.
          let t2 = string_bytes e.https_url t in
          let t1 = string_bytes e.websocket_url t2 in
          cut2 t
          ∙ cut1 t2
          ∙ append_assoc (out ++ e.endpoint_id) (be16 e.priority) t1
          ∙ append_assoc out e.endpoint_id (be16 e.priority ++ t1)
          ∙ ap (λ k. out ++ k) (sym (endpoint_bytes-append e t)),
    )

pub put_endpoints-eq-ok :
    (es : List RelayEndpoint) (out v : Bytes)
    → put_endpoints out es ≡ ok v
    → All IsShort es × ((t : Bytes) → v ++ t ≡ out ++ (endpoints_bytes es ++ t))
unfolding put_endpoints
put_endpoints-eq-ok [] out v h = (tt, λ t. ap (λ k. k ++ t) (sym (same h)))
  where
    same : ◌≡◌ {A = Result TransportError Bytes} (ok out) (ok v) → out ≡ v
    same e = cc
put_endpoints-eq-ok (e ∷ es) out v h =
    let (mid, first, second) = >>=-eq-ok (put_endpoint out e) _ h in
    let (small, cut1) = put_endpoint-eq-ok out mid e first in
    let (smalls, cut2) = put_endpoints-eq-ok es mid v second in
    (
      (small, smalls),
      λ t.
          let more = endpoints_bytes es ++ t in
          cut2 t
          ∙ cut1 more
          ∙ ap (λ k. out ++ k) (sym (append_assoc (endpoint_bytes e) (endpoints_bytes es) t)),
    )
