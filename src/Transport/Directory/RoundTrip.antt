-- ===== src/Transport/Directory/RoundTrip.antt =====
-- `SignedRelayDirectory::decode` of crates/messenger-transport/src/lib.rs on what `encode` wrote.
use resilient_messenger.Prelude.{
  ℕ, ◌%◌, ◌≤◌, ◌<◌, ◌^◌, ◌≡◌, refl, sym, ◌∙◌, subst, true, false, ltb, inl, inr, Bool-cases, List,
  [], ◌∷◌, ◌++◌, append_assoc, append-nil, All, Bytes, be16, be64, from_be-be64, length,
  bytes_eq_refl, is_utf8, sort_by, All-sort_by, length-sort_by, sort_by_twice, bytes_le_total,
  Result, ok, err, >>=-eq-ok, arith,
}
use resilient_messenger.Cursor.{new, take}
use resilient_messenger.Cursor.Reads.{
  Reads, Reads-bind, Reads-pure, Reads-pure_eq, Reads-require, Reads-take, Runs, Runs-bind,
  Runs-require, Runs-finish, At-new,
}
use resilient_messenger.Transport.{
  RelayEndpoint, SignedRelayDirectory, TransportError, invalid_response, IsEndpoint, IsDirectory,
}
use resilient_messenger.Transport.Directory.{
  directory_tag, key_at_most, put_endpoints, directory_head, signing_bytes, encode, Ed25519, verify,
  is_out_of_date, array, u16, u64, string, read_endpoint, read_endpoints, parse_directory, decode,
}
use resilient_messenger.Transport.Directory.Written.{
  IsShort, HasKnownSchemes, directory_bytes, endpoint_bytes, endpoints_bytes, put_endpoints-eq-ok,
  string_bytes,
}

Reads-array : (n : ℕ) (b : Bytes) → length b ≡ n → Reads (array n) b b
unfolding array
Reads-array n b h =
    subst (λ k. Reads (take invalid_response k) b b) h (Reads-take invalid_response b)

Reads-u16 : (n : ℕ) → n < 2 ^ 16 → Reads u16 n (be16 n)
unfolding u16
Reads-u16 n h =
    Reads-bind (array 2) _ (be16 n) n (be16 n) [] (Reads-array 2 (be16 n) refl)
      (Reads-pure_eq _ n (omega arith))

Reads-u64 : (n : ℕ) → n < 2 ^ 64 → Reads u64 n (be64 n)
unfolding u64
Reads-u64 n h =
    Reads-bind (array 8) _ (be64 n) n (be64 n) [] (Reads-array 8 (be64 n) refl)
      (Reads-pure_eq _ n (from_be-be64 n h))

Reads-string :
    (s : Bytes) → is_utf8 s ≡ true → length s ≤ 2048 → Reads string s (be16 (length s) ++ s)
unfolding string
Reads-string s text small =
    Reads-bind u16 _ (length s) s (be16 (length s)) s (Reads-u16 (length s) (omega arith)) (
      Reads-bind _ _ tt s [] s (Reads-require _ _ (ground arith)) (
        subst (Reads _ s) (append-nil s) (
          Reads-bind (take invalid_response (length s)) _ s s s [] (Reads-take invalid_response s)
            (rw text (Reads-pure s)))))

Reads-endpoint :
    (e : RelayEndpoint)
    → IsEndpoint e
    → IsShort e
    → HasKnownSchemes e
    → Reads read_endpoint e (endpoint_bytes e)
unfolding read_endpoint
Reads-endpoint e h short schemes =
    Reads-bind (array 16) _ e.endpoint_id e _ _ (Reads-array 16 e.endpoint_id h.id_width) (
      Reads-bind u16 _ e.priority e _ _ (Reads-u16 e.priority h.priority) (
        Reads-bind string _ e.websocket_url e _ (string_bytes e.https_url [])
          (Reads-string e.websocket_url h.websocket_text short.websocket)
          (Reads-bind string _ e.https_url e _ []
            (Reads-string e.https_url h.https_text short.https)
            (Reads-bind _ _ tt e [] [] (Reads-require _ _ schemes) (Reads-pure e)))))

Reads-endpoints :
    (es : List RelayEndpoint)
    → All IsEndpoint es
    → All IsShort es
    → All HasKnownSchemes es
    → Reads (read_endpoints (length es)) es (endpoints_bytes es)
unfolding read_endpoints
Reads-endpoints [] h short schemes = Reads-pure []
Reads-endpoints (e ∷ es) h short schemes =
    Reads-bind read_endpoint _ e (e ∷ es) (endpoint_bytes e) (endpoints_bytes es)
      (Reads-endpoint e h.0 short.0 schemes.0)
      (subst (Reads _ (e ∷ es)) (append-nil (endpoints_bytes es)) (
        Reads-bind (read_endpoints (length es)) _ es (e ∷ es) (endpoints_bytes es) []
          (Reads-endpoints es h.1 short.1 schemes.1) (Reads-pure (e ∷ es))))

-- The directory with its endpoints in the order in which they are signed.
abbrev pub sorted_directory : SignedRelayDirectory → SignedRelayDirectory
sorted_directory d = record d { endpoints = sort_by key_at_most d.endpoints }

module _ (d : SignedRelayDirectory) (h : IsDirectory d)
    (schemes : All HasKnownSchemes d.endpoints) where
  abbrev sorted : List RelayEndpoint
  sorted = sort_by key_at_most d.endpoints

  parse_directory-Runs :
      All IsShort sorted
      → length sorted ≤ 32
      → Runs parse_directory (ok (sorted_directory d)) (directory_bytes d sorted)
  unfolding parse_directory
  parse_directory-Runs short few =
      Runs-bind (take invalid_response (length directory_tag)) _ directory_tag _ _ _
        (Reads-take _ directory_tag)
        (Runs-require _ _ _ _ _ (bytes_eq_refl directory_tag) (
          Runs-bind u64 _ d.version _ _ _ (Reads-u64 d.version h.version) (
            Runs-bind u64 _ d.issued_at _ _ _ (Reads-u64 d.issued_at h.issued_at) (
              Runs-bind u64 _ d.expires_at _ _ _ (Reads-u64 d.expires_at h.expires_at) (
                Runs-bind u16 _ (length sorted) _ _ _ (Reads-u16 (length sorted) (omega arith)) (
                  Runs-require _ _ _ _ _ (ground arith) (
                    Runs-bind (read_endpoints (length sorted)) _ sorted _ _ _
                      (Reads-endpoints sorted
                        (All-sort_by key_at_most IsEndpoint d.endpoints h.endpoints) short
                        (All-sort_by key_at_most HasKnownSchemes d.endpoints schemes))
                      (Runs-bind (array 64) _ d.signature _ _ _
                        (Reads-array 64 d.signature h.signature)
                        (Runs-finish invalid_response (sorted_directory d))))))))))

key_at_most_total : (a b : RelayEndpoint) → key_at_most a b ≡ false → key_at_most b a ≡ true
unfolding key_at_most
key_at_most_total a b h = ground (arith, bytes_le_total a.endpoint_id b.endpoint_id)

-- The signed bytes do not depend on the order in which the endpoints stand.
signing_bytes_sorted :
    (d : SignedRelayDirectory) → signing_bytes (sorted_directory d) ≡ signing_bytes d
unfolding signing_bytes directory_head
signing_bytes_sorted d =
    rw
      (
        length-sort_by key_at_most d.endpoints,
        sort_by_twice key_at_most key_at_most_total d.endpoints,
      )
      refl

encode-eq-ok :
    (d : SignedRelayDirectory) (out : Bytes)
    → encode d ≡ ok out
    → (out ≡ directory_bytes d (sort_by key_at_most d.endpoints))
      × All IsShort (sort_by key_at_most d.endpoints)
      × (length (sort_by key_at_most d.endpoints) ≤ 32)
unfolding encode signing_bytes directory_head
encode-eq-ok d out e = elim (Bool-cases (ltb 32 (length d.endpoints))) [
  | inl many ↦ absurd (differs (rw many at e))
  | inr few ↦
      let es = sort_by key_at_most d.endpoints in
      let count = length-sort_by key_at_most d.endpoints in
      let small : length es ≤ 32 = ground arith in
      let width : length d.endpoints % 2 ^ 16 ≡ length es = omega arith in
      let (v, made, last) =
        >>=-eq-ok (put_endpoints (directory_head d) es) _ (unfold directory_head in rw few at e) in
      let (short, cut) = put_endpoints-eq-ok es (directory_head d) v made in
      (
        sym (same last)
            ∙ sym (append-nil _)
            ∙ append_assoc v d.signature []
            ∙ cut (d.signature ++ [])
            ∙ rw width refl,
        short,
        small,
      )
]
  where
    differs : ◌≡◌ {A = Result TransportError Bytes} (err invalid_response) (ok out) → ⊥
    differs h = cc

    same : {a : Bytes} → ◌≡◌ {A = Result TransportError Bytes} (ok a) (ok out) → a ≡ out
    same h = cc

module _ (d : SignedRelayDirectory) (out : Bytes) (h : IsDirectory d)
    (schemes : All HasKnownSchemes d.endpoints) (fits : length out < 2 ^ 64)
    (e : encode d ≡ ok out) where
  -- If the schemes of all its URLs are those that `decode` wants, what `encode` writes for a
  -- directory decodes to that directory with its endpoints sorted by priority and identifier.
  pub decode-encode : decode out ≡ ok (sorted_directory d)
  unfolding decode
  decode-encode =
      let (wire, short, few) = encode-eq-ok d out e in
      (subst (Runs parse_directory (ok (sorted_directory d))) (sym wire)
          (parse_directory-Runs d h schemes short few)).at
        (new out) (At-new out fits)

  -- What `encode` writes for a directory with proper fields, whose URLs have the schemes that
  -- `decode` wants, if shorter than 2 ^ 64 bytes, decodes to a directory that passes or fails the
  -- verification, with every key, time and minimal version, exactly as the directory did.
  pub verify-decode-encode :
      (ed : Ed25519) (key : Bytes) (now minimum : ℕ)
      → (d' : SignedRelayDirectory) × (decode out ≡ ok d')
        × (verify ed d' key now minimum ≡ verify ed d key now minimum)
  unfolding verify is_out_of_date
  verify-decode-encode ed key now minimum =
      (sorted_directory d, decode-encode, rw (signing_bytes_sorted d) refl)
