-- ===== src/Transport/Directory.antt =====
-- `SignedRelayDirectory` and `DirectoryReader` of crates/messenger-transport/src/lib.rs. The
-- Ed25519 implementation is a parameter: whether a public key is a point, and whether a signature
-- holds for a key and a message.
pub mod Written
pub mod RoundTrip
use resilient_messenger.Prelude.{
  ℕ, zero, suc, ◌+◌, ◌-◌, ◌%◌, ◌^◌, min, Bool, true, false, not, ◌&&◌, ◌||◌, List, [], ◌∷◌, ◌++◌,
  Bytes, be16, be64, from_be, length, ltb, leb, ◌==◌, if◌then◌else◌, bytes_eq, bytes_le, sort_by,
  codes, starts_with, is_utf8, Result, ok, err,
}
use resilient_messenger.Prelude
use resilient_messenger.Cursor.{Parser, new, pure, fail, require, take, finish, value, ◌>>=◌, ◌>>◌}
use resilient_messenger.Transport.{
  RelayEndpoint, SignedRelayDirectory, TransportError, invalid_directory_signature,
  expired_directory, directory_rollback, invalid_response,
}

-- b"resilient/relay-directory/v1"
abbrev pub directory_tag : Bytes
directory_tag = codes "resilient/relay-directory/v1"

-- The comparison of `sort_by_key(|value| (value.priority, value.endpoint_id))`.
unfoldable pub key_at_most : RelayEndpoint → RelayEndpoint → Bool
key_at_most a b =
    ltb a.priority b.priority || a.priority == b.priority && bytes_le a.endpoint_id b.endpoint_id

unfoldable pub put_string : Bytes → Bytes → Result TransportError Bytes
put_string out value =
    if ltb 2048 (length value)
    then err invalid_response
    else ok ((out ++ be16 (length value % 2 ^ 16)) ++ value)

-- One round of the loop of `signing_bytes`.
unfoldable pub put_endpoint : Bytes → RelayEndpoint → Result TransportError Bytes
put_endpoint out endpoint =
    let out = (out ++ endpoint.endpoint_id) ++ be16 endpoint.priority in
    Prelude.◌>>=◌ (put_string out endpoint.websocket_url) λ out'. put_string out' endpoint.https_url

unfoldable pub put_endpoints : Bytes → List RelayEndpoint → Result TransportError Bytes
put_endpoints out [] = ok out
put_endpoints out (endpoint ∷ rest) =
    Prelude.◌>>=◌ (put_endpoint out endpoint) λ out'. put_endpoints out' rest

-- The bytes in front of the endpoints.
unfoldable pub directory_head : SignedRelayDirectory → Bytes
directory_head d =
    (((directory_tag ++ be64 d.version) ++ be64 d.issued_at) ++ be64 d.expires_at)
    ++ be16 (length d.endpoints % 2 ^ 16)

unfoldable pub signing_bytes : SignedRelayDirectory → Result TransportError Bytes
signing_bytes d =
    if ltb 32 (length d.endpoints)
    then err invalid_response
    else put_endpoints (directory_head d) (sort_by key_at_most d.endpoints)

-- ed25519_dalek, which the source only calls.
pub record Ed25519 : Type 0 where
  pub valid_key : Bytes → Bool
  pub verify : Bytes → Bytes → Bytes → Bool

-- `saturating_add` on u64
abbrev pub saturating_add : ℕ → ℕ → ℕ
saturating_add a b = min (a + b) (2 ^ 64 - 1)

unfoldable pub is_out_of_date : SignedRelayDirectory → ℕ → Bool
is_out_of_date d now =
    ltb (saturating_add now 300) d.issued_at || leb d.expires_at now || leb d.expires_at d.issued_at

unfoldable pub verify :
    Ed25519 → SignedRelayDirectory → Bytes → ℕ → ℕ → Result TransportError (Unit {0})
verify ed d public_key now minimum_version =
    if ltb d.version minimum_version
    then err directory_rollback
    else if is_out_of_date d now
    then err expired_directory
    else if not (ed.valid_key public_key)
    then err invalid_directory_signature
    else (Prelude.◌>>=◌ (signing_bytes d) λ message.
        if ed.verify public_key message d.signature then ok tt else err invalid_directory_signature)

unfoldable pub encode : SignedRelayDirectory → Result TransportError Bytes
encode d = Prelude.◌>>=◌ (signing_bytes d) λ value. ok (value ++ d.signature)

-- `DirectoryReader`
unfoldable pub array : ℕ → Parser TransportError Bytes
array n = take invalid_response n

unfoldable pub u16 : Parser TransportError ℕ
u16 = do b ← array 2; pure (from_be b)

unfoldable pub u64 : Parser TransportError ℕ
u64 = do b ← array 8; pure (from_be b)

unfoldable pub string : Parser TransportError Bytes
string = do
  n ← u16
  require (not (ltb 2048 n)) invalid_response
  b ← take invalid_response n
  if is_utf8 b then pure b else fail invalid_response

unfoldable pub has_known_schemes : Bytes → Bytes → Bool
has_known_schemes websocket_url https_url =
    (starts_with websocket_url (codes "wss://") || starts_with websocket_url (codes "ws://"))
    && (starts_with https_url (codes "https://") || starts_with https_url (codes "http://"))

-- One round of the loop of `decode`.
unfoldable pub read_endpoint : Parser TransportError RelayEndpoint
read_endpoint = do
  endpoint_id ← array 16
  priority ← u16
  websocket_url ← string
  https_url ← string
  require (has_known_schemes websocket_url https_url) invalid_response
  pure (record {
    endpoint_id = endpoint_id;
    websocket_url = websocket_url;
    https_url = https_url;
    priority = priority;
  })

unfoldable pub read_endpoints : ℕ → Parser TransportError (List RelayEndpoint)
read_endpoints zero = pure []
read_endpoints (suc n) = do
  endpoint ← read_endpoint
  rest ← read_endpoints n
  pure (endpoint ∷ rest)

unfoldable pub parse_directory : Parser TransportError SignedRelayDirectory
parse_directory = do
  tag ← take invalid_response (length directory_tag)
  require (bytes_eq tag directory_tag) invalid_response
  version ← u64
  issued_at ← u64
  expires_at ← u64
  count ← u16
  require (not (ltb 32 count)) invalid_response
  endpoints ← read_endpoints count
  signature ← array 64
  finish invalid_response
  pure (record {
    version = version;
    issued_at = issued_at;
    expires_at = expires_at;
    endpoints = endpoints;
    signature = signature;
  })

unfoldable pub decode : Bytes → Result TransportError SignedRelayDirectory
decode input = value (parse_directory (new input))
