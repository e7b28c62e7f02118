-- ===== src/Transport.antt =====
-- The data types of crates/messenger-transport/src/lib.rs. The signed directory and the manager
-- are in the modules below. A URL is a Rust string: its UTF-8 bytes.
pub mod Directory
pub mod Manager
mod Tests
use resilient_messenger.Prelude.{
  ℕ, ◌^◌, ◌<◌, ◌≤◌, ◌≡◌, true, Bool, ◌&&◌, ◌||◌, not, Bytes, IsBytes, length, List, All,
  starts_with, is_utf8, codes,
}

pub record RelayEndpoint : Type 0 where
  pub endpoint_id : Bytes
  pub websocket_url : Bytes
  pub https_url : Bytes
  pub priority : ℕ

pub record SignedRelayDirectory : Type 0 where
  pub version : ℕ
  pub issued_at : ℕ
  pub expires_at : ℕ
  pub endpoints : List RelayEndpoint
  pub signature : Bytes

pub data TransportError : Type 0 where
  invalid_directory_signature expired_directory directory_rollback : TransportError
  frame_too_large unavailable invalid_response : TransportError

pub record ByteCounters : Type 0 where
  pub sent : ℕ
  pub received : ℕ
  pub attempts : ℕ
  pub websocket_failures : ℕ
  pub https_failures : ℕ
  pub relay_switches : ℕ

-- What the field types of `RelayEndpoint` say: [u8; 16], String, String and u16.
pub record IsEndpoint (e : RelayEndpoint) : Type 0 where
  pub id_width : length e.endpoint_id ≡ 16
  pub id_bytes : IsBytes e.endpoint_id
  pub websocket_text : is_utf8 e.websocket_url ≡ true
  pub https_text : is_utf8 e.https_url ≡ true
  pub priority : e.priority < 2 ^ 16

-- The same of `SignedRelayDirectory`: three u64, the endpoints and [u8; 64].
pub record IsDirectory (d : SignedRelayDirectory) : Type 0 where
  pub version : d.version < 2 ^ 64
  pub issued_at : d.issued_at < 2 ^ 64
  pub expires_at : d.expires_at < 2 ^ 64
  pub endpoints : All IsEndpoint d.endpoints
  pub signature : length d.signature ≡ 64
