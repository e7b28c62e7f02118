-- ===== src/Protocol.antt =====
-- The data types of crates/messenger-protocol/src/lib.rs: constants, enums with their wire
-- numbers, frames and errors. The codec is in the modules below.
pub mod Encoder
pub mod Decoder
pub mod Codec
pub mod Heads
pub mod RoundTrip
pub mod Envelopes
pub mod Shapes
pub mod Canonical
pub mod ErrorCodes
mod Tests
use resilient_messenger.Prelude.{
  ℕ, ◌*◌, ◌^◌, ◌<◌, ◌≡◌, refl, Bytes, IsBytes, length, ltb, ◌==◌, if◌then◌else◌, Option, none, some,
  Result, ok, err, arith,
}

abbrev pub protocol_version : ℕ
protocol_version = 1

abbrev pub max_frame_size : ℕ
max_frame_size = 64 * 1024

abbrev pub max_encrypted_text_event_size : ℕ
max_encrypted_text_event_size = 4 * 1024

abbrev pub max_ttl_seconds : ℕ
max_ttl_seconds = 30 * 24 * 60 * 60

-- `Id([u8; 16])`: the bytes, and the predicate that the array type states.
abbrev pub MessageId : Type 0
MessageId = Bytes

pub record IsMessageId (id : MessageId) : Type 0 where
  pub width : length id ≡ 16
  pub bytes : IsBytes id

pub data Error : Type 0 where
  malformed truncated too_large non_canonical unsupported_version : Error
  unknown_frame_type unknown_application_type trailing_bytes field_out_of_range : Error

pub data FrameType : Type 0 where
  client_hello server_hello auth_challenge auth_response auth_accepted : FrameType
  upload_envelope upload_accepted sync_request sync_batch : FrameType
  delivery_receipt_batch read_receipt_batch : FrameType
  relay_directory_request relay_directory_response ping pong rate_limit error : FrameType

-- `kind as u64`, by `#[repr(u8)]` and `ClientHello = 1`
unfoldable pub frame_tag : FrameType → ℕ
frame_tag client_hello = 1
frame_tag server_hello = 2
frame_tag auth_challenge = 3
frame_tag auth_response = 4
frame_tag auth_accepted = 5
frame_tag upload_envelope = 6
frame_tag upload_accepted = 7
frame_tag sync_request = 8
frame_tag sync_batch = 9
frame_tag delivery_receipt_batch = 10
frame_tag read_receipt_batch = 11
frame_tag relay_directory_request = 12
frame_tag relay_directory_response = 13
frame_tag ping = 14
frame_tag pong = 15
frame_tag rate_limit = 16
frame_tag error = 17

-- `FrameType::parse`
unfoldable pub parse_frame_type : ℕ → Result Error FrameType
parse_frame_type n =
    if n == 1
    then ok client_hello
    else if n == 2
    then ok server_hello
    else if n == 3
    then ok auth_challenge
    else if n == 4
    then ok auth_response
    else if n == 5
    then ok auth_accepted
    else if n == 6
    then ok upload_envelope
    else if n == 7
    then ok upload_accepted
    else if n == 8
    then ok sync_request
    else if n == 9
    then ok sync_batch
    else if n == 10
    then ok delivery_receipt_batch
    else if n == 11
    then ok read_receipt_batch
    else if n == 12
    then ok relay_directory_request
    else if n == 13
    then ok relay_directory_response
    else if n == 14
    then ok ping
    else if n == 15
    then ok pong
    else if n == 16
    then ok rate_limit
    else if n == 17
    then ok error
    else err unknown_frame_type

pub data ApplicationType : Type 0 where
  text_message message_request message_request_accepted delivery_receipt read_receipt :
      ApplicationType
  group_metadata_update group_member_event group_invite group_invite_accepted : ApplicationType
  device_linked device_removed : ApplicationType

-- `kind as u64`
unfoldable pub application_tag : ApplicationType → ℕ
application_tag text_message = 1
application_tag message_request = 2
application_tag message_request_accepted = 3
application_tag delivery_receipt = 4
application_tag read_receipt = 5
application_tag group_metadata_update = 6
application_tag group_member_event = 7
application_tag group_invite = 8
application_tag group_invite_accepted = 9
application_tag device_linked = 10
application_tag device_removed = 11

-- `ApplicationType::parse`
unfoldable pub parse_application_type : ℕ → Result Error ApplicationType
parse_application_type n =
    if n == 1
    then ok text_message
    else if n == 2
    then ok message_request
    else if n == 3
    then ok message_request_accepted
    else if n == 4
    then ok delivery_receipt
    else if n == 5
    then ok read_receipt
    else if n == 6
    then ok group_metadata_update
    else if n == 7
    then ok group_member_event
    else if n == 8
    then ok group_invite
    else if n == 9
    then ok group_invite_accepted
    else if n == 10
    then ok device_linked
    else if n == 11
    then ok device_removed
    else err unknown_application_type

pub record TransportFrame : Type 0 where
  pub version : ℕ
  pub kind : FrameType
  pub client_message_id : MessageId
  pub ttl_seconds : ℕ
  pub body : Bytes

pub record ApplicationEnvelope : Type 0 where
  pub kind : ApplicationType
  pub event_id : MessageId
  pub conversation_id : MessageId
  pub encrypted_content : Bytes

-- What the field types of `TransportFrame` say: u16, `Id`, u32 and bytes.
pub record IsFrame (f : TransportFrame) : Type 0 where
  pub version : f.version < 2 ^ 16
  pub client_message_id : IsMessageId f.client_message_id
  pub ttl_seconds : f.ttl_seconds < 2 ^ 32
  pub body : IsBytes f.body

-- The same of `ApplicationEnvelope`.
pub record IsEnvelope (a : ApplicationEnvelope) : Type 0 where
  pub event_id : IsMessageId a.event_id
  pub conversation_id : IsMessageId a.conversation_id
  pub encrypted_content : IsBytes a.encrypted_content

-- `choose_compressed_body`
unfoldable pub choose_compressed_body : Bytes → Bytes → Option Bytes
choose_compressed_body original compressed_body =
    if ltb (length compressed_body) (length original) then some compressed_body else none

pub parse_frame_type-frame_tag : (k : FrameType) → parse_frame_type (frame_tag k) ≡ ok k
unfolding parse_frame_type frame_tag
parse_frame_type-frame_tag client_hello = refl
parse_frame_type-frame_tag _ = refl

pub frame_tag-parse_frame_type :
    (n : ℕ) (k : FrameType) → parse_frame_type n ≡ ok k → frame_tag k ≡ n
unfolding parse_frame_type frame_tag
frame_tag-parse_frame_type n k h = ground arith

pub frame_tag-lt : (k : FrameType) → frame_tag k < 24
unfolding frame_tag
frame_tag-lt client_hello = omega arith
frame_tag-lt _ = omega arith

pub parse_application_type-application_tag :
    (k : ApplicationType) → parse_application_type (application_tag k) ≡ ok k
unfolding parse_application_type application_tag
parse_application_type-application_tag text_message = refl
parse_application_type-application_tag _ = refl

pub application_tag-parse_application_type :
    (n : ℕ) (k : ApplicationType) → parse_application_type n ≡ ok k → application_tag k ≡ n
unfolding parse_application_type application_tag
application_tag-parse_application_type n k h = ground arith

pub application_tag-lt : (k : ApplicationType) → application_tag k < 24
unfolding application_tag
application_tag-lt text_message = omega arith
application_tag-lt _ = omega arith
