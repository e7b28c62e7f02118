-- ===== src/Server/Uploads.antt =====
-- The operations of `UploadEnvelope` in `dispatch` of services/core-api/src/main.rs, each with what
-- it adds to the answer.
use resilient_messenger.Prelude.{[], ◌∷◌, ◌++◌, Bytes, be64, ◌==◌, if◌then◌else◌, none, some}
use resilient_messenger.Protocol.{FrameType, upload_accepted}
use resilient_messenger.Api.{invalid_input}
use resilient_messenger.Api.Devices.{device_account_id}
use resilient_messenger.Api.Groups.{create_group, apply_membership_operation}
use resilient_messenger.Api.Events.{upload_event}
use resilient_messenger.Api.Mailbox.{publish_key_package, upload_welcome}
use resilient_messenger.Api.Recovery.{store_recovery_package}
use resilient_messenger.Server.Reader.{Ambient, array, u8, i16, rest, end}
use resilient_messenger.Server.Requests.{
  M, ◌>>=◌, ◌>>◌, return, refuse, read, call, query, read_flag, authenticated,
}

module _ (w : Ambient) where
  unfoldable pub upload_message : Bytes → Bytes → M Bytes
  upload_message author client_message_id = do
    group_id ← read (array 16)
    event_id ← read (array 16)
    event_kind ← read i16
    has_correlation ← read_flag
    correlation_id ←
        if has_correlation then (do id ← read (array 16); return (some id)) else return none
    ciphertext ← read rest
    accepted ← call (
        upload_event
          (record {
            event_id = event_id;
            group_id = group_id;
            author_device_id = author;
            client_message_id = client_message_id;
            event_kind = event_kind;
            ciphertext = ciphertext;
            correlation_id = correlation_id;
          })
          w.now)
    return (be64 accepted.cursor ++ (if accepted.duplicate then 1 else 0) ∷ [])

  unfoldable pub upload_package : Bytes → M Bytes
  upload_package author = do
    package_id ← read (array 16)
    content ← read rest
    call (publish_key_package author package_id content w.now)
    return []

  unfoldable pub upload_group : Bytes → M Bytes
  upload_group author = do
    group_id ← read (array 16)
    read end
    account_id ← query (device_account_id author)
    call (create_group group_id author account_id)
    return []

  unfoldable pub upload_operation : Bytes → M Bytes
  upload_operation author = do
    correlation_id ← read (array 16)
    group_id ← read (array 16)
    target ← read (array 16)
    role ← read u8
    remove ← read_flag
    signature ← read (array 64)
    read end
    replayed ← call (
        apply_membership_operation w.ed
          (record {
            correlation_id = correlation_id;
            group_id = group_id;
            author_device_id = author;
            target_device_id = target;
            role = role;
            remove = remove;
            signature = signature;
          })
          w.now)
    return ((if replayed then 1 else 0) ∷ [])

  unfoldable pub upload_invitation : Bytes → M Bytes
  upload_invitation author = do
    target ← read (array 16)
    group ← read (array 16)
    welcome_id ← read (array 16)
    welcome ← read rest
    call (upload_welcome author target group welcome_id welcome w.now)
    return []

  unfoldable pub upload_recovery : Bytes → M Bytes
  upload_recovery author = do
    recovery_identifier ← read (array 32)
    blob ← read rest
    account_id ← query (device_account_id author)
    call (store_recovery_package account_id recovery_identifier blob)
    return []

  unfoldable pub upload : Bytes → M (FrameType × Bytes)
  upload client_message_id = do
    author ← authenticated w
    operation ← read u8
    added ←
        if operation == 1
        then upload_message author client_message_id
        else if operation == 2
        then upload_package author
        else if operation == 3
        then upload_group author
        else if operation == 4
        then upload_operation author
        else if operation == 5
        then upload_invitation author
        else if operation == 6
        then upload_recovery author
        else refuse invalid_input
    return (upload_accepted, operation ∷ added)
