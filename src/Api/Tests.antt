-- ===== src/Api/Tests.antt =====
-- Tests of services/core-api/src/lib.rs: one group with one member.
use resilient_messenger.Prelude.{
  ℕ, ◌≤◌, zero, suc, ◌<◌, ◌≡◌, refl, true, false, List, [], ◌∷◌, ◌++◌, map, All, Bytes, take,
  bytes_eq, sort_by, insert, none, some, ok, arith,
}
use resilient_messenger.Core.Sql.{exists_where, find_where, update_where, select_where}
use resilient_messenger.Api.{pos, clamp_batch, UploadedEvent, EventRow, KeyPackageRow, Backend}
use resilient_messenger.Transport.Directory.{Ed25519}
use resilient_messenger.Api.{MembershipOperation}
use resilient_messenger.Api.Groups.{
  in_transaction, operation_row, author_key, check_signature, apply_once, add_target, upsert_member,
  membership_operation_payload, apply_signed, apply_membership_operation,
}
use resilient_messenger.Api.Groups.Replays.{apply_membership_operation_twice}
use resilient_messenger.Prelude.{length, ◌==◌}
use resilient_messenger.Api.Groups.{is_active_group_member, assert_active_member}
use resilient_messenger.Api.Events.{
  is_from, event_row, sync_event, check_correlation, check_upload, store_event, store_once,
  upload_event, sync_group,
}
use resilient_messenger.Api.Events.Uploads.{IsLog, upload_event_twice, upload_event-IsLog}
use resilient_messenger.Api.Events.Pages.{last_of, is_live, unseen}
use resilient_messenger.Api.Events.Reading.{sync_group_reads_on}
use resilient_messenger.Api.Mailbox.{oldest_package, fetch_key_package}
use resilient_messenger.Api.Mailbox.Packages.{IsConsumed, Later, is_left, fetch_key_package_once}

abbrev zeros : ℕ → Bytes
zeros zero = []
zeros (suc n) = 0 ∷ zeros n

abbrev phone : Bytes
phone = 1 ∷ zeros 15

abbrev team : Bytes
team = 2 ∷ zeros 15

abbrev package_a : KeyPackageRow
package_a = record {
  package_id = 3 ∷ zeros 15;
  device_id = phone;
  content = 7 ∷ [];
  consumed_at = none;
  created_at = 5;
}

abbrev one_member : Backend
one_member = record {
  accounts =
      record {
        account_id = zeros 32;
        root_public_key = zeros 32;
        recovery_identifier = none;
        recovery_blob = none;
      }
      ∷ [];
  devices =
      record {
        device_id = phone;
        account_id = zeros 32;
        device_public_key = zeros 32;
        revoked_at = none;
      }
      ∷ [];
  groups = team ∷ [];
  members =
      record {
        group_id = team;
        device_id = phone;
        account_id = zeros 32;
        role = 2;
        removed_at = none;
      }
      ∷ [];
  operations = [];
  events = [];
  cursors = [];
  receipts = [];
  key_packages = package_a ∷ [];
  welcomes = [];
  next_cursor = 1;
  certificates = [];
  usernames = [];
  cooldowns = [];
  challenges = [];
  access_sessions = [];
  refresh_sessions = [];
  counters = [];
}

abbrev event_a : UploadedEvent
event_a = record {
  event_id = 4 ∷ zeros 15;
  group_id = team;
  author_device_id = phone;
  client_message_id = 5 ∷ zeros 15;
  event_kind = 1;
  ciphertext = 8 ∷ 9 ∷ [];
  correlation_id = none;
}

abbrev one_event : Backend
one_event = record one_member { events = event_row event_a 1 1000 ∷ []; next_cursor = 2 }

upload_a :
    upload_event event_a 1000 one_member
    ≡ (ok (record { cursor = 1; duplicate = false }), one_event)
unfolding upload_event check_upload assert_active_member check_correlation store_once store_event
    exists_where find_where bytes_eq
upload_a = refl

upload_event_twice_example :
    upload_event event_a 2000 one_event ≡ (ok (record { cursor = 1; duplicate = true }), one_event)
upload_event_twice_example =
    upload_event_twice event_a 1000 2000 one_member one_event
      (record { cursor = 1; duplicate = false }) upload_a

one_member-IsLog : IsLog one_member
one_member-IsLog = record { below = tt; rising = tt }

upload_event-IsLog_example :
    IsLog one_event
    × ((row : EventRow) × (find_where (is_from phone (5 ∷ zeros 15)) one_event.events ≡ some row)
        × (row.event_cursor ≡ 1)
        × (false ≡ false → All (λ f. f.event_cursor < 1) one_member.events))
upload_event-IsLog_example =
    upload_event-IsLog event_a 1000 one_member one_event (record { cursor = 1; duplicate = false })
      one_member-IsLog upload_a

one_event-IsLog : IsLog one_event
one_event-IsLog = record { below = (omega arith, tt); rising = (tt, tt) }

phone_is_member : exists_where (is_active_group_member team phone) one_event.members ≡ true
unfolding exists_where bytes_eq
phone_is_member = refl

sync_group_reads_on_example :
    (page : List EventRow) × (sync_group phone team (pos 0) (pos 10) 2000 one_event
      ≡ ok (map sync_event page))
    × (page ≡ take (clamp_batch (pos 10)) (unseen team 2000 0 one_event))
    × ((later : ℕ) (db : Backend) (more : List EventRow)
        → 2000 ≤ later
        → IsLog db
        → db.events ≡ one_event.events ++ more
        → select_where (is_live team later) page
            ++ unseen team later (last_of (is_live team 2000) 0 page) db
          ≡ unseen team later 0 db)
sync_group_reads_on_example =
    sync_group_reads_on phone team 0 2000 (pos 10) one_event one_event-IsLog phone_is_member

abbrev no_package : Backend
no_package = record one_member { key_packages = record package_a { consumed_at = some 900 } ∷ [] }

fetch_a : fetch_key_package phone 900 one_member ≡ (ok (some (3 ∷ zeros 15, 7 ∷ [])), no_package)
unfolding fetch_key_package oldest_package select_where update_where sort_by insert bytes_eq
fetch_a = refl

fetch_key_package_once_example :
    (exists_where (is_left (3 ∷ zeros 15)) one_member.key_packages ≡ true)
    × IsConsumed (3 ∷ zeros 15) no_package.key_packages
    × ((b : Backend)
        → Later no_package b
        → IsConsumed (3 ∷ zeros 15) b.key_packages
          × ((other : Bytes) (later : ℕ) (content : Bytes) (b' : Backend)
              → ¬ (fetch_key_package other later b ≡ (ok (some (3 ∷ zeros 15, content)), b'))))
fetch_key_package_once_example =
    fetch_key_package_once phone 900 one_member no_package (3 ∷ zeros 15) (7 ∷ []) fetch_a

-- Every key is valid and verifies every signature of 64 bytes.
abbrev lenient : Ed25519
lenient = record {
  valid_key = λ key. true;
  verify = λ key message signature. length signature == 64;
}

abbrev request : MembershipOperation
request = record {
  correlation_id = 9 ∷ zeros 15;
  group_id = team;
  author_device_id = phone;
  target_device_id = phone;
  role = 2;
  remove = false;
  signature = zeros 64;
}

abbrev one_operation : Backend
one_operation = record one_member { operations = operation_row request 700 ∷ [] }

apply_request :
    apply_membership_operation lenient request 700 one_member ≡ (ok false, one_operation)
unfolding apply_membership_operation in_transaction apply_signed author_key check_signature
    apply_once add_target upsert_member membership_operation_payload exists_where find_where
    update_where bytes_eq
apply_request = refl

apply_membership_operation_twice_example :
    apply_membership_operation lenient request 800 one_operation ≡ (ok true, one_operation)
unfolding author_key
apply_membership_operation_twice_example =
    apply_membership_operation_twice lenient request 700 800 one_member one_operation false
      apply_request refl
