-- ===== src/Core/Invariant/Kept.antt =====
-- The operations of crates/messenger-core/src/lib.rs and the keys of the tables besides `messages`
-- and `outbox`.
use resilient_messenger.Prelude.{
  ℕ, suc, ◌+◌, ◌≡◌, refl, sym, ap, subst, false, ◌==◌, ◌^◌, bytes_eq_iff, ltb, leb, List, [], ◌∷◌,
  Bytes, length, none, some, ok, >>=-eq-ok, arith, inl, inr, Bool-cases, Option-cases, Result-cases,
}
use resilient_messenger.Core.{
  IncomingEvent, CachedRelayDirectory, InboxRow, MessageRow, MessageStatus, Db, server_accepted,
  ready_to_upload, uploading, retry_scheduled, queued, cancelled,
}
use resilient_messenger.Core.Sql.{exists_where, find_where, count_where}
use resilient_messenger.Core.Sql.Keys.{AtMostOne-append_new, AtMostOne-delete_where}
use resilient_messenger.Core.Cipher.{Aead, encrypt, decrypt}
use resilient_messenger.Core.Messages.{
  is_message, is_outbox, is_conversation, store_message, create_message, in_transaction,
}
use resilient_messenger.Core.Delivery.{
  in_status, check_accepted, update_status, delete_outbox, accept_upload, mark_upload_accepted,
  reschedule, retry_message, cancel_pending, cancel_pending_message, advance_message_status,
}
use resilient_messenger.Core.Sync.{
  is_event, insert_event, insert_events, ingest_server_event, ingest_server_batch, is_before,
  cursor_of, max_version, set_sync_cursor, cache_relay_directory,
}
use resilient_messenger.Core.Account.{
  is_member, is_active_member, is_account, add_member, remove_member, block_account,
  unblock_account, wipe_local_account,
}
use resilient_messenger.Core.Rotation.{update_body, reencrypt, MessengerCore, rotate_master_key}
use resilient_messenger.Core.Invariant.Creates.{store_message-ok}
use resilient_messenger.Core.Invariant.Keys.{
  keyed, HasKeys, AtMostOne-upsert_cursor, AtMostOne-upsert_directory, insert_conversation-HasKeys,
  touch_conversation-HasKeys, members_updated, member_added,
}

-- The calls on messages leave the other tables as they are.
pub mark_upload_accepted-keyed :
    (id : Bytes) (db : Db) → keyed (mark_upload_accepted id db).1 ≡ keyed db
unfolding mark_upload_accepted accept_upload in_transaction update_status delete_outbox
mark_upload_accepted-keyed id db =
    let p = in_status id ready_to_upload uploading retry_scheduled in
    let updated = update_status p server_accepted db in
    elim (Result-cases
      (check_accepted (count_where p db.messages) (find_where (is_message id) updated.messages))) [
        | inl (u, e) ↦ rw (e, in_transaction) refl
        | inr (x, e) ↦ rw (e, in_transaction) refl
      ]

pub retry_message-keyed :
    (id : Bytes) (now : ℕ) (db : Db) → keyed (retry_message id now db).1 ≡ keyed db
unfolding retry_message reschedule update_status
retry_message-keyed id now db = elim (Option-cases (find_where (is_outbox id) db.outbox)) [
  | inl e ↦ rw (e, retry_message) refl
  | inr (o, e) ↦
      rw (e, retry_message)
        (elim (Bool-cases (leb (2 ^ 32) o.attempts)) [
          | inl large ↦ rw large refl
          | inr small ↦ rw small refl
        ])
]

cancelled_is :
    (id : Bytes) (db db' : Db) (u : Unit {0})
    → cancel_pending id db ≡ ok (u, db')
    → delete_outbox id
        (update_status (in_status id queued ready_to_upload retry_scheduled) cancelled db)
      ≡ db'
unfolding cancel_pending
cancelled_is id db db' u e = ground arith

pub cancel_pending_message-keyed :
    (id : Bytes) (db : Db) → keyed (cancel_pending_message id db).1 ≡ keyed db
unfolding cancel_pending_message in_transaction update_status delete_outbox
cancel_pending_message-keyed id db =
    let p = in_status id queued ready_to_upload retry_scheduled in
    elim (Result-cases (cancel_pending id db)) [
      | inr (x, e) ↦ rw (e, in_transaction) refl
      | inl ((u, db'), e) ↦
          (let is : delete_outbox id (update_status p cancelled db) ≡ db' =
              cancelled_is id db db' u e in
            rw (e, in_transaction) (rw (← is) refl))
    ]

pub advance_message_status-keyed :
    (id : Bytes) (s : MessageStatus) (db : Db) → keyed (advance_message_status id s db).1 ≡ keyed db
unfolding advance_message_status update_status
advance_message_status-keyed id s db = ground arith

module _ (aead : Aead) (active replacement : Bytes) (nonces : ℕ → Bytes) where
  reencrypt-keyed :
      (i : ℕ) (rows : List MessageRow) (db db' : Db)
      → reencrypt aead active replacement nonces i rows db ≡ ok db'
      → keyed db' ≡ keyed db
  unfolding reencrypt update_body
  reencrypt-keyed i [] db db' e = let same : db ≡ db' = cc in ap keyed (sym same)
  reencrypt-keyed i (row ∷ rest) db db' e =
      let (plaintext, _, e1) = >>=-eq-ok (decrypt aead active row.body_ciphertext) _ e in
      let (body, _, e2) = >>=-eq-ok (encrypt aead replacement (nonces i) plaintext) _ e1 in
      reencrypt-keyed (suc i) rest (update_body row.client_message_id body db) db' e2

pub rotate_master_key-keyed :
    (aead : Aead) (nonces : ℕ → Bytes) (key : Bytes) (version : ℕ) (core : MessengerCore)
    → keyed (rotate_master_key aead nonces key version core).1.db ≡ keyed core.db
unfolding rotate_master_key
rotate_master_key-keyed aead nonces key version core = elim (Bool-cases (length key == 32)) [
  | inr e ↦ rw e refl
  | inl e ↦ rw e (elim (Bool-cases (version == core.db.key_version + 1)) [
    | inr f ↦ rw f refl
    | inl f ↦
        rw f
          (elim (Result-cases
            (reencrypt aead core.master_key key nonces 0 core.db.messages core.db)) [
              | inr (x, g) ↦ rw (g, rotate_master_key) refl
              | inl (db, g) ↦
                  rw (g, rotate_master_key)
                    (reencrypt-keyed aead core.master_key key nonces 0 core.db.messages core.db db
                      g)
            ])
  ])
]

module _ (db : Db) (h : HasKeys (keyed db)) where
  pub create_message-HasKeys :
      (aead : Aead) (key conversation plaintext id nonce : Bytes) (now : ℕ)
      → HasKeys (keyed (create_message aead key conversation plaintext id nonce now db).1)
  unfolding create_message in_transaction
  create_message-HasKeys aead key conversation plaintext id nonce now =
      elim (Result-cases (encrypt aead key nonce plaintext)) [
        | inr (x, e) ↦ rw (e, create_message) h
        | inl (body, e) ↦
            rw (e, create_message)
              (elim (Result-cases (store_message conversation id body now db)) [
                | inr (x, f) ↦ rw (f, in_transaction) h
                | inl ((a, db'), f) ↦
                    rw (f, in_transaction)
                      (let (_, _, _, same) = store_message-ok conversation id body now db a db' f in
                        rw same (
                          touch_conversation-HasKeys conversation now _
                            (insert_conversation-HasKeys conversation now db h)))
              ])
      ]

  insert_event-HasKeys :
      (event conversation body : Bytes) (now : ℕ)
      → HasKeys (keyed (insert_event event conversation body now db).1)
  unfolding insert_event
  insert_event-HasKeys event conversation body now =
      elim (Bool-cases (exists_where (is_event event) db.inbox)) [
        | inl old ↦ rw old h
        | inr new ↦
            let row : InboxRow = record {
              event_id = event;
              conversation_id = conversation;
              event_ciphertext = body;
              received_at_ms = now;
            } in
            rw new (record {
              conversations = h.conversations;
              inbox = λ i.
                  AtMostOne-append_new (is_event i) db.inbox row
                    (λ k.
                      subst (λ m. exists_where (is_event m) db.inbox ≡ false)
                        ((bytes_eq_iff event i).0 k) new)
                    (h.inbox i);
              members = h.members;
              groups = h.groups;
              sync_cursors = h.sync_cursors;
              blocked_accounts = h.blocked_accounts;
              relay_directory_cache = h.relay_directory_cache;
            })
      ]

  pub ingest_server_event-HasKeys :
      (event conversation body : Bytes) (now : ℕ)
      → HasKeys (keyed (ingest_server_event event conversation body now db).1)
  unfolding ingest_server_event
  ingest_server_event-HasKeys event conversation body now =
      insert_event-HasKeys event conversation body now

  pub set_sync_cursor-HasKeys :
      (scope : Bytes) (cursor : ℕ) → HasKeys (keyed (set_sync_cursor scope cursor db).1)
  unfolding set_sync_cursor
  set_sync_cursor-HasKeys scope cursor =
      elim (Bool-cases (is_before cursor (cursor_of scope db.sync_cursors))) [
        | inl e ↦ rw e h
        | inr e ↦ rw e (elim (Bool-cases (leb (2 ^ 63) cursor)) [
          | inl f ↦ rw f h
          | inr f ↦ rw f (record {
            conversations = h.conversations;
            inbox = h.inbox;
            members = h.members;
            groups = h.groups;
            sync_cursors =
                λ s. AtMostOne-upsert_cursor s scope cursor db.sync_cursors (h.sync_cursors s);
            blocked_accounts = h.blocked_accounts;
            relay_directory_cache = h.relay_directory_cache;
          })
        ])
      ]

  pub cache_relay_directory-HasKeys :
      (d : CachedRelayDirectory) → HasKeys (keyed (cache_relay_directory d db).1)
  unfolding cache_relay_directory
  cache_relay_directory-HasKeys d =
      elim (Bool-cases (is_before d.version (max_version db.relay_directory_cache))) [
        | inl e ↦ rw e h
        | inr e ↦ rw e (elim (Bool-cases (leb (2 ^ 63) d.version)) [
          | inl f ↦ rw f h
          | inr f ↦ rw f (record {
            conversations = h.conversations;
            inbox = h.inbox;
            members = h.members;
            groups = h.groups;
            sync_cursors = h.sync_cursors;
            blocked_accounts = h.blocked_accounts;
            relay_directory_cache = λ v.
                AtMostOne-upsert_directory v d db.relay_directory_cache (h.relay_directory_cache v);
          })
        ])
      ]

  pub add_member-HasKeys :
      (group device account : Bytes) → HasKeys (keyed (add_member group device account db).1)
  unfolding add_member
  add_member-HasKeys group device account =
      elim (Bool-cases (exists_where (is_member group device) db.members)) [
        | inl old ↦ rw old (
            members_updated db h (is_member group device)
              (λ m. record m { account_id = account; removed_at_ms = none }) (λ m. refl)
              (λ m. refl))
        | inr new ↦
            rw new (elim (Bool-cases (exists_where (is_conversation group) db.conversations)) [
              | inl there ↦ rw there (
                  member_added db h
                    (record {
                      conversation_id = group;
                      device_id = device;
                      account_id = account;
                      removed_at_ms = none;
                    })
                    new there)
              | inr missing ↦ rw missing h
            ])
      ]

  pub remove_member-HasKeys :
      (group device : Bytes) (now : ℕ) → HasKeys (keyed (remove_member group device now db).1)
  unfolding remove_member
  remove_member-HasKeys group device now =
      let p = is_active_member group device in
      let updated =
        members_updated db h p (λ m. record m { removed_at_ms = some now }) (λ m. refl)
          (λ m. refl) in
      elim (Bool-cases (count_where p db.members == 1)) [
        | inl one ↦ rw one updated
        | inr other ↦ rw other updated
      ]

  pub block_account-HasKeys :
      (account : Bytes) (now : ℕ) → HasKeys (keyed (block_account account now db).1)
  unfolding block_account
  block_account-HasKeys account now =
      elim (Bool-cases (exists_where (is_account account) db.blocked_accounts)) [
        | inl old ↦ rw old h
        | inr new ↦ rw new (record {
          conversations = h.conversations;
          inbox = h.inbox;
          members = h.members;
          groups = h.groups;
          sync_cursors = h.sync_cursors;
          blocked_accounts = λ a.
              AtMostOne-append_new (is_account a) db.blocked_accounts (account, now)
                (λ k.
                  subst (λ m. exists_where (is_account m) db.blocked_accounts ≡ false)
                    ((bytes_eq_iff account a).0 k) new)
                (h.blocked_accounts a);
          relay_directory_cache = h.relay_directory_cache;
        })
      ]

  pub unblock_account-HasKeys : (account : Bytes) → HasKeys (keyed (unblock_account account db).1)
  unfolding unblock_account
  unblock_account-HasKeys account = record {
    conversations = h.conversations;
    inbox = h.inbox;
    members = h.members;
    groups = h.groups;
    sync_cursors = h.sync_cursors;
    blocked_accounts = λ a.
        AtMostOne-delete_where (is_account a) (is_account account) db.blocked_accounts
          (h.blocked_accounts a);
    relay_directory_cache = h.relay_directory_cache;
  }

insert_events-HasKeys :
    (n : ℕ) (events : List (IncomingEvent × ℕ)) (db : Db)
    → HasKeys (keyed db)
    → HasKeys (keyed (insert_events n events db).1)
unfolding insert_events
insert_events-HasKeys n [] db h = h
insert_events-HasKeys n ((event, now) ∷ rest) db h =
    let step = insert_event event.event_id event.conversation_id event.encrypted_event now db in
    insert_events-HasKeys (n + step.0) rest step.1
      (insert_event-HasKeys db h event.event_id event.conversation_id event.encrypted_event now)

pub ingest_server_batch-HasKeys :
    (events : List (IncomingEvent × ℕ)) (db : Db)
    → HasKeys (keyed db)
    → HasKeys (keyed (ingest_server_batch events db).1)
unfolding ingest_server_batch
ingest_server_batch-HasKeys events db h = elim (Bool-cases (ltb 50 (length events))) [
  | inl large ↦ rw large h
  | inr small ↦ rw small (insert_events-HasKeys 0 events db h)
]

pub wipe_local_account-HasKeys : (db : Db) → HasKeys (keyed (wipe_local_account db).1)
unfolding wipe_local_account
wipe_local_account-HasKeys db = record {
  conversations = λ id. tt;
  inbox = λ id. tt;
  members = λ group device. tt;
  groups = tt;
  sync_cursors = λ scope. tt;
  blocked_accounts = λ account. tt;
  relay_directory_cache = λ v. tt;
}
