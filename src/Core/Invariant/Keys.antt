-- ===== src/Core/Invariant/Keys.antt =====
-- The primary keys of the tables of crates/messenger-core/src/lib.rs besides `messages` and `outbox`,
-- and the foreign key of `group_members`.
use resilient_messenger.Prelude.{
  ℕ, ◌≡◌, refl, ◌∙◌, subst, Bool, true, false, ◌==◌, List, [], ◌∷◌, ◌++◌, Bytes, bytes_eq,
  bytes_eq_iff, All, All-append, All-weaken, arith, inl, inr, Bool-cases,
}
use resilient_messenger.Core.{
  ConversationSummary, InboxRow, MemberRow, CachedRelayDirectory, Db, empty_db,
}
use resilient_messenger.Core.Sql.{
  exists_where, update_where, exists_where-append, exists_where-update_where, All-update_where,
}
use resilient_messenger.Core.Sql.Keys.{AtMostOne, AtMostOne-append_new, AtMostOne-update_where}
use resilient_messenger.Core.Messages.{is_conversation, insert_conversation, touch_conversation}
use resilient_messenger.Core.Sync.{is_event, is_scope, upsert_cursor, upsert_directory}
use resilient_messenger.Core.Account.{is_member, is_account}

pub record KeyedTables : Type 0 where
  pub conversations : List ConversationSummary
  pub inbox : List InboxRow
  pub members : List MemberRow
  pub sync_cursors : List (Bytes × ℕ)
  pub blocked_accounts : List (Bytes × ℕ)
  pub relay_directory_cache : List CachedRelayDirectory

abbrev pub keyed : Db → KeyedTables
keyed db = record {
  conversations = db.conversations;
  inbox = db.inbox;
  members = db.members;
  sync_cursors = db.sync_cursors;
  blocked_accounts = db.blocked_accounts;
  relay_directory_cache = db.relay_directory_cache;
}

abbrev pub is_version : ℕ → CachedRelayDirectory → Bool
is_version v d = d.version == v

-- The reference of a member to its group.
abbrev pub HasGroup : List ConversationSummary → MemberRow → Type 0
HasGroup conversations m = exists_where (is_conversation m.conversation_id) conversations ≡ true

pub record HasKeys (t : KeyedTables) : Type 0 where
  pub conversations : (id : Bytes) → AtMostOne (is_conversation id) t.conversations
  pub inbox : (id : Bytes) → AtMostOne (is_event id) t.inbox
  pub members : (group device : Bytes) → AtMostOne (is_member group device) t.members
  pub groups : All (HasGroup t.conversations) t.members
  pub sync_cursors : (scope : Bytes) → AtMostOne (is_scope scope) t.sync_cursors
  pub blocked_accounts : (account : Bytes) → AtMostOne (is_account account) t.blocked_accounts
  pub relay_directory_cache : (v : ℕ) → AtMostOne (is_version v) t.relay_directory_cache

pub empty_db-HasKeys : HasKeys (keyed empty_db)
empty_db-HasKeys = record {
  conversations = λ id. tt;
  inbox = λ id. tt;
  members = λ group device. tt;
  groups = tt;
  sync_cursors = λ scope. tt;
  blocked_accounts = λ account. tt;
  relay_directory_cache = λ v. tt;
}

exists_where-upsert_cursor :
    (s scope : Bytes) (cursor : ℕ) (rows : List (Bytes × ℕ))
    → bytes_eq scope s ≡ false
    → exists_where (is_scope s) (upsert_cursor scope cursor rows) ≡ exists_where (is_scope s) rows
unfolding upsert_cursor exists_where
exists_where-upsert_cursor s scope cursor [] other = rw other refl
exists_where-upsert_cursor s scope cursor ((key, old) ∷ rest) other =
    ground (arith, exists_where-upsert_cursor s scope cursor rest other)

pub AtMostOne-upsert_cursor :
    (s scope : Bytes) (cursor : ℕ) (rows : List (Bytes × ℕ))
    → AtMostOne (is_scope s) rows
    → AtMostOne (is_scope s) (upsert_cursor scope cursor rows)
unfolding upsert_cursor
AtMostOne-upsert_cursor s scope cursor [] h = ((λ e. unfold exists_where in refl), tt)
AtMostOne-upsert_cursor s scope cursor ((key, old) ∷ rest) h =
    elim (Bool-cases (bytes_eq key scope)) [
      | inl here ↦ rw here h
      | inr there ↦ rw there (
        λ e.
            let other : bytes_eq scope s ≡ false =
              ground (arith, bytes_eq_iff scope s, bytes_eq_iff key s, bytes_eq_iff key scope) in
            exists_where-upsert_cursor s scope cursor rest other ∙ h.0 e,
        AtMostOne-upsert_cursor s scope cursor rest h.1,
      )
    ]

exists_where-upsert_directory :
    (v : ℕ) (d : CachedRelayDirectory) (es : List CachedRelayDirectory)
    → d.version == v ≡ false
    → exists_where (is_version v) (upsert_directory d es) ≡ exists_where (is_version v) es
unfolding upsert_directory exists_where
exists_where-upsert_directory v d [] other = rw other refl
exists_where-upsert_directory v d (e ∷ es) other =
    ground (arith, exists_where-upsert_directory v d es other)

pub AtMostOne-upsert_directory :
    (v : ℕ) (d : CachedRelayDirectory) (es : List CachedRelayDirectory)
    → AtMostOne (is_version v) es
    → AtMostOne (is_version v) (upsert_directory d es)
unfolding upsert_directory
AtMostOne-upsert_directory v d [] h = ((λ e. unfold exists_where in refl), tt)
AtMostOne-upsert_directory v d (e ∷ es) h = elim (Bool-cases (e.version == d.version)) [
  | inl here ↦ rw here ((λ k. h.0 (ground arith)), h.1)
  | inr there ↦ rw there (
    λ k.
        let other : d.version == v ≡ false = ground arith in
        exists_where-upsert_directory v d es other ∙ h.0 k,
    AtMostOne-upsert_directory v d es h.1,
  )
]

pub insert_conversation-HasKeys :
    (id : Bytes) (now : ℕ) (db : Db)
    → HasKeys (keyed db)
    → HasKeys (keyed (insert_conversation id now db))
unfolding insert_conversation
insert_conversation-HasKeys id now db h =
    elim (Bool-cases (exists_where (is_conversation id) db.conversations)) [
      | inl old ↦ rw old h
      | inr new ↦
          let row : ConversationSummary = record { conversation_id = id; updated_at_ms = now } in
          rw new (record {
            conversations = λ i.
                AtMostOne-append_new (is_conversation i) db.conversations row
                  (λ k.
                    subst (λ m. exists_where (is_conversation m) db.conversations ≡ false)
                      ((bytes_eq_iff id i).0 k) new)
                  (h.conversations i);
            inbox = h.inbox;
            members = h.members;
            groups =
                All-weaken (HasGroup db.conversations) (HasGroup (db.conversations ++ row ∷ []))
                  db.members
                  (λ m k.
                    rw
                      (
                        exists_where-append (is_conversation m.conversation_id) db.conversations
                            (row ∷ []),
                        k,
                      )
                      refl)
                  h.groups;
            sync_cursors = h.sync_cursors;
            blocked_accounts = h.blocked_accounts;
            relay_directory_cache = h.relay_directory_cache;
          })
    ]

pub touch_conversation-HasKeys :
    (id : Bytes) (now : ℕ) (db : Db)
    → HasKeys (keyed db)
    → HasKeys (keyed (touch_conversation id now db))
unfolding touch_conversation
touch_conversation-HasKeys id now db h =
    let f = λ (c : ConversationSummary). record c { updated_at_ms = now } in
    record {
      conversations = λ i.
          AtMostOne-update_where (is_conversation i) (is_conversation id) f db.conversations
            (λ c. refl) (h.conversations i);
      inbox = h.inbox;
      members = h.members;
      groups =
          All-weaken (HasGroup db.conversations)
            (HasGroup (update_where (is_conversation id) f db.conversations)) db.members
            (λ m k.
              exists_where-update_where (is_conversation m.conversation_id) (is_conversation id) f
                db.conversations (λ c. refl)
              ∙ k)
            h.groups;
      sync_cursors = h.sync_cursors;
      blocked_accounts = h.blocked_accounts;
      relay_directory_cache = h.relay_directory_cache;
    }

-- An update of members that keeps whose they are, and a new member of a group that exists.
module _ (db : Db) (h : HasKeys (keyed db)) where
  pub members_updated :
      (p : MemberRow → Bool) (f : MemberRow → MemberRow)
      → ((m : MemberRow) → (f m).conversation_id ≡ m.conversation_id)
      → ((m : MemberRow) → (f m).device_id ≡ m.device_id)
      → HasKeys (record (keyed db) { members = update_where p f db.members })
  members_updated p f group device = record {
    conversations = h.conversations;
    inbox = h.inbox;
    members = λ g d.
        AtMostOne-update_where (is_member g d) p f db.members (λ m. rw (group m, device m) refl)
          (h.members g d);
    groups =
        All-update_where (HasGroup db.conversations) p f db.members (λ m e k. rw (group m) k)
          h.groups;
    sync_cursors = h.sync_cursors;
    blocked_accounts = h.blocked_accounts;
    relay_directory_cache = h.relay_directory_cache;
  }

  pub member_added :
      (row : MemberRow)
      → exists_where (is_member row.conversation_id row.device_id) db.members ≡ false
      → exists_where (is_conversation row.conversation_id) db.conversations ≡ true
      → HasKeys (record (keyed db) { members = db.members ++ row ∷ [] })
  member_added row new group = record {
    conversations = h.conversations;
    inbox = h.inbox;
    members = λ g d.
        AtMostOne-append_new (is_member g d) db.members row
          (λ k.
            let mine : row.conversation_id ≡ g =
              (bytes_eq_iff row.conversation_id g).0 (ground arith) in
            let own : row.device_id ≡ d = (bytes_eq_iff row.device_id d).0 (ground arith) in
            subst (λ i. exists_where (is_member i d) db.members ≡ false) mine
              (subst (λ i. exists_where (is_member row.conversation_id i) db.members ≡ false) own
                new))
          (h.members g d);
    groups = All-append (HasGroup db.conversations) db.members (row ∷ []) h.groups (group, tt);
    sync_cursors = h.sync_cursors;
    blocked_accounts = h.blocked_accounts;
    relay_directory_cache = h.relay_directory_cache;
  }
