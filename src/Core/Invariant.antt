-- ===== src/Core/Invariant.antt =====
-- The well-formedness of the database of crates/messenger-core/src/lib.rs: its keys and references,
-- and that a message which the server accepted or the user cancelled is not in the outbox.
pub mod Inserts
pub mod Creates
pub mod Others
pub mod Updates
pub mod Keys
pub mod Kept
pub mod Reachable
use resilient_messenger.Prelude.{
  ℕ, ◌≡◌, refl, sym, ap, ◌∙◌, inl, inr, Bool-cases, Bool, true, false, ◌&&◌, ◌||◌, ◌==◌, List, [],
  ◌∷◌, ◌++◌, All, Bytes, bytes_eq, bytes_eq_iff, bytes_eq_refl, arith, All-weaken, All-append,
}
use resilient_messenger.Core.{
  ConversationSummary, MessageRow, OutboxRow, Db, MessageStatus, status_code, server_accepted,
  cancelled,
}
use resilient_messenger.Core.Sql.{
  exists_where, update_where, delete_where, exists_where-append, exists_where-update_where,
  exists_where-delete_where-false, exists_where-update_where-false, All-update_where,
  All-delete_where, All-delete_where_left,
}
use resilient_messenger.Core.Messages.{is_message, is_outbox, is_conversation}
use resilient_messenger.Core.Delivery.{set_status, update_status, delete_outbox}
use resilient_messenger.Core.Rotation.Texts.{DistinctMessages}

-- The primary key of `outbox`.
abbrev pub DistinctOutbox : List OutboxRow → Type 0
DistinctOutbox [] = Unit
DistinctOutbox (o ∷ os) =
    (exists_where (is_outbox o.client_message_id) os ≡ false) × DistinctOutbox os

-- The message is done: accepted by the server, or cancelled.
abbrev pub is_settled : Bytes → MessageRow → Bool
is_settled id m =
    is_message id m
    && (m.status == status_code server_accepted || m.status == status_code cancelled)

-- The foreign key of `outbox`, and that the message is not done.
pub record IsOpen (messages : List MessageRow) (o : OutboxRow) : Type 0 where
  pub stored : exists_where (is_message o.client_message_id) messages ≡ true
  pub unsettled : exists_where (is_settled o.client_message_id) messages ≡ false

-- The foreign key of `messages`.
abbrev pub HasConversation : List ConversationSummary → MessageRow → Type 0
HasConversation conversations m =
    exists_where (is_conversation m.conversation_id) conversations ≡ true

pub record IsValid (db : Db) : Type 0 where
  pub messages : DistinctMessages db.messages
  pub outbox : DistinctOutbox db.outbox
  pub open_messages : All (IsOpen db.messages) db.outbox
  pub conversations : All (HasConversation db.conversations) db.messages

pub DistinctOutbox-delete :
    (p : OutboxRow → Bool) (os : List OutboxRow)
    → DistinctOutbox os
    → DistinctOutbox (delete_where p os)
unfolding delete_where
DistinctOutbox-delete p [] h = tt
DistinctOutbox-delete p (o ∷ os) h =
    let rest = DistinctOutbox-delete p os h.1 in
    elim (Bool-cases (p o)) [
      | inl e ↦ rw e rest
      | inr e ↦
          rw e (exists_where-delete_where-false (is_outbox o.client_message_id) p os h.0, rest)
    ]

-- An update that keeps the identifiers and conversations of its rows.
pub record KeepsKeys (f : MessageRow → MessageRow) : Type 0 where
  pub id : (m : MessageRow) → (f m).client_message_id ≡ m.client_message_id
  pub conversation : (m : MessageRow) → (f m).conversation_id ≡ m.conversation_id

module _ (p : MessageRow → Bool) (f : MessageRow → MessageRow) (keys : KeepsKeys f) where
  stored_update :
      (id : Bytes) (ms : List MessageRow)
      → exists_where (is_message id) (update_where p f ms) ≡ exists_where (is_message id) ms
  stored_update id ms = exists_where-update_where (is_message id) p f ms (λ m. rw (keys.id m) refl)

  pub DistinctMessages-update :
      (ms : List MessageRow) → DistinctMessages ms → DistinctMessages (update_where p f ms)
  unfolding update_where
  DistinctMessages-update [] h = tt
  DistinctMessages-update (m ∷ ms) h =
      let rest = DistinctMessages-update ms h.1 in
      let other = stored_update m.client_message_id ms ∙ h.0 in
      elim (Bool-cases (p m)) [
        | inl e ↦ rw e (rw (keys.id m) other, rest)
        | inr e ↦ rw e (other, rest)
      ]

  pub HasConversation-update :
      (cs : List ConversationSummary) (ms : List MessageRow)
      → All (HasConversation cs) ms
      → All (HasConversation cs) (update_where p f ms)
  HasConversation-update cs ms h =
      All-update_where (HasConversation cs) p f ms (λ m _ k. rw (keys.conversation m) k) h

  pub IsOpen-update :
      (o : OutboxRow) (ms : List MessageRow)
      → ((m : MessageRow)
          → is_settled o.client_message_id m ≡ false
          → p m ≡ true
          → is_settled o.client_message_id (f m) ≡ false)
      → IsOpen ms o
      → IsOpen (update_where p f ms) o
  IsOpen-update o ms g h = record {
    stored = stored_update o.client_message_id ms ∙ h.stored;
    unsettled =
        exists_where-update_where-false (is_settled o.client_message_id) p f ms g h.unsettled;
  }

pub KeepsKeys-set_status : (s : ℕ) → KeepsKeys (set_status s)
KeepsKeys-set_status s = record { id = λ m. refl; conversation = λ m. refl }

abbrev IsUnsettling : MessageStatus → Type 0
IsUnsettling s =
    (status_code s == status_code server_accepted || status_code s == status_code cancelled) ≡ false

module _ (db : Db) (h : IsValid db) (p : MessageRow → Bool) (s : MessageStatus) where
  -- A new status that does not end the message keeps the database valid.
  pub update_status-IsValid : IsUnsettling s → IsValid (update_status p s db)
  unfolding update_status
  update_status-IsValid go_on =
      let f = set_status (status_code s) in
      let keys = KeepsKeys-set_status (status_code s) in
      record {
        messages = DistinctMessages-update p f keys db.messages h.messages;
        outbox = h.outbox;
        open_messages =
            All-weaken (IsOpen db.messages) (IsOpen (update_where p f db.messages)) db.outbox
              (λ o k. IsOpen-update p f keys o db.messages (λ m a b. ground arith) k)
              h.open_messages;
        conversations =
            HasConversation-update p f keys db.conversations db.messages h.conversations;
      }

  -- Any new status does, if it is given to one message and that leaves the outbox.
  pub settle-IsValid :
      (id : Bytes)
      → ((m : MessageRow) → p m ≡ true → is_message id m ≡ true)
      → IsValid (delete_outbox id (update_status p s db))
  unfolding update_status delete_outbox
  settle-IsValid id only =
      let f = set_status (status_code s) in
      let keys = KeepsKeys-set_status (status_code s) in
      record {
        messages = DistinctMessages-update p f keys db.messages h.messages;
        outbox = DistinctOutbox-delete (is_outbox id) db.outbox h.outbox;
        open_messages =
            All-delete_where_left (IsOpen db.messages) (IsOpen (update_where p f db.messages))
              (is_outbox id) db.outbox
              (λ o gone k.
                IsOpen-update p f keys o db.messages
                  (λ m a b. ground (
                    arith,
                    only m,
                    bytes_eq_iff m.client_message_id id,
                    bytes_eq_iff m.client_message_id o.client_message_id,
                    bytes_eq_iff o.client_message_id id,
                  ))
                  k)
              h.open_messages;
        conversations =
            HasConversation-update p f keys db.conversations db.messages h.conversations;
      }
