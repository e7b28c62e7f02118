-- ===== src/Core/Invariant/Inserts.antt =====
-- The well-formedness of the database and the INSERT statements of
-- crates/messenger-core/src/lib.rs.
use resilient_messenger.Prelude.{
  ℕ, ◌≡◌, refl, ◌∙◌, inl, inr, true, false, Bool-cases, List, [], ◌∷◌, ◌++◌, All-append, All-weaken,
  Bytes, bytes_eq_iff, bytes_eq_refl, arith,
}
use resilient_messenger.Core.{ConversationSummary, MessageRow, OutboxRow, Db}
use resilient_messenger.Core.Sql.{exists_where, exists_where-append, exists_where-update_where}
use resilient_messenger.Core.Messages.{
  is_conversation, is_message, is_outbox, insert_conversation, touch_conversation, new_message,
}
use resilient_messenger.Core.Account.{create_group}
use resilient_messenger.Core.Rotation.Texts.{DistinctMessages}
use resilient_messenger.Core.Invariant.{
  DistinctOutbox, is_settled, IsOpen, HasConversation, IsValid,
}

-- More conversations do not harm.
conversations_change :
    (db : Db) (cs : List ConversationSummary) (n : ℕ)
    → IsValid db
    → ((id : Bytes)
        → exists_where (is_conversation id) db.conversations ≡ true
        → exists_where (is_conversation id) cs ≡ true)
    → IsValid (record db { conversations = cs; revision = n })
conversations_change db cs n h keep = record {
  messages = h.messages;
  outbox = h.outbox;
  open_messages = h.open_messages;
  conversations =
      All-weaken (HasConversation db.conversations) (HasConversation cs) db.messages
        (λ m k. keep m.conversation_id k) h.conversations;
}

pub insert_conversation-IsValid :
    (id : Bytes) (now : ℕ) (db : Db) → IsValid db → IsValid (insert_conversation id now db)
unfolding insert_conversation
insert_conversation-IsValid id now db h =
    elim (Bool-cases (exists_where (is_conversation id) db.conversations)) [
      | inl e ↦ rw e h
      | inr e ↦ rw e (
          conversations_change db _ _ h
            (λ j k. rw (exists_where-append (is_conversation j) db.conversations _) (rw k refl)))
    ]

pub create_group-IsValid :
    (id : Bytes) (now : ℕ) (db : Db) → IsValid db → IsValid (create_group id now db).1
unfolding create_group
create_group-IsValid id now db h = insert_conversation-IsValid id now db h

pub touch_conversation-IsValid :
    (id : Bytes) (now : ℕ) (db : Db) → IsValid db → IsValid (touch_conversation id now db)
unfolding touch_conversation
touch_conversation-IsValid id now db h = conversations_change db _ db.revision h (λ j k.
    exists_where-update_where (is_conversation j) (is_conversation id) _ db.conversations
      (λ c. refl)
    ∙ k)

DistinctMessages-append :
    (ms : List MessageRow) (m : MessageRow)
    → DistinctMessages ms
    → exists_where (is_message m.client_message_id) ms ≡ false
    → DistinctMessages (ms ++ m ∷ [])
unfolding exists_where
DistinctMessages-append [] m h new = (refl, tt)
DistinctMessages-append (x ∷ ms) m h new = (
  ground (
    arith,
    exists_where-append (is_message x.client_message_id) ms (m ∷ []),
    bytes_eq_iff x.client_message_id m.client_message_id,
    bytes_eq_iff m.client_message_id x.client_message_id,
  ),
  DistinctMessages-append ms m h.1 (ground arith),
)

DistinctOutbox-append :
    (os : List OutboxRow) (o : OutboxRow)
    → DistinctOutbox os
    → exists_where (is_outbox o.client_message_id) os ≡ false
    → DistinctOutbox (os ++ o ∷ [])
unfolding exists_where
DistinctOutbox-append [] o h new = (refl, tt)
DistinctOutbox-append (x ∷ os) o h new = (
  ground (
    arith,
    exists_where-append (is_outbox x.client_message_id) os (o ∷ []),
    bytes_eq_iff x.client_message_id o.client_message_id,
    bytes_eq_iff o.client_message_id x.client_message_id,
  ),
  DistinctOutbox-append os o h.1 (ground arith),
)

-- A message that is not there is not settled.
unsettled_absent :
    (id : Bytes) (ms : List MessageRow)
    → exists_where (is_message id) ms ≡ false
    → exists_where (is_settled id) ms ≡ false
unfolding exists_where
unsettled_absent id [] h = refl
unsettled_absent id (m ∷ ms) h = ground (arith, unsettled_absent id ms)

-- A message row and its outbox row, both new, over a conversation that is there.
module _ (db : Db) (h : IsValid db) (id conversation body : Bytes) (now : ℕ) where
  abbrev pub stored : MessageRow
  stored = new_message id conversation body now

  abbrev pub queued : OutboxRow
  queued = record { client_message_id = id; next_attempt_at_ms = now; attempts = 0 }

  IsOpen-append : (o : OutboxRow) → IsOpen db.messages o → IsOpen (db.messages ++ stored ∷ []) o
  unfolding exists_where
  IsOpen-append o k = record {
    stored = ground (
      arith,
      k.stored,
      exists_where-append (is_message o.client_message_id) db.messages (stored ∷ []),
    );
    unsettled = ground (
      arith,
      k.unsettled,
      exists_where-append (is_settled o.client_message_id) db.messages (stored ∷ []),
    );
  }

  pub both_inserted :
      (n : ℕ)
      → exists_where (is_conversation conversation) db.conversations ≡ true
      → exists_where (is_message id) db.messages ≡ false
      → exists_where (is_outbox id) db.outbox ≡ false
      → IsValid (record db {
        messages = db.messages ++ stored ∷ [];
        outbox = db.outbox ++ queued ∷ [];
        revision = n;
      })
  unfolding exists_where
  both_inserted n has new free = record {
    messages = DistinctMessages-append db.messages stored h.messages new;
    outbox = DistinctOutbox-append db.outbox queued h.outbox free;
    open_messages =
        All-append (IsOpen (db.messages ++ stored ∷ [])) db.outbox (queued ∷ [])
          (All-weaken (IsOpen db.messages) _ db.outbox IsOpen-append h.open_messages)
          (
            record {
              stored = ground (
                arith,
                bytes_eq_refl id,
                exists_where-append (is_message id) db.messages (stored ∷ []),
              );
              unsettled = ground (
                arith,
                unsettled_absent id db.messages new,
                exists_where-append (is_settled id) db.messages (stored ∷ []),
              );
            },
            tt,
          );
    conversations =
        All-append (HasConversation db.conversations) db.messages (stored ∷ []) h.conversations
          (has, tt);
  }
