-- ===== src/Core/Sync/Inbox.antt =====
-- `ingest_server_event` and `ingest_server_batch` of crates/messenger-core/src/lib.rs.
use resilient_messenger.Prelude.{
  ℕ, ◌≤◌, ◌+◌, ◌≡◌, refl, ap, ◌∙◌, inl, inr, true, false, ltb, Bool-cases, List, [], ◌∷◌, All,
  Bytes, length, length-append, bytes_eq_refl, ok, arith,
}
use resilient_messenger.Core.{IncomingEvent, Db}
use resilient_messenger.Core.Sql.{exists_where, exists_where-append}
use resilient_messenger.Core.Sync.{
  is_event, insert_event, insert_events, ingest_server_event, ingest_server_batch,
}

-- The event is in the inbox.
abbrev pub IsStored : Db → IncomingEvent × ℕ → Type 0
IsStored db (event, now) = exists_where (is_event event.event_id) db.inbox ≡ true

insert_event_stores :
    (id conversation body : Bytes) (now : ℕ) (db : Db)
    → exists_where (is_event id) (insert_event id conversation body now db).1.inbox ≡ true
unfolding insert_event exists_where
insert_event_stores id conversation body now db =
    elim (Bool-cases (exists_where (is_event id) db.inbox)) [
      | inl e ↦ rw e e
      | inr e ↦ rw e (rw exists_where-append (rw (e, bytes_eq_refl id) refl))
    ]

insert_event_keeps :
    (id conversation body : Bytes) (now : ℕ) (db : Db) (other : Bytes)
    → exists_where (is_event other) db.inbox ≡ true
    → exists_where (is_event other) (insert_event id conversation body now db).1.inbox ≡ true
unfolding insert_event
insert_event_keeps id conversation body now db other h =
    elim (Bool-cases (exists_where (is_event id) db.inbox)) [
      | inl e ↦ rw e h
      | inr e ↦ rw e (rw exists_where-append (rw h refl))
    ]

insert_event_counts :
    (id conversation body : Bytes) (now : ℕ) (db : Db)
    → length (insert_event id conversation body now db).1.inbox
      ≡ length db.inbox + (insert_event id conversation body now db).0
unfolding insert_event
insert_event_counts id conversation body now db =
    elim (Bool-cases (exists_where (is_event id) db.inbox)) [
      | inl e ↦ rw e (omega arith)
      | inr e ↦ rw e (rw length-append (omega arith))
    ]

insert_event_stored :
    (id conversation body : Bytes) (now : ℕ) (db : Db)
    → exists_where (is_event id) db.inbox ≡ true
    → insert_event id conversation body now db ≡ (0, db)
unfolding insert_event
insert_event_stored id conversation body now db h = rw h refl

-- An event that was just ingested is not new a second time, and the second call changes nothing.
pub ingest_server_event_twice :
    (id conversation body conversation' body' : Bytes) (now now' : ℕ) (db : Db)
    → ingest_server_event id conversation' body' now'
        (ingest_server_event id conversation body now db).1
      ≡ (ok false, (ingest_server_event id conversation body now db).1)
unfolding ingest_server_event
ingest_server_event_twice id conversation body conversation' body' now now' db =
    rw
      (insert_event_stored id conversation' body' now' (insert_event id conversation body now db).1
        (insert_event_stores id conversation body now db))
      refl

insert_events_keeps :
    (n : ℕ) (events : List (IncomingEvent × ℕ)) (db : Db) (other : Bytes)
    → exists_where (is_event other) db.inbox ≡ true
    → exists_where (is_event other) (insert_events n events db).1.inbox ≡ true
unfolding insert_events
insert_events_keeps n [] db other h = h
insert_events_keeps n ((event, now) ∷ rest) db other h =
    let (changed, db') =
      insert_event event.event_id event.conversation_id event.encrypted_event now db in
    insert_events_keeps (n + changed) rest db' other
      (insert_event_keeps event.event_id event.conversation_id event.encrypted_event now db other h)

insert_events_stores :
    (n : ℕ) (events : List (IncomingEvent × ℕ)) (db : Db)
    → All (IsStored (insert_events n events db).1) events
unfolding insert_events
insert_events_stores n [] db = tt
insert_events_stores n ((event, now) ∷ rest) db =
    let (changed, db') =
      insert_event event.event_id event.conversation_id event.encrypted_event now db in
    (
      insert_events_keeps (n + changed) rest db' event.event_id
          (insert_event_stores event.event_id event.conversation_id event.encrypted_event now db),
      insert_events_stores (n + changed) rest db',
    )

insert_events_counts :
    (n : ℕ) (events : List (IncomingEvent × ℕ)) (db : Db)
    → length (insert_events n events db).1.inbox + n
      ≡ length db.inbox + (insert_events n events db).0
unfolding insert_events
insert_events_counts n [] db = refl
insert_events_counts n ((event, now) ∷ rest) db =
    let (changed, db') =
      insert_event event.event_id event.conversation_id event.encrypted_event now db in
    let one =
      insert_event_counts event.event_id event.conversation_id event.encrypted_event now db in
    let more = insert_events_counts (n + changed) rest db' in omega (arith, one, more)

insert_events_stored :
    (n : ℕ) (events : List (IncomingEvent × ℕ)) (db : Db)
    → All (IsStored db) events
    → insert_events n events db ≡ (n, db)
unfolding insert_events
insert_events_stored n [] db h = refl
insert_events_stored n ((event, now) ∷ rest) db h =
    rw (insert_event_stored event.event_id event.conversation_id event.encrypted_event now db h.0)
      (ap (λ k. insert_events k rest db) (ground arith) ∙ insert_events_stored n rest db h.1)

-- A batch of at most 50 events: the call returns the number of rows that the inbox grew by, every
-- event of the batch is then in the inbox, and the same batch again returns 0 and changes nothing.
pub ingest_server_batch_once :
    (events : List (IncomingEvent × ℕ)) (db : Db)
    → length events ≤ 50
    → (n : ℕ) × (db' : Db) × (ingest_server_batch events db ≡ (ok n, db'))
      × (length db'.inbox ≡ length db.inbox + n)
      × All (IsStored db') events
      × (ingest_server_batch events db' ≡ (ok 0, db'))
unfolding ingest_server_batch
ingest_server_batch_once events db small =
    let fits : ltb 50 (length events) ≡ false = ground arith in
    let (n, db') = insert_events 0 events db in
    let counted = insert_events_counts 0 events db in
    let stored = insert_events_stores 0 events db in
    (
      (insert_events 0 events db).0,
      (insert_events 0 events db).1,
      rw fits refl,
      omega (arith, counted),
      stored,
      rw fits (rw (insert_events_stored 0 events (insert_events 0 events db).1 stored) refl),
    )
