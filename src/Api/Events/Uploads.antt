-- ===== src/Api/Events/Uploads.antt =====
-- `upload_event` of services/core-api/src/lib.rs, by what it finds in the log of events.
use resilient_messenger.Prelude.{
  ℕ, ◌+◌, ◌<◌, ◌≡◌, refl, sym, ap, ◌∙◌, inl, inr, ◌⊎◌, true, false, ◌&&◌, Bool-cases, Option-cases,
  Result-cases, List, [], ◌∷◌, ◌++◌, All, All-append, All-weaken, bytes_eq, bytes_eq_refl, none,
  some, Result, ok, err, arith, if◌then◌else◌,
}
use resilient_messenger.Core.Sql.{exists_where, find_where}
use resilient_messenger.Core.Sql.Keys.{exists_where-find_where-none, find_where-append_new}
use resilient_messenger.Api.{
  ApiError, conflict, database, UploadedEvent, UploadAccepted, EventRow, Backend,
}
use resilient_messenger.Api.Groups.{assert_active_member}
use resilient_messenger.Api.Events.{
  is_event, is_from, check_correlation, event_row, store_event, store_once, check_upload,
  upload_event,
}

-- The tables that the checks read are as before.
check_upload_same :
    (e : UploadedEvent) (db : Backend) (events : List EventRow) (n : ℕ)
    → check_upload e (record db { events = events; next_cursor = n }) ≡ check_upload e db
unfolding check_upload check_correlation assert_active_member
check_upload_same e db events n = refl

abbrev Stored :
    Result ApiError UploadAccepted × Backend → Result ApiError UploadAccepted × Backend → Type 0
Stored a b = a ≡ b

-- The tables after a new event.
abbrev pub stored_db : UploadedEvent → ℕ → Backend → Backend
stored_db e now db = record db {
  events = db.events ++ event_row e db.next_cursor now ∷ [];
  next_cursor = db.next_cursor + 1;
}

-- What a call that succeeded did: it found the event, or stored it under the next cursor.
pub upload_event-ok :
    (e : UploadedEvent) (now : ℕ) (db db' : Backend) (r : UploadAccepted)
    → upload_event e now db ≡ (ok r, db')
    → (check_upload e db ≡ ok tt)
      × (((old : EventRow) × (find_where (is_from e.author_device_id e.client_message_id) db.events
              ≡ some old)
            × ((bytes_eq old.event_id e.event_id && bytes_eq old.ciphertext e.ciphertext) ≡ true)
            × (r ≡ record { cursor = old.event_cursor; duplicate = true })
            × (db' ≡ db))
          ⊎ (find_where (is_from e.author_device_id e.client_message_id) db.events ≡ none)
            × (r ≡ record { cursor = db.next_cursor; duplicate = false })
            × (db' ≡ stored_db e now db))
unfolding upload_event store_once store_event
upload_event-ok e now db db' r h = elim (Result-cases (check_upload e db)) [
  | inr (x, f) ↦
      (let g : Stored (err x, db) (ok r, db') = rw (f, upload_event) at h in absurd (ground arith))
  | inl (u, f) ↦
      let g : store_once e now db ≡ (ok r, db') = rw (f, upload_event) at h in
      elim (Option-cases (find_where (is_from e.author_device_id e.client_message_id) db.events)) [
        | inl k ↦
            let stored : store_event e now db ≡ (ok r, db') = rw (k, store_once) at g in
            elim (Bool-cases (exists_where (is_event e.event_id) db.events)) [
              | inl taken ↦
                  (let no : Stored (err database, record db { next_cursor = db.next_cursor + 1 })
                        (ok r, db') =
                      rw taken at stored in
                    absurd (ground arith))
              | inr new ↦
                  let made : Stored
                      (
                        ok (record { cursor = db.next_cursor; duplicate = false }),
                        stored_db e now db,
                      )
                      (ok r, db') =
                    rw new at stored in
                  (
                    f,
                    inr (
                      k,
                      ground arith,
                      ap (λ (p : Result ApiError UploadAccepted × Backend). p.1) (sym made),
                    ),
                  )
            ]
        | inr (old, k) ↦
            let again : Stored
                (if bytes_eq old.event_id e.event_id && bytes_eq old.ciphertext e.ciphertext
                  then (ok (record { cursor = old.event_cursor; duplicate = true }), db)
                  else (err conflict, db))
                (ok r, db') =
              rw (k, store_once) at g in
            elim (Bool-cases
              (bytes_eq old.event_id e.event_id && bytes_eq old.ciphertext e.ciphertext)) [
                | inr other ↦
                    (let no : Stored (err conflict, db) (ok r, db') = rw other at again in
                      absurd (ground arith))
                | inl same ↦
                    let seen : Stored
                        (ok (record { cursor = old.event_cursor; duplicate = true }), db)
                        (ok r, db') =
                      rw same at again in
                    (
                      f,
                      inl (
                        old,
                        k,
                        same,
                        ground arith,
                        ap (λ (p : Result ApiError UploadAccepted × Backend). p.1) (sym seen),
                      ),
                    )
              ]
      ]
]

found_again :
    (e : UploadedEvent) (now : ℕ) (db : Backend) (old : EventRow)
    → check_upload e db ≡ ok tt
    → find_where (is_from e.author_device_id e.client_message_id) db.events ≡ some old
    → (bytes_eq old.event_id e.event_id && bytes_eq old.ciphertext e.ciphertext) ≡ true
    → upload_event e now db ≡ (ok (record { cursor = old.event_cursor; duplicate = true }), db)
unfolding upload_event store_once
found_again e now db old checked k same =
    rw (checked, upload_event) (rw (k, store_once) (rw same refl))

-- A call that stored an event, or that found it, finds it when it is repeated: the same cursor comes
-- back, marked as a duplicate, and nothing changes.
pub upload_event_twice :
    (e : UploadedEvent) (now later : ℕ) (db db' : Backend) (r : UploadAccepted)
    → upload_event e now db ≡ (ok r, db')
    → upload_event e later db' ≡ (ok (record { cursor = r.cursor; duplicate = true }), db')
unfolding upload_event store_once
upload_event_twice e now later db db' r h =
    let (checked, ways) = upload_event-ok e now db db' r h in
    elim ways [
      | inl (old, k, same, r_is, db_is) ↦
          rw (db_is, r_is) (found_again e later db old checked k same)
      | inr (k, r_is, db_is) ↦
          rw (db_is, r_is)
            (found_again e later (stored_db e now db) (event_row e db.next_cursor now)
              (check_upload_same e db (stored_db e now db).events (stored_db e now db).next_cursor
                ∙ checked)
              (find_where-append_new (is_from e.author_device_id e.client_message_id) db.events
                (event_row e db.next_cursor now)
                (exists_where-find_where-none (is_from e.author_device_id e.client_message_id)
                  db.events k)
                (rw (bytes_eq_refl e.author_device_id, bytes_eq_refl e.client_message_id) refl))
              (rw (bytes_eq_refl e.event_id, bytes_eq_refl e.ciphertext) refl))
    ]

-- Every stored cursor is below the next one, and the cursors rise in the order of the table.
abbrev pub IsRising : List EventRow → Type 0
IsRising [] = Unit
IsRising (e ∷ es) = All (λ f. e.event_cursor < f.event_cursor) es × IsRising es

pub record IsLog (db : Backend) : Type 0 where
  pub below : All (λ e. e.event_cursor < db.next_cursor) db.events
  pub rising : IsRising db.events

IsRising-append :
    (es : List EventRow) (e : EventRow)
    → IsRising es
    → All (λ f. f.event_cursor < e.event_cursor) es
    → IsRising (es ++ e ∷ [])
IsRising-append [] e h below = (tt, tt)
IsRising-append (f ∷ es) e h below = (
  All-append (λ g. f.event_cursor < g.event_cursor) es (e ∷ []) h.0 (below.0, tt),
  IsRising-append es e h.1 below.1,
)

-- An upload that succeeds keeps the log in order, and the cursor it returns is the cursor of a
-- stored event of that author and message: a new one that is above all others, or an older one.
pub upload_event-IsLog :
    (e : UploadedEvent) (now : ℕ) (db db' : Backend) (r : UploadAccepted)
    → IsLog db
    → upload_event e now db ≡ (ok r, db')
    → IsLog db'
      × ((row : EventRow) × (find_where (is_from e.author_device_id e.client_message_id) db'.events
            ≡ some row)
          × (row.event_cursor ≡ r.cursor)
          × (r.duplicate ≡ false → All (λ f. f.event_cursor < r.cursor) db.events))
upload_event-IsLog e now db db' r h done =
    let (checked, ways) = upload_event-ok e now db db' r done in
    elim ways [
      | inl (old, k, same, r_is, db_is) ↦
          rw (db_is, r_is) (h, (old, k, refl, λ no. absurd (ground arith)))
      | inr (k, r_is, db_is) ↦
          let row = event_row e db.next_cursor now in
          rw (db_is, r_is)
            (
              record {
                below =
                    All-append (λ f. f.event_cursor < db.next_cursor + 1) db.events (row ∷ [])
                      (All-weaken (λ f. f.event_cursor < db.next_cursor) _ db.events
                        (λ f b. omega arith) h.below)
                      (omega arith, tt);
                rising = IsRising-append db.events row h.rising h.below;
              },
              (
                row,
                find_where-append_new (is_from e.author_device_id e.client_message_id) db.events row
                    (exists_where-find_where-none (is_from e.author_device_id e.client_message_id)
                      db.events k)
                    (rw (bytes_eq_refl e.author_device_id, bytes_eq_refl e.client_message_id) refl),
                refl,
                λ new. h.below,
              ),
            )
    ]
