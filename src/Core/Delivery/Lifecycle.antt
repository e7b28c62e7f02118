-- ===== src/Core/Delivery/Lifecycle.antt =====
-- The calls on one outgoing message in crates/messenger-core/src/lib.rs, one after another.
use resilient_messenger.Prelude.{
  ℕ, zero, suc, ◌<◌, ◌+◌, ◌^◌, ◌≤◌, min, ◌≡◌, refl, sym, ap, ◌∙◌, subst, inl, inr, true, false,
  ◌==◌, leb, Bool-cases, Option-cases, Bytes, some, ok, err, arith,
}
use resilient_messenger.Core.{
  not_found, invalid_transition, status_code, server_accepted, retry_scheduled, MessageRow,
  OutboxRow, Db,
}
use resilient_messenger.Core.Sql.{
  update_where, find_where, exists_where, delete_where, delete_where_none,
}
use resilient_messenger.Core.Sql.Keys.{
  find_where-update_where, find_where_holds, delete_where_absent,
}
use resilient_messenger.Core.Messages.{is_message, is_outbox}
use resilient_messenger.Core.Delivery.{
  set_status, update_status, mark_upload_accepted, retry_delay, retry_message, reschedule,
}
use resilient_messenger.Core.Delivery.Accepting.{
  accept_by_row, is_open, mark_upload_accepted-accept_by_row,
}
use resilient_messenger.Core.Rotation.Texts.{DistinctMessages}
use resilient_messenger.Core.Invariant.{KeepsKeys-set_status, DistinctMessages-update}

module _ (id : Bytes) (db : Db) (distinct : DistinctMessages db.messages) where
  accept_an_accepted :
      (m : MessageRow)
      → find_where (is_message id) db.messages ≡ some m
      → m.status ≡ status_code server_accepted
      → exists_where (is_outbox id) db.outbox ≡ false
      → mark_upload_accepted id db ≡ (ok tt, db)
  accept_an_accepted m e s gone =
      mark_upload_accepted-accept_by_row id db distinct
      ∙ rw e (rw s (rw (delete_where_absent (is_outbox id) db.outbox gone) refl))

  -- The database after an upload that was open is accepted.
  accepted_db : Db
  accepted_db = record db {
    messages = update_where (is_message id) (set_status (status_code server_accepted)) db.messages;
    outbox = delete_where (is_outbox id) db.outbox;
    revision = db.revision + 1;
  }

  accepted_db-find :
      (m : MessageRow)
      → find_where (is_message id) db.messages ≡ some m
      → find_where (is_message id) accepted_db.messages
        ≡ some (set_status (status_code server_accepted) m)
  unfolding accepted_db
  accepted_db-find m e =
      let here : is_message id m ≡ true = find_where_holds (is_message id) db.messages e in
      find_where-update_where (is_message id) (is_message id)
        (set_status (status_code server_accepted)) db.messages (λ x. refl)
      ∙ rw e (rw here refl)

  accepted_db-distinct : DistinctMessages accepted_db.messages
  unfolding accepted_db
  accepted_db-distinct =
      DistinctMessages-update (is_message id) (set_status (status_code server_accepted))
        (KeepsKeys-set_status (status_code server_accepted)) db.messages distinct

accepted_again :
    (id : Bytes) (db : Db) (distinct : DistinctMessages db.messages) (m : MessageRow)
    → find_where (is_message id) db.messages ≡ some m
    → mark_upload_accepted id (accepted_db id db distinct) ≡ (ok tt, accepted_db id db distinct)
unfolding accepted_db
accepted_again id db distinct m e =
    accept_an_accepted id (accepted_db id db distinct) (accepted_db-distinct id db distinct)
      (set_status (status_code server_accepted) m) (accepted_db-find id db distinct m e) refl
      (delete_where_none (is_outbox id) db.outbox)

-- With distinct message identifiers, an acknowledgement that succeeded succeeds when it is
-- repeated, and then changes nothing.
pub mark_upload_accepted_twice :
    (id : Bytes) (db db' : Db)
    → DistinctMessages db.messages
    → mark_upload_accepted id db ≡ (ok tt, db')
    → mark_upload_accepted id db' ≡ (ok tt, db')
unfolding accepted_db
mark_upload_accepted_twice id db db' distinct h =
    let by = mark_upload_accepted-accept_by_row id db distinct in
    elim (Option-cases (find_where (is_message id) db.messages)) [
      | inl e ↦
          (let failed : mark_upload_accepted id db ≡ (err not_found, db) = by ∙ rw e refl in
            absurd (ground arith))
      | inr (m, e) ↦
          let by_m : mark_upload_accepted id db ≡ accept_by_row id db (some m) = by ∙ rw e refl in
          elim (Bool-cases (is_open m.status)) [
            | inl k ↦
                let done : mark_upload_accepted id db ≡ (ok tt, accepted_db id db distinct) =
                  by_m ∙ rw k refl in
                let same : accepted_db id db distinct ≡ db' = ap (λ r. r.1) (sym done ∙ h) in
                subst (λ d. mark_upload_accepted id d ≡ (ok tt, d)) same
                  (accepted_again id db distinct m e)
            | inr k ↦ elim (Bool-cases (m.status == status_code server_accepted)) [
              | inr s ↦
                  (let failed : mark_upload_accepted id db ≡ (err invalid_transition, db) =
                      by_m ∙ rw (k, s) refl in
                    absurd (ground arith))
              | inl s ↦
                  let left = record db { outbox = delete_where (is_outbox id) db.outbox } in
                  let done : mark_upload_accepted id db ≡ (ok tt, left) = by_m ∙ rw (k, s) refl in
                  let same : left ≡ db' = ap (λ r. r.1) (sym done ∙ h) in
                  subst (λ d. mark_upload_accepted id d ≡ (ok tt, d)) same
                    (accept_an_accepted id left distinct m e (ground arith)
                      (delete_where_none (is_outbox id) db.outbox))
            ]
          ]
    ]

doubled : (k : ℕ) → k ≤ 10 → (1 ≤ 2 ^ k) × (2 ^ k ≤ 1024)
doubled zero h = omega arith
doubled (suc zero) h = omega arith
doubled (suc (suc zero)) h = omega arith
doubled (suc (suc (suc zero))) h = omega arith
doubled (suc (suc (suc (suc zero)))) h = omega arith
doubled (suc (suc (suc (suc (suc zero))))) h = omega arith
doubled (suc (suc (suc (suc (suc (suc zero)))))) h = omega arith
doubled (suc (suc (suc (suc (suc (suc (suc zero))))))) h = omega arith
doubled (suc (suc (suc (suc (suc (suc (suc (suc zero)))))))) h = omega arith
doubled (suc (suc (suc (suc (suc (suc (suc (suc (suc zero))))))))) h = omega arith
doubled (suc (suc (suc (suc (suc (suc (suc (suc (suc (suc zero)))))))))) h = omega arith
doubled (suc (suc (suc (suc (suc (suc (suc (suc (suc (suc (suc k))))))))))) h = absurd (omega arith)

retry_delay_bounds :
    (attempts : ℕ) → (1000 ≤ retry_delay attempts) × (retry_delay attempts ≤ 1024000)
retry_delay_bounds attempts =
    let (low, high) = doubled (min attempts 10) (omega arith) in (omega arith, omega arith)

-- A retry of a stored message that has an outbox row, its attempts a u32: the call succeeds, the
-- message's status is "retry scheduled" whatever it was, and its outbox row counts one more attempt
-- and is due 1 to 1,024 seconds from now.
pub retry_message_schedules :
    (id : Bytes) (now : ℕ) (db : Db) (o : OutboxRow) (m : MessageRow)
    → find_where (is_outbox id) db.outbox ≡ some o
    → o.attempts < 2 ^ 32
    → find_where (is_message id) db.messages ≡ some m
    → (due : ℕ) × ((retry_message id now db).0 ≡ ok tt)
      × (find_where (is_outbox id) (retry_message id now db).1.outbox
          ≡ some (record o { attempts = o.attempts + 1; next_attempt_at_ms = due }))
      × (find_where (is_message id) (retry_message id now db).1.messages
          ≡ some (set_status (status_code retry_scheduled) m))
      × (now + 1000 ≤ due)
      × (due ≤ now + 1024000)
unfolding retry_message reschedule update_status
retry_message_schedules id now db o m queued small stored =
    let fits : leb (2 ^ 32) o.attempts ≡ false = ground arith in
    let here : is_outbox id o ≡ true = find_where_holds (is_outbox id) db.outbox queued in
    let there : is_message id m ≡ true = find_where_holds (is_message id) db.messages stored in
    let f = λ (x : OutboxRow). record x {
      attempts = x.attempts + 1;
      next_attempt_at_ms = now + retry_delay o.attempts;
    } in
    let (low, high) = retry_delay_bounds o.attempts in
    rw (queued, retry_message)
      (rw fits (
        now + retry_delay o.attempts,
        refl,
        find_where-update_where (is_outbox id) (is_outbox id) f db.outbox (λ x. refl)
            ∙ rw queued (rw here refl),
        find_where-update_where (is_message id) (is_message id)
              (set_status (status_code retry_scheduled)) db.messages (λ x. refl)
            ∙ rw stored (rw there refl),
        omega arith,
        omega arith,
      ))
