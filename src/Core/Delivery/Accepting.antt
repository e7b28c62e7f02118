-- ===== src/Core/Delivery/Accepting.antt =====
-- `mark_upload_accepted` of crates/messenger-core/src/lib.rs by the status of the message.
use resilient_messenger.Prelude.{
  ℕ, ◌+◌, ◌≡◌, refl, ap, ◌∙◌, inl, inr, Bool, true, false, ◌||◌, ◌==◌, Bool-cases, Option-cases,
  List, [], ◌∷◌, Bytes, bytes_eq_iff, Option, none, some, Result, ok, err, arith, if◌then◌else◌,
}
use resilient_messenger.Core.{
  CoreError, not_found, invalid_transition, status_code, ready_to_upload, uploading,
  server_accepted, retry_scheduled, MessageRow, Db,
}
use resilient_messenger.Core.Sql.{update_where, count_where, find_where, delete_where}
use resilient_messenger.Core.Sql.Keys.{
  AtMostOne, updated?, count_found, find_where-update_where, count_where-find_where,
  update_where_none, update_where_narrow, find_where_holds,
}
use resilient_messenger.Core.Messages.{in_transaction, is_message, is_outbox}
use resilient_messenger.Core.Delivery.{
  set_status, update_status, delete_outbox, in_status, check_accepted, accept_upload,
  mark_upload_accepted,
}
use resilient_messenger.Core.Rotation.Texts.{DistinctMessages}

pub AtMostOne-DistinctMessages :
    (id : Bytes) (ms : List MessageRow) → DistinctMessages ms → AtMostOne (is_message id) ms
AtMostOne-DistinctMessages id [] h = tt
AtMostOne-DistinctMessages id (m ∷ ms) h = (
  λ e.
      let same : m.client_message_id ≡ id = ground (arith, bytes_eq_iff m.client_message_id id) in
      rw same at h.0,
  AtMostOne-DistinctMessages id ms h.1,
)

-- The upload of a message in this status is still open.
abbrev pub is_open : ℕ → Bool
is_open s =
    s == status_code ready_to_upload
    || s == status_code uploading
    || s == status_code retry_scheduled

-- What accepting does, by the row of the message.
abbrev pub accept_by_row : Bytes → Db → Option MessageRow → Result CoreError (Unit {0}) × Db
accept_by_row id db none = (err not_found, db)
accept_by_row id db (some m) =
    if is_open m.status
    then (
      ok tt,
      record db {
        messages =
            update_where (is_message id) (set_status (status_code server_accepted)) db.messages;
        outbox = delete_where (is_outbox id) db.outbox;
        revision = db.revision + 1;
      },
    )
    else if m.status == status_code server_accepted
    then (ok tt, record db { outbox = delete_where (is_outbox id) db.outbox })
    else (err invalid_transition, db)

abbrev clause : Bytes → MessageRow → Bool
clause id = in_status id ready_to_upload uploading retry_scheduled

clause_only : (id : Bytes) (m : MessageRow) → clause id m ≡ true → is_message id m ≡ true
unfolding in_status
clause_only id m h = ground arith

-- The test that follows the update.
abbrev check_of : Bytes → Db → Result CoreError (Unit {0})
check_of id db = check_accepted (count_where (clause id) db.messages) (
    find_where (is_message id)
      (update_where (clause id) (set_status (status_code server_accepted)) db.messages))

accept_upload_ok :
    (id : Bytes) (db : Db)
    → check_of id db ≡ ok tt
    → accept_upload id db ≡ ok (tt, delete_outbox id (update_status (clause id) server_accepted db))
unfolding accept_upload update_status
accept_upload_ok id db e = rw (e, accept_upload) refl

accept_upload_err :
    (id : Bytes) (db : Db) (x : CoreError) → check_of id db ≡ err x → accept_upload id db ≡ err x
unfolding accept_upload update_status
accept_upload_err id db x e = rw (e, accept_upload) refl

accepted_by_check :
    (id : Bytes) (db : Db)
    → check_of id db ≡ ok tt
    → mark_upload_accepted id db
      ≡ (ok tt, delete_outbox id (update_status (clause id) server_accepted db))
unfolding mark_upload_accepted in_transaction
accepted_by_check id db e = rw (accept_upload_ok id db e, in_transaction) refl

refused_by_check :
    (id : Bytes) (db : Db) (x : CoreError)
    → check_of id db ≡ err x
    → mark_upload_accepted id db ≡ (err x, db)
unfolding mark_upload_accepted in_transaction
refused_by_check id db x e = rw (accept_upload_err id db x e, in_transaction) refl

-- The number of updated rows and the row found, by the row before.
check_by_row :
    (id : Bytes) (db : Db)
    → DistinctMessages db.messages
    → check_of id db
      ≡ check_accepted (count_found (clause id) (find_where (is_message id) db.messages)) (
          updated?
            (clause id)
            (set_status (status_code server_accepted))
            (find_where (is_message id) db.messages))
check_by_row id db distinct =
    let q = is_message id in
    let found =
      find_where-update_where q (clause id) (set_status (status_code server_accepted)) db.messages
        (λ m. refl) in
    let one = AtMostOne-DistinctMessages id db.messages distinct in
    rw (found, count_where-find_where q (clause id) db.messages (clause_only id) one) refl

module _ (id : Bytes) (db : Db) (distinct : DistinctMessages db.messages) where
  unchanged :
      (m : MessageRow)
      → find_where (is_message id) db.messages ≡ some m
      → clause id m ≡ false
      → update_status (clause id) server_accepted db ≡ db
  unfolding update_status
  unchanged m e k =
      let one = AtMostOne-DistinctMessages id db.messages distinct in
      let none_met : count_where (clause id) db.messages ≡ 0 =
        count_where-find_where (is_message id) (clause id) db.messages (clause_only id) one
        ∙ rw e (rw k refl) in
      rw
        (
          none_met,
          update_where_none (clause id) (set_status (status_code server_accepted)) db.messages
              none_met,
        )
        (ap (λ n. record db { revision = n }) (ground arith))

  changed :
      (m : MessageRow)
      → find_where (is_message id) db.messages ≡ some m
      → clause id m ≡ true
      → update_status (clause id) server_accepted db ≡ record db {
        messages =
            update_where (is_message id) (set_status (status_code server_accepted)) db.messages;
        revision = db.revision + 1;
      }
  unfolding update_status
  changed m e k =
      let one = AtMostOne-DistinctMessages id db.messages distinct in
      let one_met : count_where (clause id) db.messages ≡ 1 =
        count_where-find_where (is_message id) (clause id) db.messages (clause_only id) one
        ∙ rw e (rw k refl) in
      rw
        (
          one_met,
          update_where_narrow (is_message id) (clause id) (set_status (status_code server_accepted))
              db.messages (clause_only id) one e k,
        )
        refl

  by_found :
      (m : MessageRow)
      → find_where (is_message id) db.messages ≡ some m
      → mark_upload_accepted id db ≡ accept_by_row id db (some m)
  unfolding check_accepted delete_outbox in_status
  by_found m e =
      let here : is_message id m ≡ true = find_where_holds (is_message id) db.messages e in
      let check : check_of id db
          ≡ check_accepted (count_found (clause id) (some m))
              (updated? (clause id) (set_status (status_code server_accepted)) (some m)) =
        check_by_row id db distinct ∙ rw e refl in
      elim (Bool-cases (clause id m)) [
        | inl k ↦
            let still : is_open m.status ≡ true = ground arith in
            let passed : check_of id db ≡ ok tt = check ∙ rw k refl in
            accepted_by_check id db passed ∙ rw (changed m e k, still) refl
        | inr k ↦
            let closed : is_open m.status ≡ false = ground arith in
            elim (Bool-cases (m.status == status_code server_accepted)) [
              | inl s ↦
                  let passed : check_of id db ≡ ok tt = check ∙ rw (k, s) refl in
                  accepted_by_check id db passed ∙ rw (unchanged m e k, closed, s) refl
              | inr s ↦
                  let failed : check_of id db ≡ err invalid_transition = check ∙ rw (k, s) refl in
                  refused_by_check id db invalid_transition failed ∙ rw (closed, s) refl
            ]
      ]

-- With distinct message identifiers, the call does what the message's row says: a message whose
-- upload is open becomes accepted and leaves the outbox, an accepted one only leaves the outbox,
-- any other status and a missing message are errors that change nothing.
pub mark_upload_accepted-accept_by_row :
    (id : Bytes) (db : Db)
    → DistinctMessages db.messages
    → mark_upload_accepted id db ≡ accept_by_row id db (find_where (is_message id) db.messages)
unfolding check_accepted
mark_upload_accepted-accept_by_row id db distinct =
    elim (Option-cases (find_where (is_message id) db.messages)) [
      | inl e ↦
          let failed : check_of id db ≡ err not_found = check_by_row id db distinct ∙ rw e refl in
          refused_by_check id db not_found failed ∙ rw e refl
      | inr (m, e) ↦ by_found id db distinct m e ∙ rw e refl
    ]
