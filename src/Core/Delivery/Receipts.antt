-- ===== src/Core/Delivery/Receipts.antt =====
-- `apply_delivery_receipt` and `apply_read_receipt` of crates/messenger-core/src/lib.rs.
use resilient_messenger.Prelude.{
  max, ◌≡◌, refl, ap, ◌∙◌, inl, inr, true, ltb, Bool-cases, List, [], ◌∷◌, Bytes, some, ok, arith,
}
use resilient_messenger.Core.{MessageStatus, status_code, delivered, read, MessageRow, Db}
use resilient_messenger.Core.Sql.{update_where, find_where, exists_where}
use resilient_messenger.Core.Sql.Keys.{
  updated, find_where-update_where, exists_where-find_where-some, find_where_holds,
}
use resilient_messenger.Core.Messages.{is_message}
use resilient_messenger.Core.Delivery.{
  set_status, update_status, is_behind, advance_message_status, apply_delivery_receipt,
  apply_read_receipt,
}

pub advanced :
    (id : Bytes) (s : MessageStatus) (db : Db)
    → (advance_message_status id s db).1 ≡ update_status (is_behind id s) s db
unfolding advance_message_status
advanced id s db = ground arith

advance_ok :
    (id : Bytes) (s : MessageStatus) (db : Db)
    → exists_where (is_message id) db.messages ≡ true
    → (advance_message_status id s db).0 ≡ ok tt
unfolding advance_message_status
advance_ok id s db e = ground arith

-- A receipt for a stored message succeeds; the message then has the higher of its status and the
-- receipt's, in the order of the status codes, and the outbox is as before.
pub advance_message_status_raises :
    (id : Bytes) (s : MessageStatus) (db : Db) (m : MessageRow)
    → find_where (is_message id) db.messages ≡ some m
    → ((advance_message_status id s db).0 ≡ ok tt)
      × (find_where (is_message id) (advance_message_status id s db).1.messages
          ≡ some (set_status (max m.status (status_code s)) m))
      × ((advance_message_status id s db).1.outbox ≡ db.outbox)
unfolding update_status is_behind
advance_message_status_raises id s db m e =
    let f = set_status (status_code s) in
    let p = is_behind id s in
    let here : is_message id m ≡ true = find_where_holds (is_message id) db.messages e in
    let found : find_where (is_message id) (update_where p f db.messages) ≡ some (updated p f m) =
      find_where-update_where (is_message id) p f db.messages (λ x. refl) ∙ rw e refl in
    let raised : updated p f m ≡ set_status (max m.status (status_code s)) m =
      elim (Bool-cases (ltb m.status (status_code s))) [
        | inl k ↦
            let high : status_code s ≡ max m.status (status_code s) = ground arith in
            rw (here, k) (ap (λ n. set_status n m) high)
        | inr k ↦
            let low : m.status ≡ max m.status (status_code s) = ground arith in
            rw (here, k) (ap (λ n. set_status n m) low)
      ] in
    (
      advance_ok id s db (exists_where-find_where-some (is_message id) db.messages e),
      ap (λ (d : Db). find_where (is_message id) d.messages) (advanced id s db)
          ∙ found
          ∙ ap some raised,
      ap (λ (d : Db). d.outbox) (advanced id s db),
    )

-- A lower receipt after a higher one, or before it, adds nothing.
update_where_absorbs :
    (id : Bytes) (low high : MessageStatus) (ms : List MessageRow)
    → ltb (status_code low) (status_code high) ≡ true
    → (update_where
          (is_behind id high)
          (set_status (status_code high))
          (update_where (is_behind id low) (set_status (status_code low)) ms)
        ≡ update_where (is_behind id high) (set_status (status_code high)) ms)
      × (update_where
            (is_behind id low)
            (set_status (status_code low))
            (update_where (is_behind id high) (set_status (status_code high)) ms)
          ≡ update_where (is_behind id high) (set_status (status_code high)) ms)
unfolding update_where is_behind
update_where_absorbs id low high [] h = (refl, refl)
update_where_absorbs id low high (m ∷ ms) h =
    let rest = update_where_absorbs id low high ms h in
    (ground (arith, rest.0), ground (arith, rest.1))

-- The two receipts leave the messages that the read receipt alone leaves, in either order.
pub receipts_in_any_order :
    (id : Bytes) (db : Db)
    → ((apply_read_receipt id (apply_delivery_receipt id db).1).1.messages
        ≡ (apply_read_receipt id db).1.messages)
      × ((apply_delivery_receipt id (apply_read_receipt id db).1).1.messages
          ≡ (apply_read_receipt id db).1.messages)
unfolding apply_read_receipt apply_delivery_receipt update_status
receipts_in_any_order id db =
    let absorbed = update_where_absorbs id delivered read db.messages refl in
    rw (advanced id delivered db, advanced id read db)
      (
        ap (λ (d : Db). d.messages) (advanced id read _) ∙ absorbed.0,
        ap (λ (d : Db). d.messages) (advanced id delivered _) ∙ absorbed.1,
      )
