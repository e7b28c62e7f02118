-- ===== src/Core/Rotation/Texts.antt =====
-- `rotate_master_key` of crates/messenger-core/src/lib.rs and the texts of the messages, row by row.
use resilient_messenger.Prelude.{
  ℕ, suc, ◌+◌, ◌≡◌, refl, sym, ap, ◌∙◌, subst, inl, inr, false, leb, List, [], ◌∷◌, ◌++◌,
  append_assoc, Bytes, length, bytes_eq, bytes_eq_iff, bytes_eq_refl, sort_by, Pairs, Pairs-sort_by,
  ok, err, >>=-eq-ok, Result-cases, All, arith,
}
use resilient_messenger.Core.{CoreError, MessageRow, Db}
use resilient_messenger.Core.Sql.{
  update_where, select_where, Pairs-select_where, collect-Pairs, exists_where,
}
use resilient_messenger.Core.Cipher.{Aead, IsAead, encrypt, decrypt, decrypt-encrypt}
use resilient_messenger.Core.Messages.{is_message, list_messages, read_message, read_text}
use resilient_messenger.Core.Rotation.{
  MessengerCore, set_body, update_body, reencrypt, rotate_master_key,
}

-- The primary key of `messages`.
abbrev pub DistinctMessages : List MessageRow → Type 0
DistinctMessages [] = Unit
DistinctMessages (m ∷ ms) =
    (exists_where (is_message m.client_message_id) ms ≡ false) × DistinctMessages ms

-- No row has the identifier: an update by it changes nothing.
update_where_absent :
    (id body : Bytes) (ms : List MessageRow)
    → exists_where (is_message id) ms ≡ false
    → update_where (is_message id) (set_body body) ms ≡ ms
unfolding update_where exists_where
update_where_absent id body [] h = refl
update_where_absent id body (m ∷ ms) h = ground (arith, update_where_absent id body ms)

-- Where the rows before have other identifiers, the update changes the first row behind them.
update_where_at :
    (body : Bytes) (before : List MessageRow) (m : MessageRow) (ms : List MessageRow)
    → exists_where (is_message m.client_message_id) before ≡ false
    → exists_where (is_message m.client_message_id) ms ≡ false
    → update_where (is_message m.client_message_id) (set_body body) (before ++ m ∷ ms)
      ≡ before ++ set_body body m ∷ ms
unfolding update_where exists_where
update_where_at body [] m ms h k =
    rw (bytes_eq_refl m.client_message_id, update_where_absent m.client_message_id body ms k) refl
update_where_at body (b ∷ before) m ms h k = ground (arith, update_where_at body before m ms)

exists_where-append :
    (id : Bytes) (before : List MessageRow) (m : MessageRow)
    → exists_where (is_message id) before ≡ false
    → bytes_eq m.client_message_id id ≡ false
    → exists_where (is_message id) (before ++ m ∷ []) ≡ false
unfolding exists_where
exists_where-append id [] m h k = ground arith
exists_where-append id (b ∷ before) m h k = ground (arith, exists_where-append id before m)

-- No row of the list has an identifier that stands in `before`.
abbrev pub AreFresh : List MessageRow → List MessageRow → Type 0
AreFresh before rows = All (λ m. exists_where (is_message m.client_message_id) before ≡ false) rows

AreFresh-append :
    (before rows : List MessageRow) (x : MessageRow)
    → AreFresh before rows
    → exists_where (is_message x.client_message_id) rows ≡ false
    → AreFresh (before ++ x ∷ []) rows
unfolding exists_where
AreFresh-append before [] x h k = tt
AreFresh-append before (m ∷ rows) x h k =
    let other : bytes_eq x.client_message_id m.client_message_id ≡ false = ground (
      arith,
      bytes_eq_iff x.client_message_id m.client_message_id,
      bytes_eq_iff m.client_message_id x.client_message_id,
    ) in
    (
      exists_where-append m.client_message_id before x h.0 other,
      AreFresh-append before rows x h.1 (ground arith),
    )

module _ (aead : Aead) (active replacement : Bytes) where
  -- The row under the new key reads as the row did under the old one.
  record SameText (old new : MessageRow) : Type 0 where
    id : new.client_message_id ≡ old.client_message_id
    conversation : new.conversation_id ≡ old.conversation_id
    status : new.status ≡ old.status
    created : new.created_at_ms ≡ old.created_at_ms
    text : decrypt aead replacement new.body_ciphertext ≡ decrypt aead active old.body_ciphertext

  module _ (laws : IsAead aead) (nonces : ℕ → Bytes)
      (width : (i : ℕ) → length (nonces i) ≡ 24) where
    reencrypt-SameText :
        (i : ℕ) (rows before : List MessageRow) (db db' : Db)
        → db.messages ≡ before ++ rows
        → DistinctMessages rows
        → AreFresh before rows
        → reencrypt aead active replacement nonces i rows db ≡ ok db'
        → (rows' : List MessageRow) × (db'.messages ≡ before ++ rows') × Pairs SameText rows rows'
    unfolding reencrypt update_body
    reencrypt-SameText i [] before db db' at_db distinct fresh e =
        ([], (let same : db ≡ db' = cc in ap (λ (d : Db). d.messages) (sym same) ∙ at_db), tt)
    reencrypt-SameText i (row ∷ rest) before db db' at_db distinct fresh e =
        let (plaintext, opened, e1) = >>=-eq-ok (decrypt aead active row.body_ciphertext) _ e in
        let (body, sealed, e2) = >>=-eq-ok (encrypt aead replacement (nonces i) plaintext) _ e1 in
        let x = set_body body row in
        let at_next : (update_body row.client_message_id body db).messages
            ≡ (before ++ x ∷ []) ++ rest =
          ap (update_where (is_message row.client_message_id) (set_body body)) at_db
          ∙ update_where_at body before row rest fresh.0 distinct.0
          ∙ sym (append_assoc before (x ∷ []) rest) in
        let (rest', at_end, same) =
          reencrypt-SameText (suc i) rest (before ++ x ∷ [])
            (update_body row.client_message_id body db) db' at_next distinct.1
            (AreFresh-append before rest x fresh.1 distinct.0) e2 in
        let text : SameText row x = record {
          id = refl;
          conversation = refl;
          status = refl;
          created = refl;
          text =
              decrypt-encrypt aead replacement (nonces i) plaintext body laws (width i) sealed
              ∙ sym opened;
        } in
        (x ∷ rest', at_end ∙ append_assoc before (x ∷ []) rest', (text, same))

  read-SameText :
      (x y : MessageRow)
      → SameText x y
      → read_message aead active x ≡ read_message aead replacement y
  unfolding read_message read_text
  read-SameText x y h = rw (h.id, h.status, h.created, h.text, h.conversation) refl

  list_messages-Pairs :
      (conversation : Bytes) (db db' : Db)
      → Pairs SameText db.messages db'.messages
      → list_messages aead active conversation db ≡ list_messages aead replacement conversation db'
  unfolding list_messages
  list_messages-Pairs conversation db db' h =
      let p = λ (m : MessageRow). bytes_eq m.conversation_id conversation in
      let le = λ (a b : MessageRow). leb a.created_at_ms b.created_at_ms in
      let picked =
        Pairs-select_where SameText p
          (λ x y r. ap (λ k. bytes_eq k conversation) (sym r.conversation)) db.messages db'.messages
          h in
      let sorted =
        Pairs-sort_by SameText le (λ x x' y y' r q. rw (r.created, q.created) refl)
          (select_where p db.messages) (select_where p db'.messages) picked in
      collect-Pairs SameText (read_message aead active) (read_message aead replacement)
        read-SameText (sort_by le (select_where p db.messages))
        (sort_by le (select_where p db'.messages)) sorted

AreFresh-nil : (rows : List MessageRow) → AreFresh [] rows
unfolding exists_where
AreFresh-nil [] = tt
AreFresh-nil (m ∷ rows) = (refl, AreFresh-nil rows)

module _ (aead : Aead) (nonces : ℕ → Bytes) (new_key : Bytes) (new_version : ℕ)
    (core core' : MessengerCore) where
  rotated :
      rotate_master_key aead nonces new_key new_version core ≡ (ok tt, core')
      → (db : Db) × (reencrypt aead core.master_key new_key nonces 0 core.db.messages core.db
          ≡ ok db)
        × (core' ≡ record { db = record db { key_version = new_version }; master_key = new_key })
        × (new_version ≡ core.db.key_version + 1)
  unfolding rotate_master_key
  rotated e =
      elim (Result-cases
        (reencrypt aead core.master_key new_key nonces 0 core.db.messages core.db)) [
          | inl (db, made) ↦ (db, made, ground arith, ground arith)
          | inr (x, failed) ↦ absurd (ground arith)
        ]

-- With a cipher that opens what it sealed, nonces of 24 bytes, and message identifiers that are
-- distinct: a rotation that succeeds makes the new key the active one, its version the next, and
-- every conversation lists the same messages, or the same error, as before.
pub rotate_master_key-list_messages :
    (aead : Aead) (nonces : ℕ → Bytes) (new_key : Bytes) (new_version : ℕ)
    (core core' : MessengerCore)
    → IsAead aead
    → ((i : ℕ) → length (nonces i) ≡ 24)
    → DistinctMessages core.db.messages
    → rotate_master_key aead nonces new_key new_version core ≡ (ok tt, core')
    → (core'.master_key ≡ new_key)
      × (core'.db.key_version ≡ core.db.key_version + 1)
      × ((conversation : Bytes)
          → list_messages aead core'.master_key conversation core'.db
            ≡ list_messages aead core.master_key conversation core.db)
rotate_master_key-list_messages aead nonces new_key new_version core core' laws width distinct e =
    let (db, made, same, next) = rotated aead nonces new_key new_version core core' e in
    let (rows, at_end, texts) =
      reencrypt-SameText aead core.master_key new_key laws nonces width 0 core.db.messages []
        core.db db refl distinct (AreFresh-nil core.db.messages) made in
    let pairs : Pairs (SameText aead core.master_key new_key) core.db.messages db.messages =
      subst (Pairs (SameText aead core.master_key new_key) core.db.messages) (sym at_end) texts in
    rw same (
      refl,
      next,
      λ conversation. sym (
          list_messages-Pairs aead core.master_key new_key conversation core.db
            (record db { key_version = new_version }) pairs),
    )

-- A rotation that fails, for whatever reason, changes neither the database nor the active key.
pub rotate_master_key-err :
    (aead : Aead) (nonces : ℕ → Bytes) (new_key : Bytes) (new_version : ℕ)
    (core core' : MessengerCore) (x : CoreError)
    → rotate_master_key aead nonces new_key new_version core ≡ (err x, core')
    → core' ≡ core
unfolding rotate_master_key
rotate_master_key-err aead nonces new_key new_version core core' x e =
    elim (Result-cases (reencrypt aead core.master_key new_key nonces 0 core.db.messages core.db)) [
      | inl (db, made) ↦ ground arith
      | inr (y, failed) ↦ ground arith
    ]
