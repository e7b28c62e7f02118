-- ===== src/Api/Usernames/Unique.antt =====
-- That usernames stay unique in services/core-api/src/lib.rs.
use resilient_messenger.Prelude.{
  ℕ, ◌≡◌, refl, Bool, true, false, List, [], ◌∷◌, Bytes, bytes_eq_iff, Option, none, some, ok_or,
  Result, ok, ◌>>=◌, >>=-eq-ok, arith, subst, inl, inr, Bool-cases, Result-cases,
}
use resilient_messenger.Core.Sql.{
  exists_where, update_where, delete_where, exists_where-update_where-false,
}
use resilient_messenger.Core.Sql.Keys.{
  AtMostOne, AtMostOne-delete_where, AtMostOne-append_new, AtMostOne-update_where,
}
use resilient_messenger.Api.{ApiError, conflict, invalid_input, database, UsernameRow, Backend}
use resilient_messenger.Api.Groups.{in_transaction}
use resilient_messenger.Api.Usernames.{
  is_name, is_active_name_of, has_conflict, set_released, add_name, release_name, insert_name,
  drop_cooled, claim_once, current_name, drop_released, release_current, is_current, change_once,
  checked_name, claim_username, change_username, release_username,
}

-- A name has one row, and an account one active name.
pub record IsNames (rows : List UsernameRow) : Type 0 where
  pub one_row : (name : List ℕ) → AtMostOne (is_name name) rows
  pub one_active : (account : Bytes) → AtMostOne (is_active_name_of account) rows

-- An update that adds no row to the clause.
AtMostOne-update_where-fewer :
    {A : Type 0} (q p : A → Bool) (f : A → A) (xs : List A)
    → ((y : A) → q (f y) ≡ true → q y ≡ true)
    → AtMostOne q xs
    → AtMostOne q (update_where p f xs)
unfolding update_where
AtMostOne-update_where-fewer q p f [] fewer h = tt
AtMostOne-update_where-fewer q p f (x ∷ xs) fewer h = (
  λ e.
      exists_where-update_where-false q p f xs (λ y no here. ground (arith, fewer y))
        (h.0 (elim (Bool-cases (p x)) [
          | inl here ↦ fewer x (rw here at e)
          | inr there ↦ rw there at e
        ])),
  AtMostOne-update_where-fewer q p f xs fewer h.1,
)

release_name-IsNames :
    (name : List ℕ) (account : Bytes) (now : ℕ) (db : Backend)
    → IsNames db.usernames
    → IsNames (release_name name account now db).usernames
unfolding release_name
release_name-IsNames name account now db h = record {
  one_row = λ n.
      AtMostOne-update_where (is_name n) (is_name name) (set_released now) db.usernames (λ y. refl)
        (h.one_row n);
  one_active = λ a.
      AtMostOne-update_where-fewer (is_active_name_of a) (is_name name) (set_released now)
        db.usernames (λ y e. ground arith) (h.one_active a);
}

dropped-IsNames :
    (p : UsernameRow → Bool) (rows : List UsernameRow)
    → IsNames rows
    → IsNames (delete_where p rows)
dropped-IsNames p rows h = record {
  one_row = λ n. AtMostOne-delete_where (is_name n) p rows (h.one_row n);
  one_active = λ a. AtMostOne-delete_where (is_active_name_of a) p rows (h.one_active a);
}

-- The constraints of the table guard the insertion.
pub insert_name-eq-ok :
    (name : List ℕ) (account : Bytes) (taken : ApiError) (db db' : Backend)
    → insert_name name account taken db ≡ ok db'
    → (exists_where (is_name name) db.usernames ≡ false)
      × (exists_where (is_active_name_of account) db.usernames ≡ false)
      × (db' ≡ add_name name account db)
unfolding insert_name has_conflict
insert_name-eq-ok name account taken db db' e = ground arith

insert_name-IsNames :
    (name : List ℕ) (account : Bytes) (taken : ApiError) (db db' : Backend)
    → insert_name name account taken db ≡ ok db'
    → IsNames db.usernames
    → IsNames db'.usernames
insert_name-IsNames name account taken db db' e h =
    let (no_row, no_active, is_db') = insert_name-eq-ok name account taken db db' e in
    rw is_db' (
      unfold add_name in
      record {
        one_row = λ n.
            AtMostOne-append_new (is_name n) db.usernames
              (record { canonical_username = name; account_id = account; released_at = none })
              (λ k.
                subst (λ m. exists_where (is_name m) db.usernames ≡ false)
                  ((bytes_eq_iff name n).0 k) no_row)
              (h.one_row n);
        one_active = λ a.
            AtMostOne-append_new (is_active_name_of a) db.usernames
              (record { canonical_username = name; account_id = account; released_at = none })
              (λ k.
                subst (λ m. exists_where (is_active_name_of m) db.usernames ≡ false)
                  ((bytes_eq_iff account a).0 (ground arith)) no_active)
              (h.one_active a);
      })

pub claim_once-eq-ok :
    (name given : List ℕ) (account : Bytes) (now : ℕ) (db db' : Backend)
    → claim_once name account now db ≡ ok (given, db')
    → (given ≡ name) × (insert_name name account conflict (drop_cooled name now db) ≡ ok db')
unfolding claim_once
claim_once-eq-ok name given account now db db' e =
    let (db1, made, last) =
      >>=-eq-ok (insert_name name account conflict (drop_cooled name now db)) _ e in
    let same : db1 ≡ db' = ground arith in (ground arith, rw (← same) made)

release_current-IsNames :
    (current : Option (List ℕ)) (account : Bytes) (now : ℕ) (db : Backend)
    → IsNames db.usernames
    → IsNames (release_current current account now db).usernames
unfolding release_current
release_current-IsNames none account now db h = h
release_current-IsNames (some old) account now db h = release_name-IsNames old account now db h

pub change_inserts :
    (name given : List ℕ) (account : Bytes) (now : ℕ) (db db' : Backend)
    → change_once name account now db ≡ ok (given, db')
    → is_current (current_name account db) name ≡ false
    → insert_name name account database
        (release_current (current_name account db) account now (drop_released name db))
      ≡ ok db'
unfolding change_once
change_inserts name given account now db db' e other =
    let before = release_current (current_name account db) account now (drop_released name db) in
    elim (Result-cases (insert_name name account database before)) [
      | inl (db1, made) ↦ (let same : db1 ≡ db' = ground arith in rw (← same) made)
      | inr (x, failed) ↦ ground arith
    ]

change_once-IsNames :
    (name given : List ℕ) (account : Bytes) (now : ℕ) (db db' : Backend)
    → change_once name account now db ≡ ok (given, db')
    → IsNames db.usernames
    → IsNames db'.usernames
unfolding change_once
change_once-IsNames name given account now db db' e h =
    elim (Bool-cases (is_current (current_name account db) name)) [
      | inl same ↦ (let kept : db ≡ db' = ground arith in rw (← kept) h)
      | inr other ↦
          (let before =
              release_current (current_name account db) account now (drop_released name db) in
            let made : insert_name name account database before ≡ ok db' =
              change_inserts name given account now db db' e other in
            insert_name-IsNames name account database before db' made (
              release_current-IsNames (current_name account db) account now (drop_released name db)
                (unfold drop_released in dropped-IsNames _ db.usernames h)))
    ]

-- A body that keeps a property keeps it as a transaction.
pub in_transaction-keeps :
    {A : Type 0} (P : Backend → Type 0) (body : Backend → Result ApiError (A × Backend))
    (db : Backend)
    → P db
    → ((a : A) (db' : Backend) → body db ≡ ok (a, db') → P db')
    → P (in_transaction body db).1
unfolding in_transaction
in_transaction-keeps P body db h keep = elim (Result-cases (body db)) [
  | inl ((a, db'), e) ↦ rw (e, in_transaction) (keep a db' e)
  | inr (x, e) ↦ rw (e, in_transaction) h
]

-- From a table where each name has one row and each account at most one active name, claiming,
-- changing and releasing a username lead to such a table, whatever the answer is.
pub usernames_stay_unique :
    (fold : List ℕ → List ℕ) (account : Bytes) (requested : List ℕ) (now : ℕ) (db : Backend)
    → IsNames db.usernames
    → IsNames (claim_username fold account requested now db).1.usernames
      × IsNames (change_username fold account requested now db).1.usernames
      × IsNames (release_username account now db).1.usernames
unfolding claim_username change_username release_username
usernames_stay_unique fold account requested now db h = (
  in_transaction-keeps (λ b. IsNames b.usernames) _ db h (λ given db' e. claimed given db' e),
  in_transaction-keeps (λ b. IsNames b.usernames) _ db h (λ given db' e. changed given db' e),
  in_transaction-keeps (λ b. IsNames b.usernames) _ db h (λ u db' e. freed u db' e),
)
  where
    claimed :
        (given : List ℕ) (db' : Backend)
        → (checked_name fold requested >>= λ name. claim_once name account now db) ≡ ok (given, db')
        → IsNames db'.usernames
    claimed given db' e =
        let (name, _, e1) = >>=-eq-ok (checked_name fold requested) _ e in
        let (_, made) = claim_once-eq-ok name given account now db db' e1 in
        insert_name-IsNames name account conflict (drop_cooled name now db) db' made
          (unfold drop_cooled in dropped-IsNames _ db.usernames h)

    changed :
        (given : List ℕ) (db' : Backend)
        → (checked_name fold requested >>= λ name. change_once name account now db)
          ≡ ok (given, db')
        → IsNames db'.usernames
    changed given db' e =
        let (name, _, e1) = >>=-eq-ok (checked_name fold requested) _ e in
        change_once-IsNames name given account now db db' e1 h

    freed :
        (u : Unit {0}) (db' : Backend)
        → ◌>>=◌ {B = Unit {0} × Backend}
            (ok_or invalid_input (current_name account db))
            (λ current. ok (tt, release_name current account now db))
          ≡ ok (u, db')
        → IsNames db'.usernames
    freed u db' e =
        let (current, _, e1) = >>=-eq-ok (ok_or invalid_input (current_name account db)) _ e in
        let same : release_name current account now db ≡ db' = ground arith in
        rw (← same) (release_name-IsNames current account now db h)
