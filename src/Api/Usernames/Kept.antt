-- ===== src/Api/Usernames/Kept.antt =====
-- A released username through the calls that come after it, in services/core-api/src/lib.rs.
use resilient_messenger.Prelude.{
  ℕ, ◌+◌, ◌<◌, ◌≡◌, refl, ◌∙◌, Bool, true, false, not, ◌&&◌, List, [], ◌∷◌, Bytes, bytes_eq,
  bytes_eq_iff, ltb, Option, none, some, ok, err, >>=-eq-ok, arith, All, All-append, inl, inr,
  Bool-cases, Option-cases,
}
use resilient_messenger.Core.Sql.{
  exists_where, update_where, delete_where, exists_where-append, exists_where-update_where,
  All-delete_where, All-update_where,
}
use resilient_messenger.Core.Account.{is_present}
use resilient_messenger.Api.{conflict, database, UsernameRow, CooldownRow, Backend}
use resilient_messenger.Api.Groups.{in_transaction}
use resilient_messenger.Api.Usernames.{
  cooldown, is_name, is_cooling, set_released, add_name, release_name, drop_cooled, claim_once,
  current_name, drop_released, release_current, is_current, change_once, checked_name,
  claim_username, change_username, exact_username_lookup, release_username,
}
use resilient_messenger.Api.Usernames.Cooldowns.{
  cools_until, released_cools, rows_released, exists_where_widen, claim_once_cooling,
  change_once_cooling, current_name-eq-some, nobody_has, nobody_is_found, lookup_absent,
}
use resilient_messenger.Api.Usernames.Unique.{
  insert_name-eq-ok, claim_once-eq-ok, change_inserts, in_transaction-keeps,
}

-- The name has a row, all its rows are released, and it cools until that time.
pub record Cools (name : List ℕ) (end : ℕ) (db : Backend) : Type 0 where
  pub row : exists_where (is_name name) db.usernames ≡ true
  pub gone : All (λ u. is_name name u ≡ true → is_present u.released_at ≡ false) db.usernames
  pub late : exists_where (cools_until name end) db.cooldowns ≡ true

module _ {A : Type 0} (q p : A → Bool) where
  -- Rows of the clause that another clause does not touch stay.
  exists_where-delete_where-apart :
      (xs : List A)
      → ((x : A) → q x ≡ true → p x ≡ false)
      → exists_where q xs ≡ true
      → exists_where q (delete_where p xs) ≡ true
  unfolding exists_where delete_where
  exists_where-delete_where-apart [] apart h = h
  exists_where-delete_where-apart (x ∷ xs) apart h =
      ground (arith, apart x, exists_where-delete_where-apart xs apart)

  exists_where-update_where-apart :
      (f : A → A) (xs : List A)
      → ((x : A) → q x ≡ true → p x ≡ false)
      → exists_where q xs ≡ true
      → exists_where q (update_where p f xs) ≡ true
  unfolding exists_where update_where
  exists_where-update_where-apart f [] apart h = h
  exists_where-update_where-apart f (x ∷ xs) apart h =
      ground (arith, apart x, exists_where-update_where-apart f xs apart)

names_apart :
    (n name u : List ℕ) → bytes_eq n name ≡ false → bytes_eq u name ≡ true → bytes_eq u n ≡ false
names_apart n name u other h =
    ground (arith, bytes_eq_iff n name, bytes_eq_iff u name, bytes_eq_iff u n)

module _ (name : List ℕ) (end : ℕ) where
  Cools-is_cooling :
      (t : ℕ) (db : Backend) → t < end → Cools name end db → is_cooling name t db ≡ true
  unfolding is_cooling
  Cools-is_cooling t db early h =
      exists_where_widen (cools_until name end)
        (λ c. bytes_eq c.canonical_username name && ltb t c.release_after) db.cooldowns
        (λ c e. ground arith) h.late

  pub released-Cools :
      (account : Bytes) (now : ℕ) (db : Backend)
      → end ≡ now + cooldown
      → exists_where (is_name name) db.usernames ≡ true
      → Cools name end (release_name name account now db)
  unfolding release_name
  released-Cools account now db is row = record {
    row =
        exists_where-update_where (is_name name) (is_name name) (set_released now) db.usernames
          (λ u. refl)
        ∙ row;
    gone = rows_released name account now db db.usernames;
    late = rw is (released_cools name account now db);
  }

  module _ (n : List ℕ) (other : bytes_eq n name ≡ false) where
    -- What is done to rows of another name keeps the name cooling.
    delete-Cools :
        (p : UsernameRow → Bool) (db : Backend)
        → ((u : UsernameRow) → p u ≡ true → is_name n u ≡ true)
        → Cools name end db
        → Cools name end (record db { usernames = delete_where p db.usernames })
    delete-Cools p db only h = record {
      row =
          exists_where-delete_where-apart (is_name name) p db.usernames
            (λ u e.
              let apart = names_apart n name u.canonical_username other e in ground (arith, only u))
            h.row;
      gone = All-delete_where _ p db.usernames h.gone;
      late = h.late;
    }

    pub add_name-Cools :
        (account : Bytes) (db : Backend)
        → Cools name end db
        → Cools name end (add_name n account db)
    unfolding add_name
    add_name-Cools account db h =
        let row : UsernameRow = record {
          canonical_username = n;
          account_id = account;
          released_at = none;
        } in
        record {
          row = ground (arith, exists_where-append (is_name name) db.usernames (row ∷ []), h.row);
          gone =
              All-append (λ u. is_name name u ≡ true → is_present u.released_at ≡ false)
                db.usernames (row ∷ []) h.gone ((λ e. absurd (ground (arith, e))), tt);
          late = h.late;
        }

    release_name-Cools :
        (account : Bytes) (t : ℕ) (db : Backend)
        → Cools name end db
        → Cools name end (release_name n account t db)
    unfolding release_name
    release_name-Cools account t db h =
        let is_same = λ (c : CooldownRow). bytes_eq c.canonical_username n in
        let f = λ (c : CooldownRow). record c {
          previous_account_id = account;
          release_after = t + cooldown;
        } in
        let added : CooldownRow = record {
          canonical_username = n;
          previous_account_id = account;
          release_after = t + cooldown;
        } in
        record {
          row =
              exists_where-update_where (is_name name) (is_name n) (set_released t) db.usernames
                (λ u. refl)
              ∙ h.row;
          gone =
              All-update_where (λ u. is_name name u ≡ true → is_present u.released_at ≡ false)
                (is_name n) (set_released t) db.usernames (λ u e k m. refl) h.gone;
          late = elim (Bool-cases (exists_where is_same db.cooldowns)) [
            | inl old ↦ rw old (
                exists_where-update_where-apart (cools_until name end) is_same f db.cooldowns
                  (λ c e. names_apart n name c.canonical_username other (ground arith)) h.late)
            | inr new ↦
                rw
                  (
                    new,
                    exists_where-append (cools_until name end) db.cooldowns (added ∷ []),
                    h.late,
                  )
                  refl
          ];
        }

  release_current-Cools :
      (current : Option (List ℕ)) (account : Bytes) (t : ℕ) (db : Backend)
      → is_current current name ≡ false
      → Cools name end db
      → Cools name end (release_current current account t db)
  unfolding release_current
  release_current-Cools none account t db other h = h
  release_current-Cools (some old) account t db other h =
      release_name-Cools old other account t db h

  claim_once-Cools :
      (n given : List ℕ) (account : Bytes) (t : ℕ) (db db' : Backend)
      → t < end
      → Cools name end db
      → claim_once n account t db ≡ ok (given, db')
      → Cools name end db'
  claim_once-Cools n given account t db db' early h e = elim (Bool-cases (bytes_eq n name)) [
    | inl mine ↦
        (let is : n ≡ name = (bytes_eq_iff n name).0 mine in
          let refused : claim_once n account t db ≡ err conflict =
            rw is (claim_once_cooling name account t db h.row (Cools-is_cooling t db early h)) in
          absurd (ground arith))
    | inr other ↦
        (let (_, made) = claim_once-eq-ok n given account t db db' e in
          let (_, _, is) = insert_name-eq-ok n account conflict (drop_cooled n t db) db' made in
          rw is (
            add_name-Cools n other account (drop_cooled n t db) (
              unfold drop_cooled in
              delete-Cools n other
                (λ u. is_name n u && not (is_present u.released_at) && not (is_cooling n t db)) db
                (λ u k. ground arith) h)))
  ]

  change_once-Cools :
      (n given : List ℕ) (account : Bytes) (t : ℕ) (db db' : Backend)
      → t < end
      → Cools name end db
      → change_once n account t db ≡ ok (given, db')
      → Cools name end db'
  unfolding change_once
  change_once-Cools n given account t db db' early h e =
      let free = nobody_has account name db h.gone in
      elim (Bool-cases (bytes_eq n name)) [
        | inl mine ↦
            (let is : n ≡ name = (bytes_eq_iff n name).0 mine in
              let refused : change_once n account t db ≡ err conflict = rw is (
                change_once_cooling name account t db h.row (Cools-is_cooling t db early h) free) in
              absurd (ground arith))
        | inr other ↦ elim (Bool-cases (is_current (current_name account db) n)) [
          | inl same ↦ (let kept : db ≡ db' = ground arith in rw (← kept) h)
          | inr moves ↦
              (let before =
                  release_current (current_name account db) account t (drop_released n db) in
                let made = change_inserts n given account t db db' e moves in
                let (_, _, is) = insert_name-eq-ok n account database before db' made in
                rw is (
                  add_name-Cools n other account before (
                    release_current-Cools (current_name account db) account t (drop_released n db)
                      free
                      (unfold drop_released in
                        delete-Cools n other (λ u. is_name n u && not (is_present u.released_at)) db
                          (λ u k. ground arith) h))))
        ]
      ]

-- What calls of anyone, with any texts and at times before the limit, make of the backend.
pub data Later (fold : List ℕ → List ℕ) (limit : ℕ) (db : Backend) : Backend → Type 0 where
  now_on : Later fold limit db db
  claim :
      (account : Bytes) (requested : List ℕ) (t : ℕ) {b : Backend}
      → t < limit
      → Later fold limit db b
      → Later fold limit db (claim_username fold account requested t b).1
  change :
      (account : Bytes) (requested : List ℕ) (t : ℕ) {b : Backend}
      → t < limit
      → Later fold limit db b
      → Later fold limit db (change_username fold account requested t b).1
  release :
      (account : Bytes) (t : ℕ) {b : Backend}
      → Later fold limit db b
      → Later fold limit db (release_username account t b).1

module _ (fold : List ℕ → List ℕ) (name : List ℕ) (end : ℕ) where
  claim_username-Cools :
      (account : Bytes) (requested : List ℕ) (t : ℕ) (db : Backend)
      → t < end
      → Cools name end db
      → Cools name end (claim_username fold account requested t db).1
  unfolding claim_username
  claim_username-Cools account requested t db early h =
      in_transaction-keeps (Cools name end) _ db h (λ given db' e.
        let (n, _, e1) = >>=-eq-ok (checked_name fold requested) _ e in
        claim_once-Cools name end n given account t db db' early h e1)

  change_username-Cools :
      (account : Bytes) (requested : List ℕ) (t : ℕ) (db : Backend)
      → t < end
      → Cools name end db
      → Cools name end (change_username fold account requested t db).1
  unfolding change_username
  change_username-Cools account requested t db early h =
      in_transaction-keeps (Cools name end) _ db h (λ given db' e.
        let (n, _, e1) = >>=-eq-ok (checked_name fold requested) _ e in
        change_once-Cools name end n given account t db db' early h e1)

  release_username-Cools :
      (account : Bytes) (t : ℕ) (db : Backend)
      → Cools name end db
      → Cools name end (release_username account t db).1
  unfolding release_username in_transaction
  release_username-Cools account t db h =
      let free = nobody_has account name db h.gone in
      elim (Option-cases (current_name account db)) [
        | inl absent ↦ rw (absent, in_transaction) h
        | inr (old, current) ↦
            (let other : bytes_eq old name ≡ false = rw current at free in
              rw (current, in_transaction) (release_name-Cools name end old other account t db h))
      ]

  Later-Cools : {db b : Backend} → Cools name end db → Later fold end db b → Cools name end b
  Later-Cools h now_on = h
  Later-Cools h (claim account requested t {b = b} early r) =
      claim_username-Cools account requested t b early (Later-Cools h r)
  Later-Cools h (change account requested t {b = b} early r) =
      change_username-Cools account requested t b early (Later-Cools h r)
  Later-Cools h (release account t {b = b} r) = release_username-Cools account t b (Later-Cools h r)

  refused_while_cooling :
      (account : Bytes) (requested : List ℕ) (t : ℕ) (db : Backend)
      → checked_name fold requested ≡ ok name
      → t < end
      → Cools name end db
      → (claim_username fold account requested t db ≡ (err conflict, db))
        × (change_username fold account requested t db ≡ (err conflict, db))
        × (exact_username_lookup fold requested db ≡ ok none)
  unfolding claim_username change_username in_transaction
  refused_while_cooling account requested t db checks early h =
      let cools = Cools-is_cooling name end t db early h in
      (
        rw (checks, in_transaction) (rw (claim_once_cooling name account t db h.row cools) refl),
        rw (checks, in_transaction)
            (rw
              (change_once_cooling name account t db h.row cools
                (nobody_has account name db h.gone))
              refl),
        lookup_absent fold requested name db checks (nobody_is_found name db.usernames h.gone),
      )

-- A successful release frees the one active name of the account. From then on, through any claims,
-- changes and releases of usernames that anyone makes, one after another, in the next 30 days: in
-- these 30 days nobody can claim the name or change to it, and nobody is found under it.
pub release_username_cools :
    (fold : List ℕ → List ℕ) (account : Bytes) (now : ℕ) (db db' : Backend)
    → release_username account now db ≡ (ok tt, db')
    → (name : List ℕ) × (current_name account db ≡ some name)
      × ((b : Backend)
          → Later fold (now + cooldown) db' b
          → (account' : Bytes) (requested : List ℕ) (t : ℕ) → checked_name fold requested ≡ ok name
          → t < now + cooldown
          → (claim_username fold account' requested t b ≡ (err conflict, b))
            × (change_username fold account' requested t b ≡ (err conflict, b))
            × (exact_username_lookup fold requested b ≡ ok none))
unfolding release_username in_transaction
release_username_cools fold account now db db' e = elim (Option-cases (current_name account db)) [
  | inl absent ↦ absurd (ground arith)
  | inr (name, current) ↦
      (let db'_is : release_name name account now db ≡ db' = ground arith in
        let cools : Cools name (now + cooldown) db' = rw (← db'_is) (
          released-Cools name (now + cooldown) account now db refl
            (current_name-eq-some account db name current)) in
        (
          name,
          current,
          λ b r account' requested t checks early.
              refused_while_cooling fold name (now + cooldown) account' requested t b checks early
                (Later-Cools fold name (now + cooldown) cools r),
        ))
]
