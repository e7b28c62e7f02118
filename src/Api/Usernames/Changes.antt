-- ===== src/Api/Usernames/Changes.antt =====
-- What a change of a username does, in services/core-api/src/lib.rs.
use resilient_messenger.Prelude.{
  ℕ, ◌+◌, ◌≡◌, refl, ◌∙◌, Bool, true, false, not, ◌&&◌, ◌||◌, List, [], ◌∷◌, Bytes, bytes_eq,
  bytes_eq_iff, bytes_eq_refl, none, some, ok, err, arith, subst, inl, inr, Bool-cases,
  Option-cases,
}
use resilient_messenger.Core.Sql.{
  exists_where, find_where, update_where, delete_where, exists_where-update_where,
  exists_where-update_where-false,
}
use resilient_messenger.Core.Sql.Keys.{
  AtMostOne, AtMostOne-delete_where, exists_where-find_where-none, find_where-append_new,
}
use resilient_messenger.Core.Account.{is_present}
use resilient_messenger.Api.{conflict, database, UsernameRow, Backend}
use resilient_messenger.Api.Groups.{in_transaction}
use resilient_messenger.Api.Devices.{is_account}
use resilient_messenger.Api.Usernames.{
  cooldown, is_name, is_active_name_of, is_cooling, has_conflict, set_released, add_name,
  release_name, insert_name, current_name, is_available, drop_released, release_current, is_current,
  change_once, checked_name, change_username,
}
use resilient_messenger.Api.Usernames.Cooldowns.{current_name-eq-some}
use resilient_messenger.Api.Usernames.Unique.{IsNames, usernames_stay_unique}
use resilient_messenger.Api.Usernames.Kept.{Cools, released-Cools, add_name-Cools}

module _ {A : Type 0} (q p : A → Bool) where
  find_where-delete_where-apart :
      (xs : List A)
      → ((x : A) → q x ≡ true → p x ≡ false)
      → find_where q (delete_where p xs) ≡ find_where q xs
  unfolding find_where delete_where
  find_where-delete_where-apart [] apart = refl
  find_where-delete_where-apart (x ∷ xs) apart =
      ground (arith, apart x, find_where-delete_where-apart xs apart)

  -- The one row of a clause is updated out of it.
  exists_where-update_where-only :
      (f : A → A) (xs : List A) (u : A)
      → ((x : A) → q (f x) ≡ false)
      → AtMostOne q xs
      → find_where q xs ≡ some u
      → p u ≡ true
      → exists_where q (update_where p f xs) ≡ false
  unfolding find_where exists_where update_where
  exists_where-update_where-only f [] u out one found h = absurd (ground arith)
  exists_where-update_where-only f (x ∷ xs) u out one found h = elim (Bool-cases (q x)) [
    | inl here ↦
        (let same : x ≡ u = ground arith in
          let touched : p x ≡ true = rw same h in
          let rest = exists_where-update_where-false q p f xs (λ y a b. out y) (one.0 here) in
          rw (touched, out x, rest) refl)
    | inr there ↦
        (let rest = exists_where-update_where-only f xs u out one.1 (rw there at found) h in
          elim (Bool-cases (p x)) [
            | inl e ↦ rw (e, out x, rest) refl
            | inr e ↦ rw (e, there, rest) refl
          ])
  ]

-- An available name has no row that is left after the released ones are deleted.
available_dropped :
    (name : List ℕ) (cooling : Bool) (rows : List UsernameRow)
    → exists_where (λ u. is_name name u && (is_present u.released_at || cooling)) rows ≡ false
    → exists_where
        (is_name name)
        (delete_where (λ u. is_name name u && not (is_present u.released_at)) rows)
      ≡ false
unfolding exists_where delete_where
available_dropped name cooling [] h = refl
available_dropped name cooling (u ∷ rows) h = ground (arith, available_dropped name cooling rows)

module _ (account : Bytes) (next : List ℕ) (now : ℕ) (db : Backend) (names : IsNames db.usernames)
    (known : exists_where (is_account account) db.accounts ≡ true)
    (free : is_available next now db ≡ true) where
  abbrev dropped : Backend
  dropped = drop_released next db

  abbrev before : Backend
  before = release_current (current_name account db) account now dropped

  dropped-find :
      find_where (is_active_name_of account) dropped.usernames
      ≡ find_where (is_active_name_of account) db.usernames
  unfolding drop_released
  dropped-find =
      find_where-delete_where-apart (is_active_name_of account)
        (λ u. is_name next u && not (is_present u.released_at)) db.usernames (λ u e. ground arith)

  dropped-name : exists_where (is_name next) dropped.usernames ≡ false
  unfolding drop_released is_available
  dropped-name = available_dropped next (is_cooling next now db) db.usernames (ground (arith, free))

  before-name : exists_where (is_name next) before.usernames ≡ false
  unfolding release_current release_name
  before-name = elim (Option-cases (current_name account db)) [
    | inl none_held ↦ rw none_held dropped-name
    | inr (old, current) ↦ rw current (
        exists_where-update_where (is_name next) (is_name old) (set_released now) dropped.usernames
          (λ u. refl)
        ∙ dropped-name)
  ]

  before-active : exists_where (is_active_name_of account) before.usernames ≡ false
  unfolding release_current release_name current_name
  before-active = elim (Option-cases (find_where (is_active_name_of account) db.usernames)) [
    | inl absent ↦
        rw (absent, release_current)
          (exists_where-find_where-none (is_active_name_of account) dropped.usernames
            (dropped-find ∙ absent))
    | inr (u, found) ↦
        rw (found, release_current)
          (exists_where-update_where-only (is_active_name_of account) (is_name u.canonical_username)
            (set_released now) dropped.usernames u (λ x. ground arith)
            (unfold drop_released in
              AtMostOne-delete_where (is_active_name_of account)
                (λ x. is_name next x && not (is_present x.released_at)) db.usernames
                (names.one_active account))
            (dropped-find ∙ found) (bytes_eq_refl u.canonical_username))
  ]

  before-accounts : before.accounts ≡ db.accounts
  unfolding release_current release_name drop_released
  before-accounts = elim (Option-cases (current_name account db)) [
    | inl e ↦ rw e refl
    | inr (old, e) ↦ rw e refl
  ]

  inserted : insert_name next account database before ≡ ok (add_name next account before)
  unfolding insert_name has_conflict
  inserted = rw (before-name, before-active) (rw (before-accounts, known) refl)

  added-current : current_name account (add_name next account before) ≡ some next
  unfolding current_name add_name
  added-current =
      let row : UsernameRow = record {
        canonical_username = next;
        account_id = account;
        released_at = none;
      } in
      let found =
        find_where-append_new (is_active_name_of account) before.usernames row before-active
          (rw (bytes_eq_refl account) refl) in
      rw (found, current_name) refl

  before-Cools :
      (old : List ℕ) → current_name account db ≡ some old → Cools old (now + cooldown) before
  unfolding release_current current_name
  before-Cools old current =
      let same : current_name account dropped ≡ current_name account db =
        rw (dropped-find, current_name) refl in
      rw current (
        released-Cools old (now + cooldown) account now dropped refl
          (current_name-eq-some account dropped old (same ∙ current)))

-- For a text whose name is `next` and not the account's name yet, an account that exists and a table
-- where each name has one row and each account at most one active name: if `next` is taken or cools,
-- the change is refused and changes nothing. If it is available, the change succeeds: the account
-- then has `next` as its name, the name it had is released and cools for 30 days, and the table is
-- unique as before.
pub change_username_moves :
    (fold : List ℕ → List ℕ) (account : Bytes) (requested next : List ℕ) (now : ℕ) (db : Backend)
    → IsNames db.usernames
    → exists_where (is_account account) db.accounts ≡ true
    → checked_name fold requested ≡ ok next
    → is_current (current_name account db) next ≡ false
    → (is_available next now db ≡ false
        → change_username fold account requested now db ≡ (err conflict, db))
      × (is_available next now db ≡ true
          → (db' : Backend) × (change_username fold account requested now db ≡ (ok next, db'))
            × (current_name account db' ≡ some next)
            × ((old : List ℕ) → current_name account db ≡ some old → Cools old (now + cooldown) db')
            × IsNames db'.usernames)
unfolding change_username change_once in_transaction
change_username_moves fold account requested next now db names known checks moves = (
  λ taken. rw (checks, in_transaction) (rw moves (rw taken refl)),
  λ free.
      let db1 = before account next now db names known free in
      let db' = add_name next account db1 in
      let done : change_username fold account requested now db ≡ (ok next, db') =
        rw (checks, in_transaction)
          (rw moves (rw free (rw (inserted account next now db names known free) refl))) in
      let unique = (usernames_stay_unique fold account requested now db names).1 in
      (
        db',
        done,
        added-current account next now db names known free,
        λ old current.
            let other : bytes_eq old next ≡ false = rw current at moves in
            let apart : bytes_eq next old ≡ false =
              ground (arith, bytes_eq_iff next old, bytes_eq_iff old next) in
            add_name-Cools old (now + cooldown) next apart account db1
              (before-Cools account next now db names known free old current),
        subst (λ r. IsNames r.1.usernames) done unique,
      ),
)
