-- ===== src/Api/Usernames.antt =====
-- Usernames in services/core-api/src/lib.rs. The Unicode tables and the clock are parameters; a name
-- is the list of its characters.
pub mod Unique
pub mod Lookups
pub mod Cooldowns
pub mod Kept
pub mod Changes
use resilient_messenger.Prelude.{
  ℕ, ◌+◌, ◌*◌, Bool, true, false, not, ◌&&◌, ◌||◌, List, [], ◌∷◌, ◌++◌, Bytes, codes, bytes_eq, ltb,
  if◌then◌else◌, Option, none, some, Result, ok, err, ◌>>=◌, ◌>>◌, ensure, ok_or, map_err,
}
use resilient_messenger.Core.Sql.{exists_where, find_where, update_where, delete_where}
use resilient_messenger.Core.Account.{is_present}
use resilient_messenger.Identity.Usernames.{canonical_username}
use resilient_messenger.Api.{
  ApiError, conflict, invalid_input, database, UsernameRow, CooldownRow, Backend,
}
use resilient_messenger.Api.Groups.{in_transaction}
use resilient_messenger.Api.Devices.{is_account}

-- interval '30 days'
abbrev pub cooldown : ℕ
cooldown = 2592000 * 1000000

unfoldable pub is_reserved : List ℕ → Bool
is_reserved name =
    bytes_eq name (codes "admin")
    || bytes_eq name (codes "support")
    || bytes_eq name (codes "security")
    || bytes_eq name (codes "resilient")
    || bytes_eq name (codes "system")

abbrev pub is_name : List ℕ → UsernameRow → Bool
is_name name u = bytes_eq u.canonical_username name

abbrev pub is_active_name_of : Bytes → UsernameRow → Bool
is_active_name_of account u = bytes_eq u.account_id account && is_present u.released_at

-- The name waits for the end of its cooldown.
unfoldable pub is_cooling : List ℕ → ℕ → Backend → Bool
is_cooling name now db =
    exists_where (λ c. bytes_eq c.canonical_username name && ltb now c.release_after) db.cooldowns

-- The primary key, and the unique index on the active names of an account.
unfoldable pub has_conflict : List ℕ → Bytes → Backend → Bool
has_conflict name account db =
    exists_where (is_name name) db.usernames
    || exists_where (is_active_name_of account) db.usernames

unfoldable pub add_name : List ℕ → Bytes → Backend → Backend
add_name name account db = record db {
  usernames =
      db.usernames
      ++ record { canonical_username = name; account_id = account; released_at = none } ∷ [];
}

abbrev pub set_released : ℕ → UsernameRow → UsernameRow
set_released now u = record u { released_at = some now }

-- The two statements that release a name: its row, and its cooldown.
unfoldable pub release_name : List ℕ → Bytes → ℕ → Backend → Backend
release_name name account now db =
    let is_same = λ (c : CooldownRow). bytes_eq c.canonical_username name in
    let end = now + cooldown in
    record db {
      usernames = update_where (is_name name) (set_released now) db.usernames;
      cooldowns =
          if exists_where is_same db.cooldowns
          then update_where is_same
              (λ c. record c { previous_account_id = account; release_after = end }) db.cooldowns
          else db.cooldowns
            ++ record {
              canonical_username = name;
              previous_account_id = account;
              release_after = end;
            }
              ∷ [];
    }

-- An account that does not exist fails the reference of the new row.
unfoldable pub insert_name : List ℕ → Bytes → ApiError → Backend → Result ApiError Backend
insert_name name account taken db =
    if has_conflict name account db
    then err taken
    else if exists_where (is_account account) db.accounts
    then ok (add_name name account db)
    else err database

-- DELETE of the released row of a name whose cooldown is over.
unfoldable pub drop_cooled : List ℕ → ℕ → Backend → Backend
drop_cooled name now db = record db {
  usernames =
      delete_where
        (λ u. is_name name u && not (is_present u.released_at) && not (is_cooling name now db))
        db.usernames;
}

unfoldable pub claim_once : List ℕ → Bytes → ℕ → Backend → Result ApiError (List ℕ × Backend)
claim_once name account now db =
    insert_name name account conflict (drop_cooled name now db) >>= λ db'. ok (name, db')

unfoldable pub current_name : Bytes → Backend → Option (List ℕ)
current_name account db = elim (find_where (is_active_name_of account) db.usernames) [
  | none ↦ none
  | some u ↦ some u.canonical_username
]

unfoldable pub is_available : List ℕ → ℕ → Backend → Bool
is_available name now db = not (
    exists_where (λ u. is_name name u && (is_present u.released_at || is_cooling name now db))
      db.usernames)

unfoldable pub drop_released : List ℕ → Backend → Backend
drop_released name db = record db {
  usernames = delete_where (λ u. is_name name u && not (is_present u.released_at)) db.usernames;
}

-- `if let Some(old) = current`
unfoldable pub release_current : Option (List ℕ) → Bytes → ℕ → Backend → Backend
release_current none account now db = db
release_current (some old) account now db = release_name old account now db

-- `current.as_deref() == Some(next.as_str())`
abbrev pub is_current : Option (List ℕ) → List ℕ → Bool
is_current none next = false
is_current (some old) next = bytes_eq old next

unfoldable pub change_once : List ℕ → Bytes → ℕ → Backend → Result ApiError (List ℕ × Backend)
change_once next account now db =
    let current = current_name account db in
    if is_current current next then ok (next, db) else (do
      ensure (is_available next now db) conflict
      db' ←
          insert_name next account database
            (release_current current account now (drop_released next db))
      ok (next, db'))

module _ (fold : List ℕ → List ℕ) where
  -- The checks in front of `claim_username` and `change_username`.
  unfoldable pub checked_name : List ℕ → Result ApiError (List ℕ)
  checked_name requested = do
    name ← map_err invalid_input (canonical_username fold requested)
    ensure (not (is_reserved name)) invalid_input
    ok name

  unfoldable pub claim_username : Bytes → List ℕ → ℕ → Backend → Result ApiError (List ℕ) × Backend
  claim_username account requested now db =
      in_transaction (λ b. checked_name requested >>= λ name. claim_once name account now b) db

  unfoldable pub change_username : Bytes → List ℕ → ℕ → Backend → Result ApiError (List ℕ) × Backend
  change_username account requested now db =
      in_transaction (λ b. checked_name requested >>= λ name. change_once name account now b) db

  unfoldable pub exact_username_lookup : List ℕ → Backend → Result ApiError (Option Bytes)
  exact_username_lookup requested db =
      map_err invalid_input (canonical_username fold requested) >>= λ name.
      ok (elim (find_where (λ u. is_name name u && is_present u.released_at) db.usernames) [
        | none ↦ none
        | some u ↦ some u.account_id
      ])

unfoldable pub release_username : Bytes → ℕ → Backend → Result ApiError (Unit {0}) × Backend
release_username account now db =
    in_transaction
      (λ b. ok_or invalid_input (current_name account b) >>= λ current.
        ok (tt, release_name current account now b))
      db
