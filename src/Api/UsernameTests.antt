-- ===== src/Api/UsernameTests.antt =====
-- Tests of the usernames, recovery packages and limits of services/core-api/src/lib.rs.
use resilient_messenger.Prelude.{
  ℕ, true, false, ◌+◌, ◌<◌, ◌≡◌, refl, false, ◌&&◌, List, [], ◌∷◌, map, Bytes, codes, bytes_eq, min,
  leb, if◌then◌else◌, All, none, some, ok, err, arith,
}
use resilient_messenger.Fixtures.{zeros, empty}
use resilient_messenger.Core.Sql.{exists_where, find_where, update_where, delete_where, count_where}
use resilient_messenger.Identity.Usernames.{
  is_refused, is_refused_name, canonical_username, IsFold, IsCapital,
}
use resilient_messenger.Api.{conflict, pos, AccountRow, CounterRow, Backend}
use resilient_messenger.Api.Groups.{in_transaction}
use resilient_messenger.Api.Usernames.{
  is_available, cooldown, is_reserved, has_conflict, add_name, release_name, insert_name,
  drop_cooled, claim_once, current_name, checked_name, claim_username, change_username,
  exact_username_lookup, release_username,
}
use resilient_messenger.Api.Usernames.Kept.{Cools, Later, release_username_cools}
use resilient_messenger.Api.Usernames.Unique.{IsNames}
use resilient_messenger.Api.Usernames.Changes.{change_username_moves}
use resilient_messenger.Api.Usernames.Lookups.{exact_username_lookup-claim_username}
use resilient_messenger.Api.Recovery.{store_recovery_package, fetch_recovery_package}
use resilient_messenger.Api.Recovery.Stored.{fetch_recovery_package-store_recovery_package}
use resilient_messenger.Api.Limits.{passed, is_scope}
use resilient_messenger.Api.Limits.Windows.{check_rate_limit_window}

abbrev account : AccountRow
account = record {
  account_id = zeros 32;
  root_public_key = zeros 32;
  recovery_identifier = none;
  recovery_blob = none;
}

-- The backend with one account.
abbrev one_account : Backend
one_account = record empty { accounts = account ∷ [] }

-- The mapping to lower case, on ASCII alone.
abbrev lower : ℕ → ℕ
lower c = if leb b'A' c && leb c b'Z' then c + 32 else c

lower_no_capitals : (v : List ℕ) → All (λ c. ¬ IsCapital c) (map lower v)
lower_no_capitals [] = tt
lower_no_capitals (c ∷ v) = (λ h. ground arith, lower_no_capitals v)

lower_keeps : (v : List ℕ) → All (λ c. (c < 128) × ¬ IsCapital c) v → map lower v ≡ v
lower_keeps [] h = refl
lower_keeps (c ∷ v) h = let small : lower c ≡ c = ground arith in rw (small, lower_keeps v h.1) refl

lower-IsFold : IsFold (map lower)
lower-IsFold = record { no_capitals = lower_no_capitals; keeps = lower_keeps }

abbrev named : Backend
named = record one_account {
  usernames =
      record { canonical_username = codes "anna"; account_id = zeros 32; released_at = none } ∷ [];
}

claim_anna :
    claim_username (map lower) (zeros 32) (codes "Anna") 1000 one_account
    ≡ (ok (codes "anna"), named)
unfolding claim_username checked_name canonical_username is_refused_name is_refused is_reserved
    claim_once drop_cooled insert_name has_conflict add_name in_transaction exists_where
    delete_where bytes_eq
claim_anna = refl

exact_username_lookup-claim_username_example :
    (canonical_username (map lower) (codes "Anna") ≡ ok (codes "anna"))
    × (exact_username_lookup (map lower) (codes "Anna") named ≡ ok (some (zeros 32)))
    × (exact_username_lookup (map lower) (codes "anna") named ≡ ok (some (zeros 32)))
exact_username_lookup-claim_username_example =
    exact_username_lookup-claim_username (map lower) (zeros 32) (codes "Anna") (codes "anna") 1000
      one_account named lower-IsFold claim_anna

named-IsNames : IsNames named.usernames
unfolding exists_where
named-IsNames = record { one_row = λ name. ((λ e. refl), tt); one_active = λ a. ((λ e. refl), tt) }

change_username_moves_example :
    (is_available (codes "bob") 2000 named ≡ false
      → change_username (map lower) (zeros 32) (codes "Bob") 2000 named ≡ (err conflict, named))
    × (is_available (codes "bob") 2000 named ≡ true
        → (db' : Backend) × (change_username (map lower) (zeros 32) (codes "Bob") 2000 named
            ≡ (ok (codes "bob"), db'))
          × (current_name (zeros 32) db' ≡ some (codes "bob"))
          × ((old : List ℕ)
              → current_name (zeros 32) named ≡ some old
              → Cools old (2000 + cooldown) db')
          × IsNames db'.usernames)
unfolding checked_name canonical_username is_refused_name is_refused is_reserved current_name
    find_where exists_where bytes_eq
change_username_moves_example =
    change_username_moves (map lower) (zeros 32) (codes "Bob") (codes "bob") 2000 named
      named-IsNames refl refl refl

abbrev freed : Backend
freed = record one_account {
  usernames =
      record { canonical_username = codes "anna"; account_id = zeros 32; released_at = some 2000 }
      ∷ [];
  cooldowns =
      record {
        canonical_username = codes "anna";
        previous_account_id = zeros 32;
        release_after = 2592000002000;
      }
      ∷ [];
}

release_anna : release_username (zeros 32) 2000 named ≡ (ok tt, freed)
unfolding release_username current_name release_name in_transaction find_where exists_where
    update_where bytes_eq
release_anna = refl

release_username_cools_example :
    (name : List ℕ) × (current_name (zeros 32) named ≡ some name)
    × ((b : Backend)
        → Later (map lower) (2000 + cooldown) freed b
        → (account' : Bytes) (requested : List ℕ) (t : ℕ)
        → checked_name (map lower) requested ≡ ok name
        → t < 2000 + cooldown
        → (claim_username (map lower) account' requested t b ≡ (err conflict, b))
          × (change_username (map lower) account' requested t b ≡ (err conflict, b))
          × (exact_username_lookup (map lower) requested b ≡ ok none))
release_username_cools_example =
    release_username_cools (map lower) (zeros 32) 2000 named freed release_anna

abbrev saved : Backend
saved = record one_account {
  accounts =
      record account { recovery_identifier = some (6 ∷ zeros 31); recovery_blob = some (8 ∷ []) }
      ∷ [];
}

store_blob : store_recovery_package (zeros 32) (6 ∷ zeros 31) (8 ∷ []) one_account ≡ (ok tt, saved)
unfolding store_recovery_package count_where exists_where update_where bytes_eq
store_blob = refl

fetch_recovery_package-store_recovery_package_example :
    (fetch_recovery_package (6 ∷ zeros 31) saved ≡ some (8 ∷ []))
    × ((id' : Bytes)
        → bytes_eq (6 ∷ zeros 31) id' ≡ false
        → fetch_recovery_package id' saved ≡ fetch_recovery_package id' one_account)
fetch_recovery_package-store_recovery_package_example =
    fetch_recovery_package-store_recovery_package (zeros 32) (6 ∷ zeros 31) (8 ∷ []) one_account
      saved store_blob

no_counter : find_where {A = CounterRow} (is_scope (codes "scope")) [] ≡ none
unfolding find_where
no_counter = refl

check_rate_limit_window_example :
    passed (codes "scope") (pos 2) (pos 60) (0 ∷ 5 ∷ 9 ∷ 11 ∷ []) one_account ≡ min 4 2
check_rate_limit_window_example =
    check_rate_limit_window (codes "scope") 2 60 (omega arith, omega arith)
      (omega arith, omega arith) 0 (5 ∷ 9 ∷ 11 ∷ []) one_account (rw no_counter tt)
      (omega arith, (omega arith, (omega arith, tt))) (omega arith)
