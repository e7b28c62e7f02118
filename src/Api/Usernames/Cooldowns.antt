-- ===== src/Api/Usernames/Cooldowns.antt =====
-- The cooldown of a released username in services/core-api/src/lib.rs.
use resilient_messenger.Prelude.{
  ℕ, ◌+◌, ◌≡◌, refl, Bool, true, false, not, ◌&&◌, ◌||◌, List, [], ◌∷◌, Bytes, bytes_eq,
  bytes_eq_refl, leb, none, some, ok, err, map_err, >>=-eq-ok, arith, subst, All, inl, inr,
  Bool-cases, Option-cases,
}
use resilient_messenger.Core.Sql.{exists_where, find_where, update_where, exists_where-append}
use resilient_messenger.Core.Sql.Keys.{delete_where_absent, find_where_holds}
use resilient_messenger.Core.Account.{is_present}
use resilient_messenger.Identity.Usernames.{canonical_username}
use resilient_messenger.Api.{conflict, invalid_input, UsernameRow, CooldownRow, Backend}
use resilient_messenger.Api.Usernames.{
  cooldown, is_name, is_active_name_of, is_cooling, has_conflict, set_released, release_name,
  insert_name, drop_cooled, claim_once, current_name, is_available, is_current, change_once,
  checked_name, exact_username_lookup,
}

-- An update that makes every row of its clause satisfy another clause.
exists_where-updated :
    {A : Type 0} (p q : A → Bool) (f : A → A) (xs : List A)
    → ((x : A) → p x ≡ true → q (f x) ≡ true)
    → exists_where p xs ≡ true
    → exists_where q (update_where p f xs) ≡ true
unfolding exists_where update_where
exists_where-updated p q f [] to e = cc
exists_where-updated p q f (x ∷ xs) to e = elim (Bool-cases (p x)) [
  | inl here ↦ rw here (rw (to x here) refl)
  | inr there ↦
      (let rest = exists_where-updated p q f xs to (rw there at e) in rw there (ground arith))
]

exists_where_never :
    {A : Type 0} (p : A → Bool) (xs : List A) → ((x : A) → p x ≡ false) → exists_where p xs ≡ false
unfolding exists_where
exists_where_never p [] h = refl
exists_where_never p (x ∷ xs) h = rw (h x, exists_where_never p xs h) refl

-- What holds of all rows holds of the one that is found.
All-find_where :
    {A : Type 0} (P : A → Type 0) (q : A → Bool) (xs : List A) (x : A)
    → All P xs
    → find_where q xs ≡ some x
    → P x
unfolding find_where
All-find_where P q [] x h e = absurd (ground arith)
All-find_where P q (y ∷ xs) x h e = elim (Bool-cases (q y)) [
  | inl here ↦ (let same : y ≡ x = ground arith in subst P same h.0)
  | inr there ↦ All-find_where P q xs x h.1 (rw there at e)
]

-- The row keeps the name until that time at least.
abbrev pub cools_until : List ℕ → ℕ → CooldownRow → Bool
cools_until name end c = bytes_eq c.canonical_username name && leb end c.release_after

module _ (name : List ℕ) (account : Bytes) (now : ℕ) (db : Backend) where
  abbrev pub released : Backend
  released = release_name name account now db

  -- The name cools for 30 days.
  pub released_cools : exists_where (cools_until name (now + cooldown)) released.cooldowns ≡ true
  unfolding release_name
  released_cools =
      let is_same = λ (c : CooldownRow). bytes_eq c.canonical_username name in
      let is_late = cools_until name (now + cooldown) in
      elim (Bool-cases (exists_where is_same db.cooldowns)) [
        | inl old ↦ rw old (
            exists_where-updated is_same is_late
              (λ c. record c { previous_account_id = account; release_after = now + cooldown })
              db.cooldowns (λ c e. rw e (ground arith)) old)
        | inr new ↦
            (let row : CooldownRow = record {
              canonical_username = name;
              previous_account_id = account;
              release_after = now + cooldown;
            } in
              let is_last : exists_where is_late (row ∷ []) ≡ true =
                unfold exists_where in rw (bytes_eq_refl name) (ground arith) in
              let apart = exists_where-append is_late db.cooldowns (row ∷ []) in
              rw (new, apart) (ground arith))
      ]

  -- Every row of the name is released.
  pub rows_released :
      (rows : List UsernameRow)
      → All
          (λ u. is_name name u ≡ true → is_present u.released_at ≡ false)
          (update_where (is_name name) (set_released now) rows)
  unfolding update_where
  rows_released [] = tt
  rows_released (u ∷ rows) = elim (Bool-cases (is_name name u)) [
    | inl here ↦ rw here ((λ e. refl), rows_released rows)
    | inr there ↦ rw there ((λ e. absurd (ground arith)), rows_released rows)
  ]

pub exists_where_widen :
    {A : Type 0} (p q : A → Bool) (xs : List A)
    → ((x : A) → p x ≡ true → q x ≡ true)
    → exists_where p xs ≡ true
    → exists_where q xs ≡ true
unfolding exists_where
exists_where_widen p q [] to e = e
exists_where_widen p q (x ∷ xs) to e = ground (arith, to x, exists_where_widen p q xs to)

found_exists :
    {A : Type 0} (q p : A → Bool) (xs : List A) (x : A)
    → find_where q xs ≡ some x
    → p x ≡ true
    → exists_where p xs ≡ true
unfolding find_where exists_where
found_exists q p [] x found e = absurd (ground arith)
found_exists q p (y ∷ xs) x found e = elim (Bool-cases (q y)) [
  | inl here ↦ (let same : y ≡ x = ground arith in rw same (rw e refl))
  | inr there ↦ (let rest = found_exists q p xs x (rw there at found) e in ground arith)
]

-- A cooling name with a row is not claimed.
pub claim_once_cooling :
    (name : List ℕ) (account : Bytes) (t : ℕ) (db : Backend)
    → exists_where (is_name name) db.usernames ≡ true
    → is_cooling name t db ≡ true
    → claim_once name account t db ≡ err conflict
unfolding claim_once drop_cooled insert_name has_conflict
claim_once_cooling name account t db there cooling =
    let none_dropped =
      delete_where_absent
        (λ u. is_name name u && not (is_present u.released_at) && not (is_cooling name t db))
        db.usernames
        (exists_where_never
          (λ u. is_name name u && not (is_present u.released_at) && not (is_cooling name t db))
          db.usernames (λ u. rw cooling (ground arith))) in
    rw (none_dropped, there) refl

pub change_once_cooling :
    (name : List ℕ) (account : Bytes) (t : ℕ) (db : Backend)
    → exists_where (is_name name) db.usernames ≡ true
    → is_cooling name t db ≡ true
    → is_current (current_name account db) name ≡ false
    → change_once name account t db ≡ err conflict
unfolding change_once is_available
change_once_cooling name account t db there cooling other =
    let is_taken =
      exists_where_widen (is_name name)
        (λ u. is_name name u && (is_present u.released_at || is_cooling name t db)) db.usernames
        (λ u e. rw (e, cooling) (ground arith)) there in
    rw (other, is_taken) refl

-- The active name of an account has a row.
pub current_name-eq-some :
    (account : Bytes) (db : Backend) (name : List ℕ)
    → current_name account db ≡ some name
    → exists_where (is_name name) db.usernames ≡ true
unfolding current_name
current_name-eq-some account db name e =
    elim (Option-cases (find_where (is_active_name_of account) db.usernames)) [
      | inl absent ↦ absurd (ground arith)
      | inr (u, found) ↦
          (let same : u.canonical_username ≡ name = ground arith in
            found_exists (is_active_name_of account) (is_name name) db.usernames u found
              (rw same (bytes_eq_refl name)))
    ]

-- In a table where every row of the name is released, the name is nobody's current name.
pub nobody_has :
    (account : Bytes) (name : List ℕ) (db : Backend)
    → All (λ u. is_name name u ≡ true → is_present u.released_at ≡ false) db.usernames
    → is_current (current_name account db) name ≡ false
unfolding current_name
nobody_has account name db h =
    elim (Option-cases (find_where (is_active_name_of account) db.usernames)) [
      | inl absent ↦ rw (absent, current_name) refl
      | inr (u, found) ↦
          rw (found, current_name)
            (elim (Bool-cases (is_name name u)) [
              | inr other ↦ other
              | inl mine ↦
                  (let gone =
                      All-find_where (λ u. is_name name u ≡ true → is_present u.released_at ≡ false)
                        (is_active_name_of account) db.usernames u h found mine in
                    let active = find_where_holds (is_active_name_of account) db.usernames found in
                    absurd (ground arith))
            ])
    ]

pub nobody_is_found :
    (name : List ℕ) (rows : List UsernameRow)
    → All (λ u. is_name name u ≡ true → is_present u.released_at ≡ false) rows
    → find_where (λ u. is_name name u && is_present u.released_at) rows ≡ none
unfolding find_where
nobody_is_found name [] h = refl
nobody_is_found name (u ∷ rows) h = elim (Bool-cases (is_name name u)) [
  | inl mine ↦ rw (mine, h.0 mine) (nobody_is_found name rows h.1)
  | inr other ↦ rw other (nobody_is_found name rows h.1)
]

pub lookup_absent :
    (fold : List ℕ → List ℕ) (requested name : List ℕ) (db : Backend)
    → checked_name fold requested ≡ ok name
    → find_where (λ u. is_name name u && is_present u.released_at) db.usernames ≡ none
    → exact_username_lookup fold requested db ≡ ok none
unfolding checked_name exact_username_lookup
lookup_absent fold requested name db checks absent =
    let (v, canonical, last) =
      >>=-eq-ok (map_err invalid_input (canonical_username fold requested)) _ checks in
    let same : v ≡ name = ground arith in
    rw (canonical, same) (rw (absent, exact_username_lookup) refl)
