-- ===== src/Api/Usernames/Lookups.antt =====
-- The lookup of usernames in services/core-api/src/lib.rs.
use resilient_messenger.Prelude.{
  ℕ, ◌≡◌, refl, sym, ◌∙◌, false, ◌&&◌, List, [], ◌∷◌, ◌++◌, Bytes, bytes_eq_refl, none, some,
  map_err, Result, ok, err, ◌>>=◌, >>=-eq-ok, arith, subst,
}
use resilient_messenger.Core.Sql.{exists_where, find_where}
use resilient_messenger.Core.Sql.Keys.{find_where-append_only}
use resilient_messenger.Core.Account.{is_present}
use resilient_messenger.Identity.Usernames.{canonical_username, IsFold, canonical_username_twice}
use resilient_messenger.Api.{ApiError, conflict, invalid_input, UsernameRow, Backend}
use resilient_messenger.Api.Groups.{in_transaction}
use resilient_messenger.Api.Usernames.{
  is_name, add_name, drop_cooled, claim_once, checked_name, claim_username, exact_username_lookup,
}
use resilient_messenger.Api.Usernames.Unique.{claim_once-eq-ok, insert_name-eq-ok}

-- The lookup of a text whose canonical name has the one new row.
lookup_added :
    (fold : List ℕ → List ℕ) (requested name : List ℕ) (account : Bytes) (db : Backend)
    → canonical_username fold requested ≡ ok name
    → exists_where (is_name name) db.usernames ≡ false
    → exact_username_lookup fold requested (add_name name account db) ≡ ok (some account)
unfolding exact_username_lookup add_name
lookup_added fold requested name account db canonical new =
    let row : UsernameRow = record {
      canonical_username = name;
      account_id = account;
      released_at = none;
    } in
    let only =
      find_where-append_only (λ u. is_name name u && is_present u.released_at) (is_name name)
        db.usernames row (λ u e. ground arith) new in
    let found : find_where (λ u. is_name name u && is_present u.released_at)
          (db.usernames ++ row ∷ [])
        ≡ some row =
      only ∙ rw (bytes_eq_refl name) refl in
    rw canonical (rw (found, exact_username_lookup) refl)

-- With a folding that leaves no capital letters and keeps ASCII text without them: a name that was
-- claimed is canonical, and the exact lookup of the requested text and of the name itself then finds
-- the account.
pub exact_username_lookup-claim_username :
    (fold : List ℕ → List ℕ) (account : Bytes) (requested name : List ℕ) (now : ℕ)
    (db db' : Backend)
    → IsFold fold
    → claim_username fold account requested now db ≡ (ok name, db')
    → (canonical_username fold requested ≡ ok name)
      × (exact_username_lookup fold requested db' ≡ ok (some account))
      × (exact_username_lookup fold name db' ≡ ok (some account))
unfolding claim_username checked_name in_transaction
exact_username_lookup-claim_username fold account requested name now db db' laws e =
    let body : Result ApiError (List ℕ × Backend) =
      checked_name fold requested >>= λ v. claim_once v account now db in
    let done : body ≡ ok (name, db') = ended body e in
    let (v, checks, e1) = >>=-eq-ok (checked_name fold requested) _ done in
    let (w, canonical, last) =
      >>=-eq-ok (map_err invalid_input (canonical_username fold requested)) _ checks in
    let is_w : w ≡ v = ground arith in
    let (is_v, made) = claim_once-eq-ok v name account now db db' e1 in
    let (new, _, is_db') = insert_name-eq-ok v account conflict (drop_cooled v now db) db' made in
    let known : canonical_username fold requested ≡ ok name = ground arith in
    let absent : exists_where (is_name name) (drop_cooled v now db).usernames ≡ false =
      subst (λ x. exists_where (is_name x) (drop_cooled v now db).usernames ≡ false) (sym is_v)
        new in
    let added : db' ≡ add_name name account (drop_cooled v now db) = rw is_v is_db' in
    (
      known,
      rw added (lookup_added fold requested name account (drop_cooled v now db) known absent),
      rw added (
          lookup_added fold name name account (drop_cooled v now db)
            (canonical_username_twice fold requested name laws known) absent),
    )
  where
    ended :
        (body : Result ApiError (List ℕ × Backend))
        → ◌≡◌ {A = Result ApiError (List ℕ) × Backend}
            (elim body [ ok (a, b) ↦ (ok a, b) | err x ↦ (err x, db) ])
            (ok name, db')
        → body ≡ ok (name, db')
    ended (ok (a, b)) k = ground arith
    ended (err x) k = ground arith
