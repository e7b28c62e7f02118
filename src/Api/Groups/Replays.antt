-- ===== src/Api/Groups/Replays.antt =====
-- `apply_membership_operation` of services/core-api/src/lib.rs, called again with the same request.
use resilient_messenger.Prelude.{
  ℕ, ◌≡◌, refl, ap, ◌∙◌, inl, inr, Bool, true, false, ◌&&◌, ltb, Bool-cases, Option-cases,
  Result-cases, [], ◌∷◌, ◌++◌, Bytes, bytes_eq, bytes_eq_refl, some, Result, ok, err, ok_or, ◌>>=◌,
  >>=-eq-ok, arith, if◌then◌else◌,
}
use resilient_messenger.Transport.Directory.{Ed25519}
use resilient_messenger.Core.Sql.{find_where}
use resilient_messenger.Core.Sql.Keys.{exists_where-find_where-none, find_where-append_new}
use resilient_messenger.Api.{
  ApiError, conflict, invalid_input, unauthorized, MembershipOperation, OperationRow, Backend,
}
use resilient_messenger.Api.Groups.{
  in_transaction, payload_of, author_key, is_operation, operation_row, remove_target, add_target,
  apply_once, check_signature, apply_signed, apply_membership_operation, is_active_device,
  upsert_member,
}

remove_target-operations :
    (r : MembershipOperation) (now : ℕ) (db db' : Backend)
    → remove_target r now db ≡ ok db'
    → db'.operations ≡ db.operations
unfolding remove_target
remove_target-operations r now db db' h = ground arith

add_target-operations :
    (r : MembershipOperation) (db db' : Backend)
    → add_target r db ≡ ok db'
    → db'.operations ≡ db.operations
unfolding add_target
add_target-operations r db db' h =
    elim (Option-cases (find_where (is_active_device r.target_device_id) db.devices)) [
      | inl e ↦
          (let no : ◌≡◌ {A = Result ApiError Backend} (err invalid_input) (ok db') =
              rw (e, add_target) at h in
            absurd (ground arith))
      | inr (d, e) ↦
          let done : ◌≡◌ {A = Result ApiError Backend}
              (ok (record db {
                members =
                    upsert_member r.group_id r.target_device_id d.account_id r.role db.members;
              }))
              (ok db') =
            rw (e, add_target) at h in
          ground arith
    ]

change_target-operations :
    (r : MembershipOperation) (now : ℕ) (db db' : Backend)
    → (if r.remove then remove_target r now db else add_target r db) ≡ ok db'
    → db'.operations ≡ db.operations
unfolding remove_target add_target
change_target-operations r now db db' h = elim (Bool-cases r.remove) [
  | inl e ↦
      let g : remove_target r now db ≡ ok db' = rw e at h in remove_target-operations r now db db' g
  | inr e ↦ let g : add_target r db ≡ ok db' = rw e at h in add_target-operations r db db' g
]

-- The request is logged, with its payload and signature.
IsLogged : MembershipOperation → Backend → Type 0
IsLogged r db =
    (o : OperationRow) × (find_where (is_operation r.correlation_id) db.operations ≡ some o)
    × ((bytes_eq o.operation (payload_of r) && bytes_eq o.signature r.signature) ≡ true)

apply_once-IsLogged :
    (r : MembershipOperation) (now : ℕ) (db db' : Backend) (b : Bool)
    → apply_once r now db ≡ ok (b, db')
    → IsLogged r db'
unfolding apply_once IsLogged
apply_once-IsLogged r now db db' b h =
    elim (Option-cases (find_where (is_operation r.correlation_id) db.operations)) [
      | inr (o, e) ↦
          let g : ◌≡◌ {A = Result ApiError (Bool × Backend)}
              (if bytes_eq o.operation (payload_of r) && bytes_eq o.signature r.signature
                then ok (true, db)
                else err conflict)
              (ok (b, db')) =
            rw (e, apply_once) at h in
          elim (Bool-cases
            (bytes_eq o.operation (payload_of r) && bytes_eq o.signature r.signature)) [
              | inl same ↦
                  let kept : ◌≡◌ {A = Result ApiError (Bool × Backend)} (ok (true, db))
                      (ok (b, db')) =
                    rw same at g in
                  let db_is : db ≡ db' = ground arith in rw (← db_is) (o, e, same)
              | inr other ↦
                  (let no : ◌≡◌ {A = Result ApiError (Bool × Backend)} (err conflict)
                        (ok (b, db')) =
                      rw other at g in
                    absurd (ground arith))
            ]
      | inl e ↦
          let row = operation_row r now in
          let logged = record db { operations = db.operations ++ row ∷ [] } in
          let g : ◌≡◌ {A = Result ApiError (Bool × Backend)}
              ((if r.remove then remove_target r now logged else add_target r logged) >>= λ changed.
                ok (false, changed))
              (ok (b, db')) =
            rw (e, apply_once) at h in
          let (changed, made, out) =
            >>=-eq-ok (if r.remove then remove_target r now logged else add_target r logged) _ g in
          let db_is : changed ≡ db' = ground arith in
          let kept = change_target-operations r now logged changed made in
          rw (← db_is) (
            row,
            ap (find_where (is_operation r.correlation_id)) kept
                ∙ find_where-append_new (is_operation r.correlation_id) db.operations row
                    (exists_where-find_where-none (is_operation r.correlation_id) db.operations e)
                    (bytes_eq_refl r.correlation_id),
            rw (bytes_eq_refl (payload_of r), bytes_eq_refl r.signature) refl,
          )
    ]

apply_once_logged :
    (r : MembershipOperation) (now : ℕ) (db : Backend)
    → IsLogged r db
    → apply_once r now db ≡ ok (true, db)
unfolding apply_once IsLogged
apply_once_logged r now db (o, e, same) = rw (e, apply_once) (rw same refl)

author_found :
    (r : MembershipOperation) (db : Backend) (public : Bytes)
    → ok_or unauthorized (author_key r db) ≡ ok public
    → author_key r db ≡ some public
author_found r db public h = ground arith

-- Where the call succeeds, the role is one of the three, the author is an administrator whose key
-- verifies the request, and the rest succeeded.
signed :
    (ed : Ed25519) (r : MembershipOperation) (now : ℕ) (db db' : Backend) (b : Bool)
    → apply_membership_operation ed r now db ≡ (ok b, db')
    → (ltb 2 r.role ≡ false)
      × ((public : Bytes) × (author_key r db ≡ some public)
          × (check_signature ed r public ≡ ok tt)
          × (apply_once r now db ≡ ok (b, db')))
unfolding apply_membership_operation in_transaction apply_signed
signed ed r now db db' b h = elim (Bool-cases (ltb 2 r.role)) [
  | inl big ↦
      (let no : ◌≡◌ {A = Result ApiError Bool × Backend} (err invalid_input, db) (ok b, db') =
          rw big at h in
        absurd (ground arith))
  | inr role ↦
      let k : in_transaction (apply_signed ed r now) db ≡ (ok b, db') = rw role at h in
      elim (Result-cases (apply_signed ed r now db)) [
        | inr (x, e) ↦
            (let no : ◌≡◌ {A = Result ApiError Bool × Backend} (err x, db) (ok b, db') =
                rw (e, in_transaction) at k in
              absurd (ground arith))
        | inl ((c, d), e) ↦
            let g : ◌≡◌ {A = Result ApiError Bool × Backend} (ok c, d) (ok b, db') =
              rw (e, in_transaction) at k in
            let run : apply_signed ed r now db ≡ ok (b, db') = e ∙ ap ok (ground arith) in
            let (public, found, e1) = >>=-eq-ok (ok_or unauthorized (author_key r db)) _ run in
            let (_, verified, done) = >>=-eq-ok (check_signature ed r public) _ e1 in
            (role, (public, author_found r db public found, verified, done))
      ]
]

-- A request that succeeded, made again while its author is an administrator under the same key,
-- succeeds as a repetition and changes nothing, whatever the first call answered.
pub apply_membership_operation_twice :
    (ed : Ed25519) (r : MembershipOperation) (now later : ℕ) (db db' : Backend) (b : Bool)
    → apply_membership_operation ed r now db ≡ (ok b, db')
    → author_key r db' ≡ author_key r db
    → apply_membership_operation ed r later db' ≡ (ok true, db')
unfolding apply_membership_operation in_transaction apply_signed
apply_membership_operation_twice ed r now later db db' b h still =
    let (role, (public, author, verified, done)) = signed ed r now db db' b h in
    let again = apply_once_logged r later db' (apply_once-IsLogged r now db db' b done) in
    let key : author_key r db' ≡ some public = still ∙ author in
    let passed : apply_signed ed r later db' ≡ ok (true, db') = rw key (rw verified again) in
    rw role (rw (passed, in_transaction) refl)
