-- ===== src/Api/Events/Cursors.antt =====
-- `advance_group_cursor` of services/core-api/src/lib.rs.
use resilient_messenger.Prelude.{
  ℕ, ◌≤◌, ◌≡◌, refl, inl, inr, ◌⊎◌, true, false, ◌&&◌, Bool-cases, List, [], ◌∷◌, Bytes, bytes_eq,
  bytes_eq_iff, some, ok, err, Result-cases, arith, if◌then◌else◌,
}
use resilient_messenger.Core.Sql.{exists_where, find_where}
use resilient_messenger.Api.{ApiError, ℤ, pos, negsuc, CursorRow, Backend}
use resilient_messenger.Api.Groups.{is_active_group_member, assert_active_member, in_transaction}
use resilient_messenger.Api.Events.{
  group_cursor, last_cursor, upsert_group_cursor, is_regression, move_group_cursor,
  advance_group_cursor,
}

pub group_cursor-upsert :
    (device group : Bytes) (n : ℕ) (device' group' : Bytes) (rows : List CursorRow)
    → group_cursor device' group' (upsert_group_cursor device group n rows) ≡ (
        if bytes_eq device device' && bytes_eq group group'
        then some n
        else group_cursor device' group' rows)
unfolding group_cursor upsert_group_cursor find_where
group_cursor-upsert device group n device' group' [] = ground arith
group_cursor-upsert device group n device' group' (c ∷ cs) = ground (
  arith,
  bytes_eq_iff c.device_id device,
  bytes_eq_iff c.device_id device',
  bytes_eq_iff device device',
  bytes_eq_iff c.group_id group,
  bytes_eq_iff c.group_id group',
  bytes_eq_iff group group',
  group_cursor-upsert device group n device' group' cs,
)

-- What a call that succeeded did.
move_group_cursor-ok :
    (device group : Bytes) (cursor : ℤ) (db db' : Backend)
    → move_group_cursor device group cursor db ≡ ok (tt, db')
    → (n : ℕ) × (cursor ≡ pos n)
      × (exists_where (is_active_group_member group device) db.members ≡ true)
      × (is_regression (pos n) (group_cursor device group db.cursors) ≡ false)
      × (n ≤ last_cursor group db.events)
      × (record db { cursors = upsert_group_cursor device group n db.cursors } ≡ db')
unfolding move_group_cursor assert_active_member
move_group_cursor-ok device group (pos n) db db' h =
    (n, refl, ground arith, ground arith, ground arith, ground arith)
move_group_cursor-ok device group (negsuc n) db db' h = absurd (ground arith)

-- A call that succeeds was made for an active member, with a cursor that is not negative and not
-- beyond the group's last event, and it writes that cursor for the device and group; one that fails
-- changes nothing; and whatever it returns, no cursor of any device and group is lowered.
pub advance_group_cursor_advances :
    (device group : Bytes) (cursor : ℤ) (db : Backend)
    → (((n : ℕ) × (cursor ≡ pos n)
          × (n ≤ last_cursor group db.events)
          × (exists_where (is_active_group_member group device) db.members ≡ true)
          × (advance_group_cursor device group cursor db
              ≡ (ok tt, record db { cursors = upsert_group_cursor device group n db.cursors })))
        ⊎ ((x : ApiError) × (advance_group_cursor device group cursor db ≡ (err x, db))))
      × ((device' group' : Bytes) (v : ℕ)
          → group_cursor device' group' db.cursors ≡ some v
          → (w : ℕ) × (group_cursor device' group'
                (advance_group_cursor device group cursor db).1.cursors
              ≡ some w)
            × (v ≤ w))
unfolding advance_group_cursor in_transaction
advance_group_cursor_advances device group cursor db =
    elim (Result-cases (move_group_cursor device group cursor db)) [
      | inr (x, e) ↦ rw (e, in_transaction) (inr (x, refl), λ d g v h. (v, h, omega arith))
      | inl ((u, db'), e) ↦
          let (n, at, member, high, small, same) =
            move_group_cursor-ok device group cursor db db' e in
          rw (e, in_transaction)
            (rw (← same) (
              inl (n, at, small, member, refl),
              λ d g v h.
                  rw group_cursor-upsert
                    (elim (Bool-cases (bytes_eq device d && bytes_eq group g)) [
                      | inr other ↦ rw other (v, h, omega arith)
                      | inl both ↦
                          let at_d : device ≡ d = ground (arith, bytes_eq_iff device d) in
                          let at_g : group ≡ g = ground (arith, bytes_eq_iff group g) in
                          let here : group_cursor device group db.cursors ≡ some v =
                            rw (at_d, at_g) h in
                          let le : is_regression (pos n) (some v) ≡ false = rw here at high in
                          rw both (n, refl, ground arith)
                    ]),
            ))
    ]
