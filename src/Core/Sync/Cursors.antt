-- ===== src/Core/Sync/Cursors.antt =====
-- `set_sync_cursor` of crates/messenger-core/src/lib.rs.
use resilient_messenger.Prelude.{
  ℕ, ◌^◌, ◌≤◌, ◌≡◌, refl, inl, inr, ◌⊎◌, false, leb, Bool-cases, List, [], ◌∷◌, Bytes, bytes_eq,
  bytes_eq_iff, some, ok, err, arith, if◌then◌else◌,
}
use resilient_messenger.Core.{CoreError, Db}
use resilient_messenger.Core.Sql.{find_where}
use resilient_messenger.Core.Sync.{cursor_of, upsert_cursor, is_before, set_sync_cursor}

pub cursor_of-upsert_cursor :
    (s t : Bytes) (c : ℕ) (rows : List (Bytes × ℕ))
    → cursor_of s (upsert_cursor t c rows) ≡ (if bytes_eq t s then some c else cursor_of s rows)
unfolding cursor_of upsert_cursor find_where
cursor_of-upsert_cursor s t c [] = ground arith
cursor_of-upsert_cursor s t c ((k, v) ∷ rows) = ground (
  arith,
  bytes_eq_iff k t,
  bytes_eq_iff k s,
  bytes_eq_iff t s,
  cursor_of-upsert_cursor s t c rows,
)

-- A call that succeeds sets the cursor of its scope and leaves every other scope's as it was; one
-- that fails changes nothing; and whatever it returns, a scope that had a cursor has one that is
-- at least as high.
pub set_sync_cursor_advances :
    (scope : Bytes) (cursor : ℕ) (db : Db)
    → (((set_sync_cursor scope cursor db).0 ≡ ok tt)
          × ((s : Bytes)
              → cursor_of s (set_sync_cursor scope cursor db).1.sync_cursors
                ≡ (if bytes_eq scope s then some cursor else cursor_of s db.sync_cursors))
        ⊎ (x : CoreError) × (set_sync_cursor scope cursor db ≡ (err x, db)))
      × ((s : Bytes) (v : ℕ)
          → cursor_of s db.sync_cursors ≡ some v
          → (w : ℕ) × (cursor_of s (set_sync_cursor scope cursor db).1.sync_cursors ≡ some w)
            × (v ≤ w))
unfolding set_sync_cursor
set_sync_cursor_advances scope cursor db =
    elim (Bool-cases (is_before cursor (cursor_of scope db.sync_cursors))) [
      | inl e ↦ rw e (inr (_, refl), λ s v h. (v, h, omega arith))
      | inr e ↦ rw e (elim (Bool-cases (leb (2 ^ 63) cursor)) [
        | inl big ↦ rw big (inr (_, refl), λ s v h. (v, h, omega arith))
        | inr fits ↦ rw fits (
          inl (refl, λ s. cursor_of-upsert_cursor s scope cursor db.sync_cursors),
          λ s v h. rw cursor_of-upsert_cursor (elim (Bool-cases (bytes_eq scope s)) [
            | inr other ↦ rw other (v, h, omega arith)
            | inl same ↦
                let at_s : scope ≡ s = ground (arith, bytes_eq_iff scope s) in
                let here : cursor_of scope db.sync_cursors ≡ some v = rw at_s h in
                let high : is_before cursor (some v) ≡ false = rw here at e in
                rw same (cursor, refl, ground arith)
          ]),
        )
      ])
    ]
