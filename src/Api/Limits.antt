-- ===== src/Api/Limits.antt =====
-- `check_rate_limit` of services/core-api/src/lib.rs. The clock is an argument, in microseconds.
pub mod Windows
use resilient_messenger.Prelude.{
  ℕ, zero, suc, ◌+◌, ◌-◌, ◌*◌, ◌^◌, ◌≤◌, ◌<◌, min, ◌≡◌, refl, Bool, true, false, not, ◌&&◌, ◌||◌,
  List, [], ◌∷◌, ◌++◌, Bytes, bytes_eq, bytes_eq_refl, length, ltb, leb, ◌==◌, if◌then◌else◌,
  Option, none, some, Result, ok, err, arith, inl, inr, Bool-cases, All,
}
use resilient_messenger.Core.Sql.{find_where, update_where}
use resilient_messenger.Api.{
  ApiError, unauthorized, invalid_input, database, ℤ, pos, negsuc, CounterRow, Backend,
}

abbrev pub is_scope : Bytes → CounterRow → Bool
is_scope scope c = bytes_eq c.scope scope

-- What the update does to a row: `window_start<=now()-window`, with the window on the other side,
-- starts a new window.
abbrev pub counted : ℕ → ℕ → CounterRow → CounterRow
counted now window c =
    if leb (c.window_start + window) now
    then record c { window_start = now; count = 1 }
    else record c { count = c.count + 1 }

abbrev pub at_least_one : ℤ → Bool
at_least_one (pos n) = leb 1 n
at_least_one (negsuc n) = false

-- INSERT … ON CONFLICT(scope) DO UPDATE … RETURNING count
unfoldable pub count_call : Bytes → ℕ → ℕ → Backend → ℕ × Backend
count_call scope now window db = elim (find_where (is_scope scope) db.counters) [
  | none ↦ (
    1,
    record db {
      counters = db.counters ++ record { scope = scope; window_start = now; count = 1 } ∷ [];
    },
  )
  | some c ↦ (
    (counted now window c).count,
    record db { counters = update_where (is_scope scope) (counted now window) db.counters },
  )
]

abbrev pub seconds : ℤ → ℕ
seconds (pos n) = n * 1000000
seconds (negsuc n) = 0

abbrev pub exceeds : ℕ → ℤ → Bool
exceeds n (pos m) = ltb m n
exceeds n (negsuc m) = true

-- The count is an INTEGER of 32 bits. A call over the limit is counted too.
unfoldable pub check_rate_limit : Bytes → ℤ → ℤ → ℕ → Backend → Result ApiError (Unit {0}) × Backend
check_rate_limit scope maximum window now db =
    let (count, db') = count_call scope now (seconds window) db in
    if length scope == 0
      || ltb 96 (length scope)
      || not (at_least_one maximum)
      || not (at_least_one window)
    then (err invalid_input, db)
    else if leb (2 ^ 31) count
    then (err database, db)
    else if exceeds count maximum
    then (err unauthorized, db')
    else (ok tt, db')

-- How many of the calls at these times pass.
module _ (scope : Bytes) (maximum window : ℤ) where
  unfoldable pub passed : List ℕ → Backend → ℕ
  passed [] db = 0
  passed (now ∷ later) db =
      let (answer, db') = check_rate_limit scope maximum window now db in
      let rest = passed later db' in elim answer [ ok u ↦ suc rest | err e ↦ rest ]
