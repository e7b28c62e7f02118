-- ===== src/Api/Limits/Windows.antt =====
-- How many calls `check_rate_limit` of services/core-api/src/lib.rs lets pass in a window.
use resilient_messenger.Prelude.{
  ℕ, suc, ◌+◌, ◌-◌, ◌*◌, ◌^◌, ◌≤◌, ◌<◌, min, ◌≡◌, refl, ◌∙◌, true, false, not, ◌||◌, List, [], ◌∷◌,
  ◌++◌, Bytes, bytes_eq_refl, length, ltb, leb, ◌==◌, if◌then◌else◌, Option, none, some, Result, ok,
  err, arith, inl, inr, Bool-cases, Option-cases, Result-cases, All,
}
use resilient_messenger.Core.Sql.{find_where, update_where}
use resilient_messenger.Core.Sql.Keys.{
  find_where-update_where, find_where-append_new, exists_where-find_where-none, find_where_holds,
}
use resilient_messenger.Api.{ApiError, unauthorized, pos, CounterRow, Backend}
use resilient_messenger.Api.Limits.{is_scope, counted, count_call, check_rate_limit, passed}

-- No window of the counter is open.
abbrev pub IsOver : ℕ → ℕ → Option CounterRow → Type 0
IsOver window now none = Unit
IsOver window now (some c) = c.window_start + window * 1000000 ≤ now

module _ (scope : Bytes) (maximum window : ℕ) (named : (0 < length scope) × (length scope ≤ 96))
    (sound : (0 < maximum) × (0 < window)) where
  abbrev pub check : ℕ → Backend → Result ApiError (Unit {0}) × Backend
  check now db = check_rate_limit scope (pos maximum) (pos window) now db

  one_passes : ltb maximum 1 ≡ false
  one_passes = ground arith

  scope_kept :
      (now : ℕ) (y : CounterRow)
      → is_scope scope (counted now (window * 1000000) y) ≡ is_scope scope y
  scope_kept now y = ground arith

  -- What a call answers that has been counted.
  answered :
      (now : ℕ) (db : Backend) (count : ℕ) (db' : Backend)
      → count_call scope now (window * 1000000) db ≡ (count, db')
      → count < 2 ^ 31
      → check now db ≡ ((if ltb maximum count then err unauthorized else ok tt), db')
  unfolding check_rate_limit
  answered now db count db' call small =
      let good : (length scope == 0
            || ltb 96 (length scope)
            || not (leb 1 maximum)
            || not (leb 1 window))
          ≡ false =
        ground arith in
      let fits : leb (2 ^ 31) count ≡ false = ground arith in
      rw (call, good)
        (rw fits (elim (Bool-cases (ltb maximum count)) [
          | inl over ↦ rw over refl
          | inr within ↦ rw within refl
        ]))

  -- A call inside the window of the scope's counter.
  check_inside :
      (now : ℕ) (db : Backend) (c : CounterRow)
      → find_where (is_scope scope) db.counters ≡ some c
      → now < c.window_start + window * 1000000
      → c.count + 1 < 2 ^ 31
      → (db' : Backend) × (check now db
          ≡ ((if ltb maximum (c.count + 1) then err unauthorized else ok tt), db'))
        × (find_where (is_scope scope) db'.counters ≡ some (record c { count = c.count + 1 }))
  unfolding check_rate_limit count_call
  check_inside now db c found inside small =
      let next = record c { count = c.count + 1 } in
      let db' = record db {
        counters = update_where (is_scope scope) (counted now (window * 1000000)) db.counters;
      } in
      let early : leb (c.window_start + window * 1000000) now ≡ false = ground arith in
      let is_c : is_scope scope c ≡ true = find_where_holds (is_scope scope) db.counters found in
      let kept =
        find_where-update_where (is_scope scope) (is_scope scope) (counted now (window * 1000000))
          db.counters (scope_kept now) in
      let call : count_call scope now (window * 1000000) db ≡ (c.count + 1, db') =
        rw (found, count_call) (rw early refl) in
      (db', answered now db (c.count + 1) db' call small, rw (kept, found) (rw (is_c, early) refl))

  abbrev plus_answer : Result ApiError (Unit {0}) → ℕ → ℕ
  plus_answer (ok u) n = suc n
  plus_answer (err e) n = n

  passed_step :
      (now : ℕ) (later : List ℕ) (db : Backend)
      → passed scope (pos maximum) (pos window) (now ∷ later) db
        ≡ plus_answer
            (check now db).0
            (passed scope (pos maximum) (pos window) later (check now db).1)
  unfolding passed
  passed_step now later db = elim (Result-cases (check now db).0) [
    | inl (u, e) ↦ rw (e, passed) refl
    | inr (x, e) ↦ rw (e, passed) refl
  ]

  passed_inside :
      (times : List ℕ) (db : Backend) (c : CounterRow)
      → find_where (is_scope scope) db.counters ≡ some c
      → All (λ now. now < c.window_start + window * 1000000) times
      → c.count + length times < 2 ^ 31
      → passed scope (pos maximum) (pos window) times db ≡ min (length times) (maximum - c.count)
  passed_inside [] db c found inside small = unfold passed in omega arith
  passed_inside (now ∷ later) db c found inside small =
      let (db', answer, next) = check_inside now db c found inside.0 (omega arith) in
      let rest =
        passed_inside later db' (record c { count = c.count + 1 }) next inside.1 (omega arith) in
      rw (passed_step now later db, answer, rest)
        (elim (Bool-cases (ltb maximum (c.count + 1))) [
          | inl over ↦ rw over (ground arith)
          | inr within ↦ rw within (ground arith)
        ])

  pub check_first :
      (now : ℕ) (db : Backend)
      → IsOver window now (find_where (is_scope scope) db.counters)
      → (db' : Backend) × (c : CounterRow) × (check now db ≡ (ok tt, db'))
        × (find_where (is_scope scope) db'.counters ≡ some c)
        × (c.window_start ≡ now)
        × (c.count ≡ 1)
        × (db' ≡ record db { counters = db'.counters })
  unfolding count_call
  check_first now db over = elim (Option-cases (find_where (is_scope scope) db.counters)) [
    | inl absent ↦
        (let c : CounterRow = record { scope = scope; window_start = now; count = 1 } in
          let db' = record db { counters = db.counters ++ c ∷ [] } in
          let new = exists_where-find_where-none (is_scope scope) db.counters absent in
          let call : count_call scope now (window * 1000000) db ≡ (1, db') =
            rw (absent, count_call) refl in
          (
            db',
            c,
            answered now db 1 db' call (omega arith) ∙ rw one_passes refl,
            find_where-append_new (is_scope scope) db.counters c new (bytes_eq_refl scope),
            refl,
            refl,
            refl,
          ))
    | inr (c, found) ↦
        (let done : IsOver window now (some c) = rw found at over in
          let late : leb (c.window_start + window * 1000000) now ≡ true = ground arith in
          let db' = record db {
            counters = update_where (is_scope scope) (counted now (window * 1000000)) db.counters;
          } in
          let is_c = find_where_holds (is_scope scope) db.counters found in
          let kept =
            find_where-update_where (is_scope scope) (is_scope scope)
              (counted now (window * 1000000)) db.counters (scope_kept now) in
          let call : count_call scope now (window * 1000000) db ≡ (1, db') =
            rw (found, count_call) (rw late refl) in
          (
            db',
            record c { window_start = now; count = 1 },
            answered now db 1 db' call (omega arith) ∙ rw one_passes refl,
            rw (kept, found) (rw (is_c, late) refl),
            refl,
            refl,
            refl,
          ))
  ]

  -- For a scope of 1 to 96 bytes, a limit and a window of at least 1: a call comes when no window
  -- of the scope is open, and all later calls, fewer than 2^31 - 1, come before the window that it
  -- opens is over. Then exactly as many of the calls pass as the limit allows, or all, if they are
  -- fewer.
  pub check_rate_limit_window :
      (first : ℕ) (later : List ℕ) (db : Backend)
      → IsOver window first (find_where (is_scope scope) db.counters)
      → All (λ now. now < first + window * 1000000) later
      → length later + 1 < 2 ^ 31
      → passed scope (pos maximum) (pos window) (first ∷ later) db
        ≡ min (length (first ∷ later)) maximum
  check_rate_limit_window first later db over inside few =
      let (db', c, answer, found, start, one, _) = check_first first db over in
      let rest = passed_inside later db' c found (rw start inside) (omega (arith, one, few)) in
      rw (passed_step first later db, answer, rest) ((omega (arith, one, sound.0)))
