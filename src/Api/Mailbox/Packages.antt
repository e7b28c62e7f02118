-- ===== src/Api/Mailbox/Packages.antt =====
-- `fetch_key_package` of services/core-api/src/lib.rs and the packages that are left.
use resilient_messenger.Prelude.{
  ℕ, ◌≡◌, ◌∙◌, ◌==◌, ltb, not, ◌||◌, ◌++◌, length, bytes_eq, bytes_eq_iff, refl, ap, inl, inr, Bool,
  true, false, ◌&&◌, Bool-cases, Option-cases, List, [], ◌∷◌, All, All-weaken, All-sort_by, Bytes,
  bytes_eq_refl, subst, leb, sort_by, Option, none, some, Result, ok, arith,
}
use resilient_messenger.Core.Sql.{
  select_where, update_where, exists_where, exists_where-append, exists_where-update_where,
  exists_where-update_where-false,
}
use resilient_messenger.Core.Account.{is_present}
use resilient_messenger.Api.{ApiError, max_key_package_size, KeyPackageRow, Backend}
use resilient_messenger.Api.Groups.{is_active_device}
use resilient_messenger.Api.Mailbox.{
  is_package, is_available, head?, oldest_package, fetch_key_package, publish_key_package,
}

-- A package that is not consumed stands in the table under that identifier.
abbrev pub is_left : Bytes → KeyPackageRow → Bool
is_left id k = is_package id k && is_present k.consumed_at

abbrev Fetched :
    Result ApiError (Option (Bytes × Bytes)) × Backend
    → Result ApiError (Option (Bytes × Bytes)) × Backend
    → Type 0
Fetched a b = a ≡ b

consumed_is_gone :
    (id : Bytes) (now : ℕ) (ks : List KeyPackageRow)
    → exists_where
        (is_left id)
        (update_where (is_package id) (λ x. record x { consumed_at = some now }) ks)
      ≡ false
unfolding exists_where update_where
consumed_is_gone id now [] = refl
consumed_is_gone id now (k ∷ ks) = ground (arith, consumed_is_gone id now ks)

rows_left :
    (device : Bytes) (ks : List KeyPackageRow)
    → All (λ k. is_available device k ≡ true → exists_where (is_left k.package_id) ks ≡ true) ks
unfolding exists_where
rows_left device [] = tt
rows_left device (k ∷ ks) = (
  λ e. ground (arith, bytes_eq_refl k.package_id),
  All-weaken (λ x. is_available device x ≡ true → exists_where (is_left x.package_id) ks ≡ true) _
      ks (λ x f e. let there = f e in ground arith) (rows_left device ks),
)

All-select_where-true :
    (P : KeyPackageRow → Type 0) (p : KeyPackageRow → Bool) (ks : List KeyPackageRow)
    → All (λ k. p k ≡ true → P k) ks
    → All P (select_where p ks)
unfolding select_where
All-select_where-true P p [] h = tt
All-select_where-true P p (k ∷ ks) h = elim (Bool-cases (p k)) [
  | inl e ↦ rw e (h.0 e, All-select_where-true P p ks h.1)
  | inr e ↦ rw e (All-select_where-true P p ks h.1)
]

All-head? :
    (P : KeyPackageRow → Type 0) (ks : List KeyPackageRow) (k : KeyPackageRow)
    → All P ks
    → head? ks ≡ some k
    → P k
All-head? P [] k h e = absurd (ground arith)
All-head? P (x ∷ ks) k h e = let same : x ≡ k = ground arith in subst P same h.0

oldest_is_left :
    (device : Bytes) (db : Backend) (k : KeyPackageRow)
    → oldest_package device db ≡ some k
    → exists_where (is_left k.package_id) db.key_packages ≡ true
unfolding oldest_package
oldest_is_left device db k e =
    let P = λ (x : KeyPackageRow). exists_where (is_left x.package_id) db.key_packages ≡ true in
    let older = λ (a b : KeyPackageRow). leb a.created_at b.created_at in
    let rows = select_where (is_available device) db.key_packages in
    All-head? P (sort_by older rows) k
      (All-sort_by older P rows (
        All-select_where-true P (is_available device) db.key_packages
          (rows_left device db.key_packages)))
      e

fetched :
    (device : Bytes) (now : ℕ) (db db' : Backend) (id content : Bytes)
    → fetch_key_package device now db ≡ (ok (some (id, content)), db')
    → (exists_where (is_left id) db.key_packages ≡ true)
      × (exists_where (is_left id) db'.key_packages ≡ false)
unfolding fetch_key_package
fetched device now db db' id content h = elim (Option-cases (oldest_package device db)) [
  | inl e ↦
      (let no : Fetched (ok none, db) (ok (some (id, content)), db') =
          rw (e, fetch_key_package) at h in
        absurd (ground arith))
  | inr (k, e) ↦
      let after = record db {
        key_packages =
            update_where (is_package k.package_id) (λ x. record x { consumed_at = some now })
              db.key_packages;
      } in
      let done : Fetched (ok (some (k.package_id, k.content)), after)
          (ok (some (id, content)), db') =
        rw (e, fetch_key_package) at h in
      let same : k.package_id ≡ id = ground arith in
      let left : after ≡ db' =
        ap (λ (r : Result ApiError (Option (Bytes × Bytes)) × Backend). r.1) done in
      (
        rw (← same) (oldest_is_left device db k e),
        rw (← left) (rw (← same) (consumed_is_gone k.package_id now db.key_packages)),
      )
]

left_row :
    (id : Bytes) (ks : List KeyPackageRow)
    → exists_where (is_left id) ks ≡ true
    → exists_where (is_package id) ks ≡ true
unfolding exists_where
left_row id [] h = h
left_row id (k ∷ ks) h = ground (arith, left_row id ks)

fetched_row :
    (device : Bytes) (now : ℕ) (db db' : Backend) (id content : Bytes)
    → fetch_key_package device now db ≡ (ok (some (id, content)), db')
    → exists_where (is_left id) db.key_packages ≡ true
    → exists_where (is_package id) db'.key_packages ≡ true
unfolding fetch_key_package
fetched_row device now db db' id content h was =
    let before = left_row id db.key_packages was in
    elim (Option-cases (oldest_package device db)) [
      | inl e ↦
          (let no : Fetched (ok none, db) (ok (some (id, content)), db') =
              rw (e, fetch_key_package) at h in
            absurd (ground arith))
      | inr (k, e) ↦
          let f = λ (x : KeyPackageRow). record x { consumed_at = some now } in
          let after = record db {
            key_packages = update_where (is_package k.package_id) f db.key_packages;
          } in
          let done : Fetched (ok (some (k.package_id, k.content)), after)
              (ok (some (id, content)), db') =
            rw (e, fetch_key_package) at h in
          let left : after ≡ db' =
            ap (λ (r : Result ApiError (Option (Bytes × Bytes)) × Backend). r.1) done in
          rw (← left) (
            exists_where-update_where (is_package id) (is_package k.package_id) f db.key_packages
              (λ x. refl)
            ∙ before)
    ]

-- A row has the identifier, and none that is not consumed.
pub record IsConsumed (id : Bytes) (ks : List KeyPackageRow) : Type 0 where
  pub row : exists_where (is_package id) ks ≡ true
  pub none_left : exists_where (is_left id) ks ≡ false

-- What fetches and publications, by any devices and at any times, make of the backend.
pub data Later (db : Backend) : Backend → Type 0 where
  now_on : Later db db
  fetch :
      (device : Bytes) (now : ℕ) {b : Backend}
      → Later db b
      → Later db (fetch_key_package device now b).1
  publish :
      (device pid content : Bytes) (now : ℕ) {b : Backend}
      → Later db b
      → Later db (publish_key_package device pid content now b).1

fetch-IsConsumed :
    (id device : Bytes) (now : ℕ) (db : Backend)
    → IsConsumed id db.key_packages
    → IsConsumed id (fetch_key_package device now db).1.key_packages
unfolding fetch_key_package
fetch-IsConsumed id device now db h = elim (Option-cases (oldest_package device db)) [
  | inl e ↦ rw (e, fetch_key_package) h
  | inr (k, e) ↦
      let f = λ (x : KeyPackageRow). record x { consumed_at = some now } in
      rw (e, fetch_key_package)
        (record {
          row =
              exists_where-update_where (is_package id) (is_package k.package_id) f db.key_packages
                (λ x. refl)
              ∙ h.row;
          none_left =
              exists_where-update_where-false (is_left id) (is_package k.package_id) f
                db.key_packages (λ x a b. ground arith) h.none_left;
        })
]

publish-IsConsumed :
    (id device pid content : Bytes) (now : ℕ) (db : Backend)
    → IsConsumed id db.key_packages
    → IsConsumed id (publish_key_package device pid content now db).1.key_packages
unfolding publish_key_package
publish-IsConsumed id device pid content now db h =
    let row : KeyPackageRow = record {
      package_id = pid;
      device_id = device;
      content = content;
      consumed_at = none;
      created_at = now;
    } in
    elim (Bool-cases (exists_where (is_package pid) db.key_packages)) [
      | inl old ↦
          (let same : (publish_key_package device pid content now db).1 ≡ db = ground arith in
            rw same h)
      | inr new ↦ elim (Bool-cases (bytes_eq pid id)) [
        | inl mine ↦
            (let is_id : pid ≡ id = (bytes_eq_iff pid id).0 mine in
              let absent : exists_where (is_package id) db.key_packages ≡ false =
                rw (← is_id) new in
              absurd (ground (arith, h.row)))
        | inr other ↦
            let rows_1 = exists_where-append (is_package id) db.key_packages (row ∷ []) in
            let rows_2 = exists_where-append (is_left id) db.key_packages (row ∷ []) in
            let last_2 : exists_where (is_left id) (row ∷ []) ≡ false =
              unfold exists_where in rw other refl in
            let added : IsConsumed id (db.key_packages ++ row ∷ []) = record {
              row = ground (arith, rows_1, h.row);
              none_left = ground (arith, rows_2, h.none_left, last_2);
            } in
            elim (Bool-cases (length content == 0 || ltb max_key_package_size (length content))) [
              | inl bad ↦ rw bad h
              | inr good ↦
                  rw good
                    (elim (Bool-cases (
                      not (exists_where (is_active_device device) db.devices)
                      || exists_where (is_package pid) db.key_packages)) [
                        | inl bad ↦ rw bad h
                        | inr fine ↦ rw fine added
                      ])
            ]
      ]
    ]

Later-IsConsumed :
    (id : Bytes) {db b : Backend}
    → IsConsumed id db.key_packages
    → Later db b
    → IsConsumed id b.key_packages
Later-IsConsumed id h now_on = h
Later-IsConsumed id h (fetch device now {b = b} r) =
    fetch-IsConsumed id device now b (Later-IsConsumed id h r)
Later-IsConsumed id h (publish device pid content now {b = b} r) =
    publish-IsConsumed id device pid content now b (Later-IsConsumed id h r)

-- A fetched package was in the table and not consumed. After the call it is consumed, and it stays
-- so through any fetches and publications of key packages, one after another, by whatever devices
-- and at whatever times: none of these fetches gives a package of that identifier again.
pub fetch_key_package_once :
    (device : Bytes) (now : ℕ) (db db' : Backend) (id content : Bytes)
    → fetch_key_package device now db ≡ (ok (some (id, content)), db')
    → (exists_where (is_left id) db.key_packages ≡ true)
      × IsConsumed id db'.key_packages
      × ((b : Backend)
          → Later db' b
          → IsConsumed id b.key_packages
            × ((other : Bytes) (later : ℕ) (content' : Bytes) (b' : Backend)
                → ¬ (fetch_key_package other later b ≡ (ok (some (id, content')), b'))))
fetch_key_package_once device now db db' id content h =
    let (was, gone) = fetched device now db db' id content h in
    let row : exists_where (is_package id) db'.key_packages ≡ true =
      fetched_row device now db db' id content h was in
    let consumed : IsConsumed id db'.key_packages = record { row = row; none_left = gone } in
    (
      was,
      consumed,
      λ b r.
          let still = Later-IsConsumed id consumed r in
          (
            still,
            λ other later content' b' again.
                let (left, _) = fetched other later b b' id content' again in
                absurd (ground (arith, still.none_left)),
          ),
    )
