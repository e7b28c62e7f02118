-- ===== src/Core/Sync/Directories.antt =====
-- The cache of relay directories of crates/messenger-core/src/lib.rs: its newest entry.
use resilient_messenger.Prelude.{
  ℕ, ◌^◌, ◌≤◌, max, ◌≡◌, refl, ◌∙◌, inl, inr, ◌⊎◌, true, false, ltb, leb, ◌==◌, Bool-cases,
  Option-cases, List, [], ◌∷◌, Option, none, some, ok, err, arith,
}
use resilient_messenger.Core.{CoreError, CachedRelayDirectory, Db}
use resilient_messenger.Core.Sync.{
  is_before, max_version, upsert_directory, newest, cache_relay_directory, last_relay_directory,
}

abbrev version_of : Option CachedRelayDirectory → Option ℕ
version_of none = none
version_of (some d) = some d.version

-- The newest entry has the largest version.
max_version-newest : (ds : List CachedRelayDirectory) → max_version ds ≡ version_of (newest ds)
unfolding max_version newest
max_version-newest [] = refl
max_version-newest (d ∷ ds) = ground (arith, max_version-newest ds)

-- An entry that is not older than any becomes the newest.
newest-upsert_directory :
    (d : CachedRelayDirectory) (ds : List CachedRelayDirectory)
    → is_before d.version (max_version ds) ≡ false
    → newest (upsert_directory d ds) ≡ some d
unfolding max_version newest upsert_directory
newest-upsert_directory d [] h = refl
newest-upsert_directory d (e ∷ es) h = elim (Option-cases (newest es)) [
  | inl k ↦
      let none_left : max_version es ≡ none = max_version-newest es ∙ rw k refl in
      let first : is_before d.version (some e.version) ≡ false = rw none_left at h in
      let more : newest (upsert_directory d es) ≡ some d =
        newest-upsert_directory d es (rw none_left refl) in
      elim (Bool-cases (e.version == d.version)) [
        | inl same ↦ rw same (rw k refl)
        | inr other ↦
            let lower : ltb e.version d.version ≡ true = ground arith in
            rw other (rw more (rw lower refl))
      ]
  | inr (f, k) ↦
      let top : max_version es ≡ some f.version = max_version-newest es ∙ rw k refl in
      let first : is_before d.version (some (max e.version f.version)) ≡ false = rw top at h in
      let more : newest (upsert_directory d es) ≡ some d =
        newest-upsert_directory d es (rw top (ground arith)) in
      elim (Bool-cases (e.version == d.version)) [
        | inl same ↦
            let low : ltb d.version f.version ≡ false = ground arith in rw same (rw k (rw low refl))
        | inr other ↦
            let lower : ltb e.version d.version ≡ true = ground arith in
            rw other (rw more (rw lower refl))
      ]
]

-- A directory that was cached is the one that is returned; one that was refused leaves what is
-- returned as it was; and the version that is returned never goes down.
pub last_relay_directory-cache_relay_directory :
    (d : CachedRelayDirectory) (db : Db)
    → (((cache_relay_directory d db).0 ≡ ok tt)
          × (last_relay_directory (cache_relay_directory d db).1 ≡ some d)
        ⊎ (x : CoreError) × (cache_relay_directory d db ≡ (err x, db)))
      × ((e : CachedRelayDirectory)
          → last_relay_directory db ≡ some e
          → (f : CachedRelayDirectory) × (last_relay_directory (cache_relay_directory d db).1
              ≡ some f)
            × (e.version ≤ f.version))
unfolding cache_relay_directory last_relay_directory
last_relay_directory-cache_relay_directory d db =
    elim (Bool-cases (is_before d.version (max_version db.relay_directory_cache))) [
      | inl old ↦ rw old (inr (_, refl), λ e h. (e, h, omega arith))
      | inr new ↦ rw new (elim (Bool-cases (leb (2 ^ 63) d.version)) [
        | inl big ↦ rw big (inr (_, refl), λ e h. (e, h, omega arith))
        | inr fits ↦
            let put = newest-upsert_directory d db.relay_directory_cache new in
            rw fits (
              inl (refl, put),
              λ e h.
                  let top : max_version db.relay_directory_cache ≡ some e.version =
                    max_version-newest db.relay_directory_cache ∙ rw h refl in
                  let higher : is_before d.version (some e.version) ≡ false = rw top at new in
                  (d, put, ground arith),
            )
      ])
    ]
