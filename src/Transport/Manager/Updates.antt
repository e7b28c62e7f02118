-- ===== src/Transport/Manager/Updates.antt =====
-- `TransportManager::new` and `update_directory` of crates/messenger-transport/src/lib.rs: which
-- directories a manager holds.
use resilient_messenger.Prelude.{
  ℕ, ◌+◌, ◌≤◌, ◌<◌, ◌≡◌, sym, inl, inr, true, ltb, Bool-cases, Bytes, ok, err, ◌>>=◌, >>=-eq-ok,
  arith, if◌then◌else◌,
}
use resilient_messenger.Transport.{SignedRelayDirectory, invalid_directory_signature}
use resilient_messenger.Transport.Directory.{Ed25519, verify, is_out_of_date, signing_bytes}
use resilient_messenger.Transport.Manager.{TransportManager, new, update_directory}

-- The directory is no older than `minimum`, in force at `now`, and signed.
pub record IsTrusted (ed : Ed25519) (key : Bytes) (now minimum : ℕ) (d : SignedRelayDirectory)
    : Type 0 where
  pub fresh : minimum ≤ d.version
  pub started : d.issued_at ≤ now + 300
  pub in_force : now < d.expires_at
  pub lifetime : d.issued_at < d.expires_at
  pub signed :
      (message : Bytes) × (signing_bytes d ≡ ok message)
      × (ed.verify key message d.signature ≡ true)

verify-IsTrusted :
    (ed : Ed25519) (d : SignedRelayDirectory) (key : Bytes) (now minimum : ℕ)
    → verify ed d key now minimum ≡ ok tt
    → IsTrusted ed key now minimum d
unfolding verify is_out_of_date
verify-IsTrusted ed d key now minimum h = elim (Bool-cases (ltb d.version minimum)) [
  | inl old ↦ absurd (ground arith)
  | inr new ↦ elim (Bool-cases (is_out_of_date d now)) [
    | inl out ↦ absurd (ground arith)
    | inr current ↦ elim (Bool-cases (ed.valid_key key)) [
      | inr bad ↦ absurd (ground arith)
      | inl good ↦
          let last : (signing_bytes d >>= λ message.
          if ed.verify key message d.signature then ok tt else err invalid_directory_signature)
              ≡ ok tt =
            rw (new, current, good) at h in
          let (message, made, signed) = >>=-eq-ok (signing_bytes d) _ last in
          record {
            fresh = ground arith;
            started = ground arith;
            in_force = ground arith;
            lifetime = ground arith;
            signed = (message, made, ground arith);
          }
    ]
  ]
]

-- An update that succeeds only replaces the directory, by one that is no older than the one that was
-- held, issued at most 300 seconds in the future, not expired, and signed by the manager's key.
pub update_directory-IsTrusted :
    (ed : Ed25519) (next : SignedRelayDirectory) (now : ℕ) (m m' : TransportManager)
    → update_directory ed next now m ≡ ok m'
    → (m' ≡ record m { directory = next })
      × IsTrusted ed m.verification_key now m.directory.version m'.directory
unfolding update_directory
update_directory-IsTrusted ed next now m m' h =
    let (_, passed, out) =
      >>=-eq-ok (verify ed next m.verification_key now m.directory.version) _ h in
    let same : record m { directory = next } ≡ m' = ground arith in
    (
      sym same,
      rw (← same) (verify-IsTrusted ed next m.verification_key now m.directory.version passed),
    )
