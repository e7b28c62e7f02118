-- ===== src/Fixtures.antt =====
-- Concrete functions in the place of the libraries, for the tests.
use resilient_messenger.Prelude.{
  ℕ, zero, suc, ◌-◌, ◌≡◌, refl, sym, ap, ◌∙◌, true, Bytes, [], ◌∷◌, ◌++◌, length, length-append,
  length-take, take, drop, take-length_append, bytes_eq, bytes_eq_refl, some, arith,
}
use resilient_messenger.Core.Cipher.{Aead, IsAead}
use resilient_messenger.Transport.Directory.{Ed25519}
use resilient_messenger.Identity.{Signing, IsSigning}
use resilient_messenger.Api.{Backend}

abbrev pub zeros : ℕ → Bytes
zeros zero = []
zeros (suc n) = 0 ∷ zeros n

abbrev pub toy : Aead
toy = record {
  seal = λ key nonce aad message. some (message ++ zeros 16);
  unseal = λ key nonce aad sealed. some (take (length sealed - 16) sealed);
}

pub toy-IsAead : IsAead toy
toy-IsAead = record {
  opens = λ key nonce aad message sealed e.
      let same : message ++ zeros 16 ≡ sealed = ground arith in
      let long : length (message ++ zeros 16) - 16 ≡ length message =
        ap (λ n. n - 16) (length-append message (zeros 16)) ∙ omega arith in
      rw (← same) (rw long (ap some (take-length_append message (zeros 16))));
  tag = λ key nonce aad message sealed e.
      let same : message ++ zeros 16 ≡ sealed = ground arith in
      ap length (sym same) ∙ length-append message (zeros 16);
}

-- The first n bytes, filled up with zeros.
abbrev pub fit : ℕ → Bytes → Bytes
fit n m = take n (m ++ zeros n)

pub length-zeros : (n : ℕ) → length (zeros n) ≡ n
length-zeros zero = omega arith
length-zeros (suc n) = omega (arith, length-zeros n)

pub length-fit : (n : ℕ) (m : Bytes) → length (fit n m) ≡ n
length-fit n m =
    omega (arith, length-take n (m ++ zeros n), length-append m (zeros n), length-zeros n)

-- A signature is the key with the front of the message.
abbrev pub toy_ed : Ed25519
toy_ed = record {
  valid_key = λ key. true;
  verify = λ key message signature. bytes_eq signature (fit 64 (key ++ message));
}

abbrev pub toy_keys : Signing
toy_keys = record {
  verifying_key = λ secret. fit 32 secret;
  sign = λ secret message. fit 64 (fit 32 secret ++ message);
}

pub toy-IsSigning : IsSigning toy_ed toy_keys
toy-IsSigning = record {
  valid = λ secret. refl;
  verifies = λ secret message. bytes_eq_refl (fit 64 (fit 32 secret ++ message));
  key_width = λ secret. length-fit 32 secret;
  signature_width = λ secret message. length-fit 64 (fit 32 secret ++ message);
}

-- A hash that keeps what follows the tags of the tokens.
abbrev pub toy_hash : Bytes → Bytes
toy_hash m = fit 32 (drop 27 m)

-- A backend with no rows.
abbrev pub empty : Backend
empty = record {
  accounts = [];
  devices = [];
  groups = [];
  members = [];
  operations = [];
  events = [];
  cursors = [];
  receipts = [];
  key_packages = [];
  welcomes = [];
  next_cursor = 1;
  certificates = [];
  usernames = [];
  cooldowns = [];
  challenges = [];
  access_sessions = [];
  refresh_sessions = [];
  counters = [];
}
