-- ===== src/Identity/Usernames.antt =====
-- `canonical_username` of crates/messenger-identity/src/lib.rs. The Unicode tables are a parameter:
-- the characters of a text after NFKC and the mapping to lower case.
use resilient_messenger.Prelude.{
  ℕ, ◌≤◌, ◌<◌, ◌≡◌, refl, Bool, true, false, not, ◌&&◌, ◌||◌, List, [], ◌∷◌, All, All-weaken, inl,
  inr, Bool-cases, ltb, leb, ◌==◌, if◌then◌else◌, length, Result, ok, err, arith,
}
use resilient_messenger.Core.Sql.{exists_where}
use resilient_messenger.Identity.{IdentityError, invalid_input}

-- `char::is_control` on the characters below U+0100 is this; those above are never kept.
unfoldable pub is_control : ℕ → Bool
is_control c = ltb c 32 || leb 127 c && ltb c 160

unfoldable pub is_ascii_alphanumeric : ℕ → Bool
is_ascii_alphanumeric c =
    leb b'0' c && leb c b'9' || leb b'A' c && leb c b'Z' || leb b'a' c && leb c b'z'

-- A character that refuses the name.
unfoldable pub is_refused : ℕ → Bool
unfolding is_control is_ascii_alphanumeric
is_refused c = is_control c || not (is_ascii_alphanumeric c || c == b'_' || c == b'.')

-- The length is counted in characters.
unfoldable pub is_refused_name : List ℕ → Bool
unfolding is_refused
is_refused_name v = not (leb 3 (length v) && leb (length v) 32) || exists_where is_refused v

-- An accepted name is ASCII, so that its characters are its bytes.
module _ (fold : List ℕ → List ℕ) where
  unfoldable pub canonical_username : List ℕ → Result IdentityError (List ℕ)
  canonical_username input =
      let v = fold input in if is_refused_name v then err invalid_input else ok v

abbrev pub IsCapital : ℕ → Type 0
IsCapital c = (b'A' ≤ c) × (c ≤ b'Z')

-- A character of a canonical name: a small letter, a digit, `_` or `.`.
abbrev pub IsNameCharacter : ℕ → Type 0
IsNameCharacter c = is_refused c ≡ false × ¬ IsCapital c

-- What the Unicode mappings document: no capital letter of ASCII is left, and ASCII text without
-- capital letters is unchanged.
pub record IsFold (fold : List ℕ → List ℕ) : Type 0 where
  pub no_capitals : (v : List ℕ) → All (λ c. ¬ IsCapital c) (fold v)
  pub keeps : (v : List ℕ) → All (λ c. (c < 128) × ¬ IsCapital c) v → fold v ≡ v

abbrev Keepable : ℕ → Type 0
Keepable c = (c < 128) × ¬ IsCapital c

Keepable-IsNameCharacter : (c : ℕ) → IsNameCharacter c → Keepable c
unfolding is_refused
Keepable-IsNameCharacter c h = (ground arith, h.1)

All-exists_where :
    (v : List ℕ)
    → All (λ c. ¬ IsCapital c) v
    → exists_where is_refused v ≡ false
    → All IsNameCharacter v
unfolding exists_where
All-exists_where [] h e = tt
All-exists_where (c ∷ v) h e = elim (Bool-cases (is_refused c)) [
  | inl bad ↦ absurd (differs (rw bad at e))
  | inr good ↦ ((good, h.0), All-exists_where v h.1 (rw good at e))
]
  where
    differs : true ≡ false → ⊥
    differs k = cc

accepted :
    (fold : List ℕ → List ℕ) (input v : List ℕ)
    → canonical_username fold input ≡ ok v
    → (v ≡ fold input) × (is_refused_name v ≡ false)
unfolding canonical_username
accepted fold input v e = elim (Bool-cases (is_refused_name (fold input))) [
  | inl bad ↦ ground arith
  | inr good ↦ ground arith
]

-- Every name that `canonical_username` accepts has 3 to 32 characters, each a small letter of
-- ASCII, a digit, `_` or `.`, if the mapping to lower case leaves no capital letter of ASCII.
pub canonical_username-IsNameCharacter :
    (fold : List ℕ → List ℕ) (input v : List ℕ)
    → IsFold fold
    → canonical_username fold input ≡ ok v
    → (3 ≤ length v) × (length v ≤ 32) × All IsNameCharacter v
unfolding is_refused_name
canonical_username-IsNameCharacter fold input v laws e =
    let (v_is, good) = accepted fold input v e in
    let small : All (λ c. ¬ IsCapital c) v = rw v_is (laws.no_capitals input) in
    let clean : exists_where is_refused v ≡ false = ground arith in
    (ground arith, ground arith, All-exists_where v small clean)

-- An accepted name is canonical: asked for again, it is accepted as itself.
pub canonical_username_twice :
    (fold : List ℕ → List ℕ) (input v : List ℕ)
    → IsFold fold
    → canonical_username fold input ≡ ok v
    → canonical_username fold v ≡ ok v
unfolding canonical_username
canonical_username_twice fold input v laws e =
    let (_, good) = accepted fold input v e in
    let (_, _, names) = canonical_username-IsNameCharacter fold input v laws e in
    let same : fold v ≡ v =
      laws.keeps v (All-weaken IsNameCharacter Keepable v Keepable-IsNameCharacter names) in
    rw (same, good) refl
