-- ===== src/Transport/Manager/Retries.antt =====
-- `next_retry_at` and `notify_network_change` of crates/messenger-transport/src/lib.rs.
use resilient_messenger.Prelude.{
  ℕ, ◌≤◌, ◌<◌, ◌≡◌, refl, ap, ◌∙◌, inl, inr, ◌⊎◌, Bool, true, false, ◌||◌, ◌==◌, min, ltb, leb,
  Bool-cases, [], ◌∷◌, All, All-weaken, Bytes, bytes_eq, Option, none, some, arith,
}
use resilient_messenger.Transport.Manager.{
  Health, HealthMap, health_of, TransportManager, clear_retries, notify_network_change,
  earliest_retry, next_retry_at,
}

-- The entry is due at once, or not before `t`.
abbrev IsDueFrom : ℕ → Bytes × Health → Type 0
IsDueFrom t (key, h) = (h.retry_after ≡ 0) ⊎ (t ≤ h.retry_after)

abbrev attains : ℕ → HealthMap → Bool
attains t [] = false
attains t ((key, h) ∷ rest) = h.retry_after == t || attains t rest

-- What `earliest_retry` says of the entries.
abbrev pub Earliest : HealthMap → Option ℕ → Type 0
Earliest m none = All (λ e. e.1.retry_after ≡ 0) m
Earliest m (some t) = (0 < t) × All (IsDueFrom t) m × (attains t m ≡ true)

IsDueFrom-le : (s t : ℕ) (m : HealthMap) → s ≤ t → All (IsDueFrom t) m → All (IsDueFrom s) m
IsDueFrom-le s t [] le h = tt
IsDueFrom-le s t ((key, g) ∷ m) le (inl z, rest) = (inl z, IsDueFrom-le s t m le rest)
IsDueFrom-le s t ((key, g) ∷ m) le (inr d, rest) = (inr (omega arith), IsDueFrom-le s t m le rest)

-- An entry that rests, before entries of which `r` is the earliest.
resting_first :
    (key : Bytes) (h : Health) (rest : HealthMap) (r : Option ℕ)
    → 0 < h.retry_after
    → Earliest rest r
    → Earliest
        ((key, h) ∷ rest)
        (elim r [ none ↦ some h.retry_after | some t ↦ some (min h.retry_after t) ])
resting_first key h rest none pos ih = (
  pos,
  (
    inr (omega arith),
    All-weaken (λ e. e.1.retry_after ≡ 0) (IsDueFrom h.retry_after) rest (λ e z. inl z) ih,
  ),
  ground arith,
)
resting_first key h rest (some t) pos (tpos, due, at) = (
  omega arith,
  (inr (omega arith), IsDueFrom-le (min h.retry_after t) t rest (omega arith) due),
  elim (Bool-cases (leb h.retry_after t)) [
    | inl le ↦
        (let first : min h.retry_after t ≡ h.retry_after = ground arith in rw first (ground arith))
    | inr gt ↦
        (let later : min h.retry_after t ≡ t = ground arith in
          let there : attains (min h.retry_after t) rest ≡ true =
            ap (λ s. attains s rest) later ∙ at in
          grind (arith, there))
  ],
)

due_first :
    (key : Bytes) (h : Health) (rest : HealthMap) (r : Option ℕ)
    → h.retry_after ≡ 0
    → Earliest rest r
    → Earliest ((key, h) ∷ rest) r
due_first key h rest none z ih = (z, ih)
due_first key h rest (some t) z (tpos, due, at) = (tpos, (inl z, due), ground arith)

earliest_retry-Earliest : (m : HealthMap) → Earliest m (earliest_retry m)
unfolding earliest_retry
earliest_retry-Earliest [] = tt
earliest_retry-Earliest ((key, h) ∷ rest) = elim (Bool-cases (ltb 0 h.retry_after)) [
  | inl pos ↦
      rw pos (
        resting_first key h rest (earliest_retry rest) (ground arith)
          (earliest_retry-Earliest rest))
  | inr zero ↦
      rw zero
        (due_first key h rest (earliest_retry rest) (ground arith) (earliest_retry-Earliest rest))
]

health_of-clear_retries :
    (id : Bytes) (m : HealthMap)
    → health_of id (clear_retries m) ≡ record (health_of id m) { retry_after = 0 }
unfolding health_of clear_retries
health_of-clear_retries id [] = refl
health_of-clear_retries id ((key, h) ∷ m) = elim (Bool-cases (bytes_eq key id)) [
  | inl e ↦ rw e refl
  | inr e ↦ rw e (health_of-clear_retries id m)
]

cleared : (m : HealthMap) → earliest_retry (clear_retries m) ≡ none
unfolding earliest_retry clear_retries
cleared [] = refl
cleared ((key, h) ∷ m) = cleared m

-- The time that `next_retry_at` gives is positive, is the time of one of the endpoints, and no
-- endpoint that rests at all is due before it; it gives none only if no endpoint rests. After a
-- change of the network every endpoint keeps its failures and is due at once, so that there is no
-- next retry, and the outbox, the directory and the counters are as before.
pub next_retry_at-notify_network_change :
    (m : TransportManager)
    → Earliest m.health (next_retry_at m)
      × (next_retry_at (notify_network_change m) ≡ none)
      × ((id : Bytes)
          → health_of id (notify_network_change m).health
            ≡ record { failures = (health_of id m.health).failures; retry_after = 0 })
      × ((notify_network_change m).outbox ≡ m.outbox)
      × ((notify_network_change m).directory ≡ m.directory)
      × ((notify_network_change m).counters ≡ m.counters)
unfolding next_retry_at notify_network_change
next_retry_at-notify_network_change m = (
  earliest_retry-Earliest m.health,
  cleared m.health,
  λ id. health_of-clear_retries id m.health,
  refl,
  refl,
  refl,
)
