-- ===== src/Transport/Manager/Backoff.antt =====
-- The back-off of `flush` in crates/messenger-transport/src/lib.rs.
use resilient_messenger.Prelude.{
  ℕ, zero, suc, ◌+◌, ◌-◌, ◌%◌, ◌≤◌, ◌<◌, ◌^◌, ◌≡◌, refl, ◌∙◌, inl, inr, ltb, Bool-cases, min, max,
  [], ◌∷◌, Bytes, get_or, bytes_eq, bytes_eq_iff, bytes_eq_refl, Result, ok, err, Option, arith,
  if◌then◌else◌,
}
use resilient_messenger.Transport.{RelayEndpoint, TransportError}
use resilient_messenger.Transport.Directory.{saturating_add}
use resilient_messenger.Transport.Manager.{
  EndpointSender, Health, HealthMap, TransportManager, Attempt, delivered, missed, record_failure,
  failed_health, settle, fall_back, try_endpoint, count_attempt, health_of, set_health,
}

pub health_of-set_health :
    (i j : Bytes) (h : Health) (m : HealthMap)
    → health_of j (set_health i h m) ≡ (if bytes_eq i j then h else health_of j m)
unfolding health_of set_health
health_of-set_health i j h [] = refl
health_of-set_health i j h ((k, g) ∷ m) =
    ground
      (arith, bytes_eq_iff k i, bytes_eq_iff k j, bytes_eq_iff i j, health_of-set_health i j h m)

-- `entry(id).or_default()` changes no health.
pub set_same :
    (m : HealthMap) (i j : Bytes) → health_of j (set_health i (health_of i m) m) ≡ health_of j m
set_same m i j = rw health_of-set_health (ground (arith, bytes_eq_iff i j))

power_bounds : (k : ℕ) → k ≤ 7 → (2 ≤ 2 ^ suc k) × (2 ^ suc k ≤ 256)
power_bounds zero h = omega arith
power_bounds (suc zero) h = omega arith
power_bounds (suc (suc zero)) h = omega arith
power_bounds (suc (suc (suc zero))) h = omega arith
power_bounds (suc (suc (suc (suc zero)))) h = omega arith
power_bounds (suc (suc (suc (suc (suc zero))))) h = omega arith
power_bounds (suc (suc (suc (suc (suc (suc zero)))))) h = omega arith
power_bounds (suc (suc (suc (suc (suc (suc (suc zero))))))) h = omega arith
power_bounds (suc (suc (suc (suc (suc (suc (suc (suc k)))))))) h = absurd (omega arith)

rest_bounds :
    (b i now : ℕ)
    → 2 ≤ b
    → b ≤ 256
    → (min (now + 2) (2 ^ 64 - 1) ≤ saturating_add now (b + i % max b 1))
      × (saturating_add now (b + i % max b 1) ≤ min (now + 511) (2 ^ 64 - 1))
rest_bounds b i now lo hi =
    let positive : max b 1 ≡ b = omega arith in
    let jitter : i % b < b = grind arith in rw positive (omega arith, omega arith)

-- After a failure at `now` an endpoint rests for 2 to 511 seconds, and never past the last second
-- of a u64; its count of failures grows by one until it stays at the largest u32.
pub failed_health_bounds :
    (e : RelayEndpoint) (now : ℕ) (h : Health)
    → (min (now + 2) (2 ^ 64 - 1) ≤ (failed_health e now h).retry_after)
      × ((failed_health e now h).retry_after ≤ min (now + 511) (2 ^ 64 - 1))
      × ((failed_health e now h).failures ≡ min (h.failures + 1) (2 ^ 32 - 1))
unfolding failed_health
failed_health_bounds e now h =
    let f = min (h.failures + 1) (2 ^ 32 - 1) in
    let k = min f 8 - 1 in
    let shape : min f 8 ≡ suc k = omega arith in
    let small : k ≤ 7 = omega arith in
    let (lo, hi) = power_bounds k small in
    let (soon, late) = rest_bounds (2 ^ suc k) (get_or e.endpoint_id 0 0) now lo hi in
    rw shape (soon, late, refl)

-- The endpoint rests beyond `now`.
abbrev pub IsResting : HealthMap → ℕ → Bytes → Type 0
IsResting m now id = now < (health_of id m).retry_after

-- Whoever rested still rests.
abbrev pub StillResting : ℕ → TransportManager → TransportManager → Type 0
StillResting now m m' = (id : Bytes) → IsResting m.health now id → IsResting m'.health now id

failed_health_rests :
    (e : RelayEndpoint) (now : ℕ) (h : Health)
    → now + 1 < 2 ^ 64
    → now < (failed_health e now h).retry_after
failed_health_rests e now h small = omega (arith, failed_health_bounds e now h)

module _ {W : Type 0} (sender : EndpointSender W) (now : ℕ) (small : now + 1 < 2 ^ 64) where
  -- A missed attempt leaves its endpoint resting, and all that rested, and the preference as it was.
  abbrev pub Missed : TransportManager → Bytes → Attempt W → Type 0
  Missed m id (delivered v m' w) = Unit
  Missed m id (missed m' w) =
      IsResting m'.health now id
      × StillResting now m m'
      × (m'.preferred_endpoint ≡ m.preferred_endpoint)

  settle-Missed :
      (hi : Option Bytes) (e : RelayEndpoint) (m : TransportManager)
      (r : Result TransportError Bytes × W)
      → Missed m e.endpoint_id (settle sender hi e now m r)
  unfolding settle record_failure
  settle-Missed hi e m (ok v, w) = tt
  settle-Missed hi e m (err x, w) =
      let id = e.endpoint_id in
      let h = failed_health e now (health_of id m.health) in
      let rests = failed_health_rests e now (health_of id m.health) small in
      (
        rw health_of-set_health (rw bytes_eq_refl rests),
        λ j rested.
            rw health_of-set_health
              (elim (Bool-cases (bytes_eq id j)) [ inl y ↦ rw y rests | inr n ↦ rw n rested ]),
        refl,
      )

  fall_back-Missed :
      (hi : Option Bytes) (e : RelayEndpoint) (fr : Bytes) (m : TransportManager)
      (r : Result TransportError Bytes × W)
      → Missed m e.endpoint_id (fall_back sender hi e fr now m r)
  unfolding fall_back
  fall_back-Missed hi e fr m (ok v, w) = settle-Missed hi e m (ok v, w)
  fall_back-Missed hi e fr m (err x, w) = settle-Missed hi e _ (sender.send_https e fr w)

  Missed-weaken :
      (m k : TransportManager) (id : Bytes) (a : Attempt W)
      → StillResting now m k
      → k.preferred_endpoint ≡ m.preferred_endpoint
      → Missed k id a
      → Missed m id a
  Missed-weaken m k id (delivered v m' w) s p h = tt
  Missed-weaken m k id (missed m' w) s p h = (h.0, λ j r. h.1 j (s j r), h.2 ∙ p)

  pub try_endpoint-Missed :
      (hi : Option Bytes) (e : RelayEndpoint) (fr : Bytes) (m : TransportManager) (w : W)
      → Missed m e.endpoint_id (try_endpoint sender hi e fr now m w)
  unfolding try_endpoint
  try_endpoint-Missed hi e fr m w =
      let id = e.endpoint_id in
      let keep : (j : Bytes)
          → IsResting m.health now j
          → IsResting (set_health id (health_of id m.health) m.health) now j =
        λ j r. rw (set_same m.health id j) r in
      elim (Bool-cases (ltb now (health_of id m.health).retry_after)) [
        | inl wait ↦ rw wait (keep id (ground arith), keep, refl)
        | inr go ↦
            let k = record m {
              health = set_health id (health_of id m.health) m.health;
              counters = count_attempt fr m.counters;
            } in
            rw go (
              Missed-weaken m k id _ keep refl
                (fall_back-Missed hi e fr k (sender.send_websocket e fr w)))
      ]
