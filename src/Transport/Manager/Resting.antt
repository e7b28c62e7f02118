-- ===== src/Transport/Manager/Resting.antt =====
-- Endpoints that rest, in `flush` of crates/messenger-transport/src/lib.rs and between two calls.
use resilient_messenger.Prelude.{
  ℕ, ◌+◌, ◌≤◌, ◌<◌, ◌^◌, ◌≡◌, refl, sym, subst, inl, inr, true, ltb, List, [], ◌∷◌, ◌++◌, All,
  All-weaken, Bytes, Result, ok, err, Option, arith, sort_by, All-sort_by, All-sort_by_back,
}
use resilient_messenger.Transport.{RelayEndpoint, TransportError, unavailable}
use resilient_messenger.Transport.Manager.{
  EndpointSender, QueuedFrame, TransportManager, Attempt, delivered, missed, try_endpoint,
  try_endpoints, send_frame, flush_loop, flush, choice_at_most, first_endpoint, health_of,
  set_health,
}
use resilient_messenger.Transport.Manager.Outbox.{
  Attempt-cases, Kept, send_frame-Kept, flush-Flushed,
}
use resilient_messenger.Transport.Manager.Backoff.{
  IsResting, StillResting, try_endpoint-Missed, set_same,
}

-- Every endpoint of the list rests beyond `now`.
abbrev pub AllResting : ℕ → TransportManager → List RelayEndpoint → Type 0
AllResting now m es = All (λ e. IsResting m.health now e.endpoint_id) es

module _ {W : Type 0} (sender : EndpointSender W) (now : ℕ) (small : now + 1 < 2 ^ 64) where
  abbrev AllMissed : TransportManager → List RelayEndpoint → Attempt W → Type 0
  AllMissed m es (delivered v m' w) = Unit
  AllMissed m es (missed m' w) = AllResting now m' es × StillResting now m m'

  AllMissed-cons :
      (e : RelayEndpoint) (es : List RelayEndpoint) (m k : TransportManager) (a : Attempt W)
      → IsResting k.health now e.endpoint_id
      → StillResting now m k
      → AllMissed k es a
      → AllMissed m (e ∷ es) a
  AllMissed-cons e es m k (delivered v m' w) r s h = tt
  AllMissed-cons e es m k (missed m' w) r s h = ((h.1 e.endpoint_id r, h.0), λ j q. h.1 j (s j q))

  try_endpoints-AllMissed :
      (hi : Option Bytes) (es : List RelayEndpoint) (fr : Bytes) (m : TransportManager) (w : W)
      → AllMissed m es (try_endpoints sender hi es fr now m w)
  unfolding try_endpoints
  try_endpoints-AllMissed hi [] fr m w = (tt, λ j r. r)
  try_endpoints-AllMissed hi (e ∷ es) fr m w =
      let first = try_endpoint-Missed sender now small hi e fr m w in
      elim (Attempt-cases (try_endpoint sender hi e fr now m w)) [
        | inl (v, m', w', a) ↦ rw (a, try_endpoints) tt
        | inr (m', w', a) ↦
            let (rests, still, _) = rw a at first in
            rw (a, try_endpoints)
              (AllMissed-cons e es m m' _ rests still (try_endpoints-AllMissed hi es fr m' w'))
      ]

  -- A failed flush leaves every endpoint of the directory resting.
  abbrev Rested : Result TransportError (List Bytes) × TransportManager × W → Type 0
  Rested (ok rs, m, w) = Unit
  Rested (err x, m, w) = AllResting now m m.directory.endpoints

  send_frame-rests :
      (f : QueuedFrame) (m : TransportManager) (w : W) (m' : TransportManager) (w' : W)
      → send_frame sender f now m w ≡ missed m' w'
      → AllResting now m' m'.directory.endpoints
  unfolding send_frame
  send_frame-rests f m w m' w' a =
      let es = sort_by (choice_at_most m.preferred_endpoint) m.directory.endpoints in
      let all = try_endpoints-AllMissed (first_endpoint es) es f.bytes m w in
      let kept : Kept m m' = (rw a at (send_frame-Kept sender f now m w)) in
      let (rests, _) = rw a at all in
      rw (kept.directory) (
        All-sort_by_back (choice_at_most m.preferred_endpoint)
          (λ e. IsResting m'.health now e.endpoint_id) m.directory.endpoints rests)

  flush_loop-Rested :
      (queue : List QueuedFrame) (rs : List Bytes) (m : TransportManager) (w : W)
      → Rested (flush_loop sender queue rs now m w)
  unfolding flush_loop
  flush_loop-Rested [] rs m w = tt
  flush_loop-Rested (f ∷ queue) rs m w = elim (Attempt-cases (send_frame sender f now m w)) [
    | inl (v, m', w', a) ↦
        rw (a, flush_loop)
          (flush_loop-Rested queue (rs ++ v ∷ []) (record m' { outbox = queue }) w')
    | inr (m', w', a) ↦ rw (a, flush_loop) (send_frame-rests f m w m' w' a)
  ]

-- While every endpoint rests, no attempt is made: the network is not called, nothing is counted.
module _ {W : Type 0} (sender : EndpointSender W) (t : ℕ) where
  -- The manager after `entry(id).or_default()`.
  abbrev entered : RelayEndpoint → TransportManager → TransportManager
  entered e m = record m {
    health = set_health e.endpoint_id (health_of e.endpoint_id m.health) m.health;
  }

  try_endpoint_resting :
      (hi : Option Bytes) (e : RelayEndpoint) (fr : Bytes) (m : TransportManager) (w : W)
      → IsResting m.health t e.endpoint_id
      → try_endpoint sender hi e fr t m w ≡ missed (entered e m) w
  unfolding try_endpoint
  try_endpoint_resting hi e fr m w h =
      let wait : ltb t (health_of e.endpoint_id m.health).retry_after ≡ true = ground arith in
      rw wait refl

  AllResting-entered :
      (e : RelayEndpoint) (es : List RelayEndpoint) (m : TransportManager)
      → AllResting t m es
      → AllResting t (entered e m) es
  AllResting-entered e es m h =
      All-weaken (λ d. IsResting m.health t d.endpoint_id) _ es
        (λ d r. rw (set_same m.health e.endpoint_id d.endpoint_id) r) h

  try_endpoints_resting :
      (hi : Option Bytes) (es : List RelayEndpoint) (fr : Bytes) (m : TransportManager) (w : W)
      → AllResting t m es
      → (m' : TransportManager) × (try_endpoints sender hi es fr t m w ≡ missed m' w)
        × (m'.counters ≡ m.counters)
        × (m'.outbox ≡ m.outbox)
  unfolding try_endpoints
  try_endpoints_resting hi [] fr m w h = (m, refl, refl, refl)
  try_endpoints_resting hi (e ∷ es) fr m w h =
      let (m', sent, counters, outbox) =
        try_endpoints_resting hi es fr (entered e m) w (AllResting-entered e es m h.1) in
      (m', rw (try_endpoint_resting hi e fr m w h.0, try_endpoints) sent, counters, outbox)

  -- While every endpoint of the directory rests, a flush of a non-empty outbox fails as
  -- unavailable; it does not call the network, counts nothing and keeps the outbox.
  pub flush_resting :
      (m : TransportManager) (w : W) (f : QueuedFrame) (fs : List QueuedFrame)
      → m.outbox ≡ f ∷ fs
      → AllResting t m m.directory.endpoints
      → (m' : TransportManager) × (flush sender t m w ≡ (err unavailable, m', w))
        × (m'.counters ≡ m.counters)
        × (m'.outbox ≡ m.outbox)
  unfolding flush flush_loop send_frame
  flush_resting m w f fs queued h =
      let es = sort_by (choice_at_most m.preferred_endpoint) m.directory.endpoints in
      let (m', sent, counters, outbox) =
        try_endpoints_resting (first_endpoint es) es f.bytes m w
          (All-sort_by (choice_at_most m.preferred_endpoint) _ m.directory.endpoints h) in
      let stopped : flush_loop sender (f ∷ fs) [] t m w ≡ (err unavailable, m', w) =
        rw (sent, flush_loop) refl in
      (
        m',
        subst (λ q. flush_loop sender q [] t m w ≡ (err unavailable, m', w)) (sym queued) stopped,
        counters,
        outbox,
      )

AllResting-le :
    (t now : ℕ) (m : TransportManager) (es : List RelayEndpoint)
    → t ≤ now
    → AllResting now m es
    → AllResting t m es
AllResting-le t now m es le h =
    All-weaken (λ d. IsResting m.health now d.endpoint_id) _ es (λ d r. omega arith) h

-- After a flush that failed at `now`, two seconds or more below 2 ^ 64, a flush at that second or
-- before fails too, with no call of the network: it counts nothing and keeps the outbox.
pub flush_after_failure :
    {W : Type 0} (sender : EndpointSender W) (now t : ℕ) (m m' : TransportManager) (w w' : W)
    (x : TransportError)
    → now + 1 < 2 ^ 64
    → t ≤ now
    → flush sender now m w ≡ (err x, m', w')
    → (m'' : TransportManager) × (flush sender t m' w' ≡ (err unavailable, m'', w'))
      × (m''.counters ≡ m'.counters)
      × (m''.outbox ≡ m'.outbox)
unfolding flush
flush_after_failure sender now t m m' w w' x small le e =
    let ended = rw e at (flush-Flushed sender now m w) in
    let rested = rw e at (flush_loop-Rested sender now small m.outbox [] m w) in
    let (_, sent, f, fs, left, cut) = ended in
    flush_resting sender t m' w' f fs left (AllResting-le t now m' m'.directory.endpoints le rested)
