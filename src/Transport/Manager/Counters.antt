-- ===== src/Transport/Manager/Counters.antt =====
-- The byte counters of `flush` in crates/messenger-transport/src/lib.rs, which count modulo 2 ^ 64.
use resilient_messenger.Prelude.{
  ℕ, ◌+◌, ◌%◌, ◌≡◌, ◌^◌, refl, ap, ◌∙◌, subst, inl, inr, ltb, Bool-cases, List, [], ◌∷◌, ◌++◌,
  Bytes, length, Result, ok, err, Option, arith,
}
use resilient_messenger.Transport.{RelayEndpoint, TransportError, ByteCounters}
use resilient_messenger.Transport.Manager.{
  EndpointSender, QueuedFrame, TransportManager, Attempt, delivered, missed, record_success,
  record_failure, settle, fall_back, try_endpoint, try_endpoints, send_frame, flush_loop, flush,
  count_attempt, health_of,
}
use resilient_messenger.Transport.Manager.Outbox.{Attempt-cases, Kept, send_frame-Kept}

-- From `c` to `c'` every attempt delivered a frame or was counted as a failure, and `n` frames
-- were delivered.
abbrev pub Accounts : ByteCounters → ℕ → ByteCounters → Type 0
Accounts c n c' =
    (c'.attempts + c.websocket_failures + c.https_failures) % 2 ^ 64
    ≡ (c.attempts + n + c'.websocket_failures + c'.https_failures) % 2 ^ 64

abbrev AttemptAccounts : {W : Type 0} → ByteCounters → Attempt W → Type 0
AttemptAccounts c (delivered v m w) = Accounts c 1 m.counters
AttemptAccounts c (missed m w) = Accounts c 0 m.counters

Accounts-trans :
    (a b c : ByteCounters) (n k : ℕ) → Accounts a n b → Accounts b k c → Accounts a (n + k) c
Accounts-trans a b c n k h g = omega arith

AttemptAccounts-trans :
    {W : Type 0} (a b : ByteCounters) (x : Attempt W)
    → Accounts a 0 b
    → AttemptAccounts b x
    → AttemptAccounts a x
AttemptAccounts-trans a b (delivered v m w) h g = Accounts-trans a b m.counters 0 1 h g
AttemptAccounts-trans a b (missed m w) h g = Accounts-trans a b m.counters 0 0 h g

module _ {W : Type 0} (sender : EndpointSender W) where
  settle-Accounts :
      (hi : Option Bytes) (e : RelayEndpoint) (now : ℕ) (c : ByteCounters) (m : TransportManager)
      (r : Result TransportError Bytes × W)
      → Accounts c 1 m.counters
      → AttemptAccounts c (settle sender hi e now m r)
  unfolding settle record_success record_failure
  settle-Accounts hi e now c m (ok v, w) h = h
  settle-Accounts hi e now c m (err x, w) h = omega arith

  -- One attempt is counted already.
  fall_back-Accounts :
      (hi : Option Bytes) (e : RelayEndpoint) (fr : Bytes) (now : ℕ) (c : ByteCounters)
      (m : TransportManager) (r : Result TransportError Bytes × W)
      → Accounts c 1 m.counters
      → AttemptAccounts c (fall_back sender hi e fr now m r)
  unfolding fall_back count_attempt
  fall_back-Accounts hi e fr now c m (ok v, w) h = settle-Accounts hi e now c m (ok v, w) h
  fall_back-Accounts hi e fr now c m (err x, w) h =
      settle-Accounts hi e now c _ (sender.send_https e fr w) (omega arith)

  try_endpoint-Accounts :
      (hi : Option Bytes) (e : RelayEndpoint) (fr : Bytes) (now : ℕ) (m : TransportManager) (w : W)
      → AttemptAccounts m.counters (try_endpoint sender hi e fr now m w)
  unfolding try_endpoint count_attempt
  try_endpoint-Accounts hi e fr now m w =
      elim (Bool-cases (ltb now (health_of e.endpoint_id m.health).retry_after)) [
        | inl wait ↦ rw wait (omega arith)
        | inr go ↦ rw go (
            fall_back-Accounts hi e fr now m.counters _ (sender.send_websocket e fr w)
              (omega arith))
      ]

  try_endpoints-Accounts :
      (hi : Option Bytes) (es : List RelayEndpoint) (fr : Bytes) (now : ℕ) (m : TransportManager)
      (w : W)
      → AttemptAccounts m.counters (try_endpoints sender hi es fr now m w)
  unfolding try_endpoints
  try_endpoints-Accounts hi [] fr now m w = omega arith
  try_endpoints-Accounts hi (e ∷ es) fr now m w =
      let first = try_endpoint-Accounts hi e fr now m w in
      elim (Attempt-cases (try_endpoint sender hi e fr now m w)) [
        | inl (v, m', w', a) ↦ rw (a, try_endpoints) (rw a at first)
        | inr (m', w', a) ↦
            rw (a, try_endpoints)
              (AttemptAccounts-trans m.counters m'.counters _ (rw a at first)
                (try_endpoints-Accounts hi es fr now m' w'))
      ]

  abbrev pub FlushAccounts :
      ByteCounters → ℕ → Result TransportError (List Bytes) × TransportManager × W → Type 0
  FlushAccounts c queued (ok rs, m, w) = Accounts c queued m.counters
  FlushAccounts c queued (err x, m, w) =
      (n : ℕ) × (queued ≡ n + length m.outbox) × Accounts c n m.counters

  FlushAccounts-cons :
      (a b : ByteCounters) (queued : ℕ)
      (r : Result TransportError (List Bytes) × TransportManager × W)
      → Accounts a 1 b
      → FlushAccounts b queued r
      → FlushAccounts a (queued + 1) r
  FlushAccounts-cons a b queued (ok rs, m, w) h g = omega arith
  FlushAccounts-cons a b queued (err x, m, w) h (n, cut, g) = (n + 1, omega arith, omega arith)

  flush_loop-Accounts :
      (queue : List QueuedFrame) (rs : List Bytes) (now : ℕ) (m : TransportManager) (w : W)
      → m.outbox ≡ queue
      → FlushAccounts m.counters (length queue) (flush_loop sender queue rs now m w)
  unfolding flush_loop send_frame
  flush_loop-Accounts [] rs now m w h = omega arith
  flush_loop-Accounts (f ∷ queue) rs now m w h =
      let first : AttemptAccounts m.counters (send_frame sender f now m w) =
        try_endpoints-Accounts _ _ f.bytes now m w in
      let kept = send_frame-Kept sender f now m w in
      elim (Attempt-cases (send_frame sender f now m w)) [
        | inl (v, m', w', a) ↦
            let next = record m' { outbox = queue } in
            let more = flush_loop sender queue (rs ++ v ∷ []) now next w' in
            rw (a, flush_loop)
              (subst (λ k. FlushAccounts m.counters k more) (omega arith)
                (FlushAccounts-cons m.counters m'.counters (length queue) more (rw a at first)
                  (flush_loop-Accounts queue (rs ++ v ∷ []) now next w' refl)))
        | inr (m', w', a) ↦
            let k : Kept m m' = rw a at kept in
            let same : m'.outbox ≡ f ∷ queue = k.outbox ∙ h in
            rw (a, flush_loop) (0, omega (arith, ap length same), rw a at first)
      ]

  -- The counters of `flush` add up, modulo 2 ^ 64: every attempt that was counted either delivered
  -- a frame that left the outbox or was counted as a failure of one of the two transports.
  pub flush-Accounts :
      (now : ℕ) (m : TransportManager) (w : W)
      → FlushAccounts m.counters (length m.outbox) (flush sender now m w)
  unfolding flush
  flush-Accounts now m w = flush_loop-Accounts m.outbox [] now m w refl
