-- ===== src/Transport/Manager/Outbox.antt =====
-- What `flush` and `enqueue` of crates/messenger-transport/src/lib.rs do to the outbox.
use resilient_messenger.Prelude.{
  ℕ, ◌+◌, ◌≡◌, refl, ap, ◌∙◌, ◌⊎◌, inl, inr, ltb, Bool-cases, List, [], ◌∷◌, ◌++◌, Bytes, length,
  length-append, Result, ok, err, Option, arith, subst,
}
use resilient_messenger.Transport.{RelayEndpoint, TransportError, unavailable}
use resilient_messenger.Transport.Manager.{
  EndpointSender, QueuedFrame, TransportManager, Attempt, delivered, missed, record_success,
  record_failure, settle, fall_back, try_endpoint, try_endpoints, send_frame, flush_loop, flush,
  health_of,
}

-- The parts of the manager that sending a frame leaves alone.
pub record Kept (m m' : TransportManager) : Type 0 where
  pub outbox : m'.outbox ≡ m.outbox
  pub directory : m'.directory ≡ m.directory
  pub key : m'.verification_key ≡ m.verification_key

abbrev pub AttemptKept : {W : Type 0} → TransportManager → Attempt W → Type 0
AttemptKept m (delivered value m' w) = Kept m m'
AttemptKept m (missed m' w) = Kept m m'

pub Attempt-cases :
    {W : Type 0} (a : Attempt W)
    → ((v : Bytes) × (m : TransportManager) × (w : W) × (a ≡ delivered v m w))
      ⊎ ((m : TransportManager) × (w : W) × (a ≡ missed m w))
Attempt-cases (delivered v m w) = inl (v, m, w, refl)
Attempt-cases (missed m w) = inr (m, w, refl)

Kept-trans : {a b c : TransportManager} → Kept a b → Kept b c → Kept a c
Kept-trans h k = record {
  outbox = k.outbox ∙ h.outbox;
  directory = k.directory ∙ h.directory;
  key = k.key ∙ h.key;
}

AttemptKept-trans :
    {W : Type 0} {a b : TransportManager}
    → Kept a b
    → (c : Attempt W) → AttemptKept b c
    → AttemptKept a c
AttemptKept-trans h (delivered v m w) k = Kept-trans h k
AttemptKept-trans h (missed m w) k = Kept-trans h k

module _ {W : Type 0} (sender : EndpointSender W) where
  settle-Kept :
      (hi : Option Bytes) (e : RelayEndpoint) (now : ℕ) (m : TransportManager)
      (r : Result TransportError Bytes × W)
      → AttemptKept m (settle sender hi e now m r)
  unfolding settle record_success record_failure
  settle-Kept hi e now m (ok v, w) = record { outbox = refl; directory = refl; key = refl }
  settle-Kept hi e now m (err x, w) = record { outbox = refl; directory = refl; key = refl }

  fall_back-Kept :
      (hi : Option Bytes) (e : RelayEndpoint) (fr : Bytes) (now : ℕ) (m : TransportManager)
      (r : Result TransportError Bytes × W)
      → AttemptKept m (fall_back sender hi e fr now m r)
  unfolding fall_back
  fall_back-Kept hi e fr now m (ok v, w) = settle-Kept hi e now m (ok v, w)
  fall_back-Kept hi e fr now m (err x, w) =
      AttemptKept-trans (record { outbox = refl; directory = refl; key = refl }) _
        (settle-Kept hi e now _ (sender.send_https e fr w))

  try_endpoint-Kept :
      (hi : Option Bytes) (e : RelayEndpoint) (fr : Bytes) (now : ℕ) (m : TransportManager) (w : W)
      → AttemptKept m (try_endpoint sender hi e fr now m w)
  unfolding try_endpoint
  try_endpoint-Kept hi e fr now m w =
      elim (Bool-cases (ltb now (health_of e.endpoint_id m.health).retry_after)) [
        | inl wait ↦ rw wait (record { outbox = refl; directory = refl; key = refl })
        | inr go ↦ rw go (
            AttemptKept-trans (record { outbox = refl; directory = refl; key = refl }) _
              (fall_back-Kept hi e fr now _ (sender.send_websocket e fr w)))
      ]

  try_endpoints-Kept :
      (hi : Option Bytes) (es : List RelayEndpoint) (fr : Bytes) (now : ℕ) (m : TransportManager)
      (w : W)
      → AttemptKept m (try_endpoints sender hi es fr now m w)
  unfolding try_endpoints
  try_endpoints-Kept hi [] fr now m w = record { outbox = refl; directory = refl; key = refl }
  try_endpoints-Kept hi (e ∷ es) fr now m w =
      let first = try_endpoint-Kept hi e fr now m w in
      elim (Attempt-cases (try_endpoint sender hi e fr now m w)) [
        | inl (v, m', w', a) ↦ rw (a, try_endpoints) (rw a at first)
        | inr (m', w', a) ↦
            rw (a, try_endpoints)
              (AttemptKept-trans (rw a at first) _ (try_endpoints-Kept hi es fr now m' w'))
      ]

  pub send_frame-Kept :
      (f : QueuedFrame) (now : ℕ) (m : TransportManager) (w : W)
      → AttemptKept m (send_frame sender f now m w)
  unfolding send_frame
  send_frame-Kept f now m w = try_endpoints-Kept _ _ f.bytes now m w

  -- What a flush of `queue` may end in: every frame is sent and the outbox is empty, or a frame is
  -- not, and it and what is behind it stay in the outbox, in order.
  abbrev pub Flushed :
      List QueuedFrame → ℕ → Result TransportError (List Bytes) × TransportManager × W → Type 0
  Flushed queue before (ok responses, m, w) =
      (m.outbox ≡ []) × (length responses ≡ before + length queue)
  Flushed queue before (err x, m, w) =
      (x ≡ unavailable)
      × (sent : List QueuedFrame) × (front : QueuedFrame) × (behind : List QueuedFrame) × (m.outbox
          ≡ front ∷ behind)
      × (queue ≡ sent ++ front ∷ behind)

  Flushed-cons :
      (f : QueuedFrame) (queue : List QueuedFrame) (before : ℕ)
      (r : Result TransportError (List Bytes) × TransportManager × W)
      → Flushed queue (before + 1) r
      → Flushed (f ∷ queue) before r
  Flushed-cons f queue before (ok out, m, w) h = (h.0, omega arith)
  Flushed-cons f queue before (err x, m, w) (x_is, sent, front, behind, left, cut) =
      (x_is, f ∷ sent, front, behind, left, ap (λ k. f ∷ k) cut)

  flush_loop-Flushed :
      (queue : List QueuedFrame) (rs : List Bytes) (now : ℕ) (m : TransportManager) (w : W)
      → m.outbox ≡ queue
      → Flushed queue (length rs) (flush_loop sender queue rs now m w)
  unfolding flush_loop
  flush_loop-Flushed [] rs now m w h = (h, omega arith)
  flush_loop-Flushed (f ∷ queue) rs now m w h =
      let kept = send_frame-Kept f now m w in
      elim (Attempt-cases (send_frame sender f now m w)) [
        | inl (v, m', w', a) ↦
            let next = record m' { outbox = queue } in
            let more = flush_loop sender queue (rs ++ v ∷ []) now next w' in
            rw (a, flush_loop)
              (Flushed-cons f queue (length rs) more (
                subst (λ k. Flushed queue k more) (length-append rs (v ∷ []))
                  (flush_loop-Flushed queue (rs ++ v ∷ []) now next w' refl)))
        | inr (m', w', a) ↦
            rw (a, flush_loop)
              (refl, [], f, queue, (let k : Kept m m' = rw a at kept in k.outbox ∙ h), refl)
      ]

  -- `flush` ends in one of two ways. It succeeds with one response for each queued frame and leaves
  -- the outbox empty; or it fails as unavailable, and what is left of the outbox is not empty and
  -- is a suffix of what was queued, in its order.
  pub flush-Flushed :
      (now : ℕ) (m : TransportManager) (w : W) → Flushed m.outbox 0 (flush sender now m w)
  unfolding flush
  flush-Flushed now m w = flush_loop-Flushed m.outbox [] now m w refl
