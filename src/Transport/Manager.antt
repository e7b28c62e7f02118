-- ===== src/Transport/Manager.antt =====
-- `TransportManager` of crates/messenger-transport/src/lib.rs. The sender is a parameter, which may
-- answer differently at each call: it takes and returns a state of the network.
pub mod Outbox
pub mod Enqueue
pub mod Backoff
pub mod Resting
pub mod Retries
pub mod Updates
pub mod Counters
use resilient_messenger.Prelude.{
  ℕ, ◌+◌, ◌-◌, ◌%◌, ◌^◌, min, max, Bool, true, false, not, ◌&&◌, ◌||◌, List, [], ◌∷◌, ◌++◌, map,
  Bytes, length, get_or, ltb, leb, ◌==◌, if◌then◌else◌, bytes_eq, sort_by, Option, none, some,
  Result, ok, err, ◌>>=◌, map_err,
}
use resilient_messenger.Protocol.{TransportFrame}
use resilient_messenger.Protocol.Codec.{encode_frame}
use resilient_messenger.Transport.{
  RelayEndpoint, SignedRelayDirectory, TransportError, frame_too_large, unavailable, ByteCounters,
}
use resilient_messenger.Transport.Directory.{Ed25519, verify, saturating_add}

-- The trait `EndpointSender`, over the states `W` of the network.
pub record EndpointSender (W : Type 0) : Type 0 where
  pub send_websocket : RelayEndpoint → Bytes → W → Result TransportError Bytes × W
  pub send_https : RelayEndpoint → Bytes → W → Result TransportError Bytes × W

pub record QueuedFrame : Type 0 where
  pub client_message_id : Bytes
  pub bytes : Bytes

pub record Health : Type 0 where
  pub failures : ℕ
  pub retry_after : ℕ

-- `Health::default()`
abbrev pub healthy : Health
healthy = record { failures = 0; retry_after = 0 }

-- `HashMap<[u8; 16], Health>`: the code reads it by key, or all values in any order.
abbrev pub HealthMap : Type 0
HealthMap = List (Bytes × Health)

-- The health that `entry(id).or_default()` gives.
unfoldable pub health_of : Bytes → HealthMap → Health
health_of id [] = healthy
health_of id ((key, h) ∷ rest) = if bytes_eq key id then h else health_of id rest

-- The map after `entry(id).or_default()` and a write of `h` through the reference.
unfoldable pub set_health : Bytes → Health → HealthMap → HealthMap
set_health id h [] = (id, h) ∷ []
set_health id h ((key, k) ∷ rest) =
    if bytes_eq key id then (key, h) ∷ rest else (key, k) ∷ set_health id h rest

pub record TransportManager : Type 0 where
  pub directory : SignedRelayDirectory
  pub verification_key : Bytes
  pub outbox : List QueuedFrame
  pub health : HealthMap
  pub counters : ByteCounters
  pub preferred_endpoint : Option Bytes

abbrev pub zero_counters : ByteCounters
zero_counters = record {
  sent = 0;
  received = 0;
  attempts = 0;
  websocket_failures = 0;
  https_failures = 0;
  relay_switches = 0;
}

-- `TransportManager::new`
unfoldable pub new :
    Ed25519 → SignedRelayDirectory → Bytes → ℕ → Result TransportError TransportManager
new ed directory verification_key now = verify ed directory verification_key now 0 >>= λ _.
    ok (record {
      directory = directory;
      verification_key = verification_key;
      outbox = [];
      health = [];
      counters = zero_counters;
      preferred_endpoint = none;
    })

unfoldable pub update_directory :
    Ed25519 → SignedRelayDirectory → ℕ → TransportManager → Result TransportError TransportManager
update_directory ed next now m = verify ed next m.verification_key now m.directory.version >>= λ _.
    ok (record m { directory = next })

unfoldable pub is_queued : Bytes → List QueuedFrame → Bool
is_queued id [] = false
is_queued id (queued ∷ rest) = bytes_eq queued.client_message_id id || is_queued id rest

unfoldable pub enqueue : TransportFrame → TransportManager → Result TransportError TransportManager
enqueue frame m = map_err frame_too_large (encode_frame frame) >>= λ bytes. ok (
    if is_queued frame.client_message_id m.outbox then m else record m {
      outbox =
          m.outbox ++ record { client_message_id = frame.client_message_id; bytes = bytes } ∷ [];
    })

unfoldable pub pending_count : TransportManager → ℕ
pending_count m = length m.outbox

unfoldable pub clear_retries : HealthMap → HealthMap
clear_retries = map (λ (key, h). (key, record h { retry_after = 0 }))

unfoldable pub notify_network_change : TransportManager → TransportManager
unfolding clear_retries
notify_network_change m = record m { health = clear_retries m.health }

-- `filter(|health| health.retry_after > 0)`, `map`, `min`
unfoldable pub earliest_retry : HealthMap → Option ℕ
earliest_retry [] = none
earliest_retry ((key, h) ∷ rest) =
    let later = earliest_retry rest in
    if ltb 0 h.retry_after
    then elim later [ none ↦ some h.retry_after | some t ↦ some (min h.retry_after t) ]
    else later

unfoldable pub next_retry_at : TransportManager → Option ℕ
next_retry_at m = earliest_retry m.health

-- `self.preferred_endpoint == Some(id)`
unfoldable pub is_endpoint : Option Bytes → Bytes → Bool
is_endpoint none id = false
is_endpoint (some p) id = bytes_eq p id

unfoldable pub is_some : Option Bytes → Bool
is_some none = false
is_some (some p) = true

-- The comparison of `sort_by_key(|e| (preferred != Some(e.endpoint_id), e.priority))`.
unfoldable pub choice_at_most : Option Bytes → RelayEndpoint → RelayEndpoint → Bool
choice_at_most preferred a b =
    let pa = is_endpoint preferred a.endpoint_id in
    let pb = is_endpoint preferred b.endpoint_id in
    pa && not pb || (pa && pb || not pa && not pb) && leb a.priority b.priority

unfoldable pub first_endpoint : List RelayEndpoint → Option Bytes
first_endpoint [] = none
first_endpoint (e ∷ es) = some e.endpoint_id

-- `+=` on u64
abbrev pub add64 : ℕ → ℕ → ℕ
add64 a b = (a + b) % 2 ^ 64

-- The health of an endpoint after one more failure at `now`: both transports failed.
unfoldable pub failed_health : RelayEndpoint → ℕ → Health → Health
failed_health endpoint now h =
    let failures = min (h.failures + 1) (2 ^ 32 - 1) in
    let base = 2 ^ min failures 8 in
    let jitter = get_or endpoint.endpoint_id 0 0 % max base 1 in
    record { failures = failures; retry_after = saturating_add now (base + jitter) }

-- How the loop over the endpoints stands after one of them: the frame is delivered, or not yet.
pub data Attempt (W : Type 0) : Type 0 where
  delivered : Bytes → TransportManager → W → Attempt W
  missed : TransportManager → W → Attempt W

unfoldable pub count_attempt : Bytes → ByteCounters → ByteCounters
count_attempt frame c = record c {
  attempts = add64 c.attempts 1;
  sent = add64 c.sent (length frame);
}

-- The branch `Ok(value)`.
unfoldable pub record_success :
    Option Bytes → RelayEndpoint → Bytes → TransportManager → TransportManager
record_success highest_priority endpoint value m =
    let id = endpoint.endpoint_id in
    let switched =
      not (is_endpoint m.preferred_endpoint id)
      && (is_some m.preferred_endpoint || not (is_endpoint highest_priority id)) in
    record m {
      health = set_health id healthy m.health;
      counters = record (m.counters) {
        received = add64 m.counters.received (length value);
        relay_switches =
            if switched then add64 m.counters.relay_switches 1 else m.counters.relay_switches;
      };
      preferred_endpoint = some id;
    }

-- The branch `Err(_)`.
unfoldable pub record_failure : RelayEndpoint → ℕ → TransportManager → TransportManager
record_failure endpoint now m =
    let id = endpoint.endpoint_id in
    record m {
      health = set_health id (failed_health endpoint now (health_of id m.health)) m.health;
      counters = record (m.counters) { https_failures = add64 m.counters.https_failures 1 };
    }

module _ {W : Type 0} (sender : EndpointSender W) where
  -- `match response`
  unfoldable pub settle :
      Option Bytes
      → RelayEndpoint
      → ℕ
      → TransportManager
      → Result TransportError Bytes × W
      → Attempt W
  settle highest endpoint now m (ok value, w) =
      delivered value (record_success highest endpoint value m) w
  settle highest endpoint now m (err x, w) = missed (record_failure endpoint now m) w

  -- The inner `match` on `send_websocket`, with the fallback to HTTPS.
  unfoldable pub fall_back :
      Option Bytes
      → RelayEndpoint
      → Bytes
      → ℕ
      → TransportManager
      → Result TransportError Bytes × W
      → Attempt W
  fall_back highest endpoint frame now m (ok value, w) = settle highest endpoint now m (ok value, w)
  fall_back highest endpoint frame now m (err x, w) =
      let c = record (m.counters) { websocket_failures = add64 m.counters.websocket_failures 1 } in
      settle highest endpoint now (record m { counters = count_attempt frame c })
        (sender.send_https endpoint frame w)

  -- One round of the loop over the endpoints.
  unfoldable pub try_endpoint :
      Option Bytes → RelayEndpoint → Bytes → ℕ → TransportManager → W → Attempt W
  try_endpoint highest endpoint frame now m w =
      let h = health_of endpoint.endpoint_id m.health in
      let entered = record m { health = set_health endpoint.endpoint_id h m.health } in
      if ltb now h.retry_after
      then missed entered w
      else fall_back highest endpoint frame now
          (record entered { counters = count_attempt frame m.counters })
          (sender.send_websocket endpoint frame w)

  unfoldable pub try_endpoints :
      Option Bytes → List RelayEndpoint → Bytes → ℕ → TransportManager → W → Attempt W
  try_endpoints highest [] frame now m w = missed m w
  try_endpoints highest (endpoint ∷ rest) frame now m w =
      elim (try_endpoint highest endpoint frame now m w) [
        | delivered value m' w' ↦ delivered value m' w'
        | missed m' w' ↦ try_endpoints highest rest frame now m' w'
      ]

  unfoldable pub send_frame : QueuedFrame → ℕ → TransportManager → W → Attempt W
  send_frame frame now m w =
      let endpoints = sort_by (choice_at_most m.preferred_endpoint) m.directory.endpoints in
      try_endpoints (first_endpoint endpoints) endpoints frame.bytes now m w

  -- The loop of `flush`, on what is in the outbox: a round takes its front off or ends the loop.
  unfoldable pub flush_loop :
      List QueuedFrame
      → List Bytes
      → ℕ
      → TransportManager
      → W
      → Result TransportError (List Bytes) × TransportManager × W
  flush_loop [] responses now m w = (ok responses, m, w)
  flush_loop (frame ∷ rest) responses now m w = elim (send_frame frame now m w) [
    | delivered value m' w' ↦
        flush_loop rest (responses ++ value ∷ []) now (record m' { outbox = rest }) w'
    | missed m' w' ↦ (err unavailable, m', w')
  ]

  unfoldable pub flush :
      ℕ → TransportManager → W → Result TransportError (List Bytes) × TransportManager × W
  flush now m w = flush_loop m.outbox [] now m w
