-- ===== src/Transport/Tests.antt =====
-- Tests of crates/messenger-transport/src/lib.rs: a directory of two endpoints, a network that
-- answers and one that does not.
use resilient_messenger.Prelude.{
  ℕ, zero, suc, ◌≡◌, refl, true, [], ◌∷◌, ◌++◌, All, Bytes, are_bytes-IsBytes, codes, length,
  is_utf8, none, ok, err, arith, ◌==◌, sort_by, insert, starts_with, bytes_eq,
}
use resilient_messenger.Protocol.{TransportFrame, upload_envelope, frame_tag}
use resilient_messenger.Protocol.Encoder
use resilient_messenger.Protocol.Codec.{frame_bytes, encode_frame}
use resilient_messenger.Transport.{
  RelayEndpoint, SignedRelayDirectory, unavailable, IsEndpoint, IsDirectory,
}
use resilient_messenger.Transport.Directory.{
  Ed25519, encode, decode, verify, signing_bytes, directory_head, put_string, put_endpoint,
  put_endpoints, key_at_most, has_known_schemes,
}
use resilient_messenger.Transport.Directory.RoundTrip.{verify-decode-encode}
use resilient_messenger.Transport.Directory.Written.{HasKnownSchemes}
use resilient_messenger.Transport.Manager.{
  EndpointSender, TransportManager, zero_counters, enqueue, is_queued, failed_health, flush,
  flush_loop, send_frame, try_endpoints, try_endpoint, fall_back, settle, record_failure,
  count_attempt, health_of, set_health, first_endpoint, choice_at_most, is_endpoint,
}
use resilient_messenger.Transport.Manager.{update_directory}
use resilient_messenger.Transport.Directory.{is_out_of_date}
use resilient_messenger.Transport.Manager.Outbox.{Flushed, flush-Flushed}
use resilient_messenger.Transport.Manager.Enqueue.{Queued, enqueue-Queued}
use resilient_messenger.Transport.Manager.Resting.{AllResting, flush_after_failure}

abbrev zeros : ℕ → Bytes
zeros zero = []
zeros (suc n) = 0 ∷ zeros n

abbrev endpoint : ℕ → ℕ → RelayEndpoint
endpoint n priority = record {
  endpoint_id = n ∷ zeros 15;
  websocket_url = codes "wss://r";
  https_url = codes "https://r";
  priority = priority;
}

abbrev two_relays : SignedRelayDirectory
two_relays = record {
  version = 4;
  issued_at = 100;
  expires_at = 9000;
  endpoints = endpoint 1 20 ∷ endpoint 2 10 ∷ [];
  signature = zeros 64;
}

abbrev encoded_relays : Bytes
encoded_relays =
    codes "resilient/relay-directory/v1"
    ++ 0
      ∷ 0
      ∷ 0
      ∷ 0
      ∷ 0
      ∷ 0
      ∷ 0
      ∷ 4
      ∷ 0
      ∷ 0
      ∷ 0
      ∷ 0
      ∷ 0
      ∷ 0
      ∷ 0
      ∷ 100
      ∷ 0
      ∷ 0
      ∷ 0
      ∷ 0
      ∷ 0
      ∷ 0
      ∷ 35
      ∷ 40
      ∷ 0
      ∷ 2
      ∷ 2
      ∷ zeros 16
    ++ 10 ∷ 0 ∷ 7 ∷ codes "wss://r"
    ++ 0 ∷ 9 ∷ codes "https://r"
    ++ 1 ∷ zeros 16
    ++ 20 ∷ 0 ∷ 7 ∷ codes "wss://r"
    ++ 0 ∷ 9 ∷ codes "https://r"
    ++ zeros 64

encode_relays : encode two_relays ≡ ok encoded_relays
unfolding encode signing_bytes directory_head put_string put_endpoint put_endpoints key_at_most
    sort_by insert
encode_relays = refl

first_relay-IsEndpoint : IsEndpoint (endpoint 1 20)
unfolding is_utf8
first_relay-IsEndpoint = record {
  id_width = refl;
  id_bytes = are_bytes-IsBytes (1 ∷ zeros 15) refl;
  websocket_text = refl;
  https_text = refl;
  priority = omega arith;
}

second_relay-IsEndpoint : IsEndpoint (endpoint 2 10)
unfolding is_utf8
second_relay-IsEndpoint = record {
  id_width = refl;
  id_bytes = are_bytes-IsBytes (2 ∷ zeros 15) refl;
  websocket_text = refl;
  https_text = refl;
  priority = omega arith;
}

two_relays-IsDirectory : IsDirectory two_relays
two_relays-IsDirectory = record {
  version = omega arith;
  issued_at = omega arith;
  expires_at = omega arith;
  endpoints = (first_relay-IsEndpoint, (second_relay-IsEndpoint, tt));
  signature = refl;
}

known_schemes : All HasKnownSchemes two_relays.endpoints
unfolding has_known_schemes starts_with
known_schemes = (refl, (refl, tt))

-- Every key is valid and every signature of 64 bytes passes.
abbrev lenient : Ed25519
lenient = record {
  valid_key = λ key. true;
  verify = λ key message signature. length signature == 64;
}

verify-decode-encode_example :
    (d' : SignedRelayDirectory) × (decode encoded_relays ≡ ok d')
    × (verify lenient d' (zeros 32) 500 4 ≡ verify lenient two_relays (zeros 32) 500 4)
verify-decode-encode_example =
    verify-decode-encode two_relays encoded_relays two_relays-IsDirectory known_schemes
      (omega arith) encode_relays lenient (zeros 32) 500 4

-- The network counts its calls.
abbrev answering : EndpointSender ℕ
answering = record {
  send_websocket = λ e frame n. (ok (1 ∷ []), suc n);
  send_https = λ e frame n. (ok (2 ∷ []), suc n);
}

abbrev silent : EndpointSender ℕ
silent = record {
  send_websocket = λ e frame n. (err unavailable, suc n);
  send_https = λ e frame n. (err unavailable, suc n);
}

abbrev empty_manager : TransportManager
empty_manager = record {
  directory = two_relays;
  verification_key = zeros 32;
  outbox = [];
  health = [];
  counters = zero_counters;
  preferred_endpoint = none;
}

abbrev upload : TransportFrame
upload = record {
  version = 1;
  kind = upload_envelope;
  client_message_id = 5 ∷ zeros 15;
  ttl_seconds = 60;
  body = 7 ∷ 8 ∷ [];
}

abbrev upload_bytes : Bytes
upload_bytes = 134 ∷ 1 ∷ 1 ∷ 6 ∷ 80 ∷ 5 ∷ zeros 15 ++ 24 ∷ 60 ∷ 66 ∷ 7 ∷ 8 ∷ []

abbrev one_queued : TransportManager
one_queued = record empty_manager {
  outbox = record { client_message_id = 5 ∷ zeros 15; bytes = upload_bytes } ∷ [];
}

enqueue-upload : enqueue upload empty_manager ≡ ok one_queued
unfolding enqueue is_queued encode_frame frame_bytes Encoder.bytes Encoder.major Encoder.uint
    Encoder.array frame_tag
enqueue-upload = refl

enqueue-Queued_example : Queued upload empty_manager.outbox one_queued.outbox
enqueue-Queued_example = enqueue-Queued upload empty_manager one_queued tt enqueue-upload

flush-Flushed_example : Flushed answering one_queued.outbox 0 (flush answering 500 one_queued 0)
flush-Flushed_example = flush-Flushed answering 500 one_queued 0

-- Both relays failed at 500.
abbrev tired : TransportManager
tired = record one_queued {
  health =
      (2 ∷ zeros 15, record { failures = 1; retry_after = 502 })
      ∷ (1 ∷ zeros 15, record { failures = 1; retry_after = 503 })
      ∷ [];
  counters = record {
    sent = 104;
    received = 0;
    attempts = 4;
    websocket_failures = 2;
    https_failures = 2;
    relay_switches = 0;
  };
}

flush-silent : flush silent 500 one_queued 0 ≡ (err unavailable, tired, 4)
unfolding flush flush_loop send_frame try_endpoints try_endpoint fall_back settle record_failure
    count_attempt failed_health health_of set_health first_endpoint choice_at_most is_endpoint
    sort_by insert bytes_eq
flush-silent = refl

tired-AllResting : AllResting 500 tired tired.directory.endpoints
unfolding health_of bytes_eq
tired-AllResting = (omega arith, (omega arith, tt))

flush_after_failure_example :
    (m'' : TransportManager) × (flush silent 400 tired 4 ≡ (err unavailable, m'', 4))
    × (m''.counters ≡ tired.counters)
    × (m''.outbox ≡ tired.outbox)
flush_after_failure_example =
    flush_after_failure silent 500 400 one_queued tired 0 4 unavailable (omega arith) (omega arith)
      flush-silent

update_relays : update_directory lenient two_relays 500 empty_manager ≡ ok empty_manager
unfolding update_directory verify is_out_of_date signing_bytes directory_head put_string
    put_endpoint put_endpoints key_at_most sort_by insert
update_relays = refl
