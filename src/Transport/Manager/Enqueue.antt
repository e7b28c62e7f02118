-- ===== src/Transport/Manager/Enqueue.antt =====
-- `enqueue` of crates/messenger-transport/src/lib.rs.
use resilient_messenger.Prelude.{
  ◌≡◌, refl, inl, inr, true, false, ◌||◌, Bool-cases, List, [], ◌∷◌, ◌++◌, Bytes, bytes_eq,
  bytes_eq_iff, bytes_eq_refl, ◌⊎◌, Result, ok, err, map_err, >>=-eq-ok, arith,
}
use resilient_messenger.Protocol.{TransportFrame}
use resilient_messenger.Protocol.Codec.{encode_frame}
use resilient_messenger.Transport.{frame_too_large}
use resilient_messenger.Transport.Manager.{QueuedFrame, TransportManager, is_queued, enqueue}

-- No two frames of the list carry one message identifier.
abbrev pub NoDuplicates : List QueuedFrame → Type 0
NoDuplicates [] = Unit
NoDuplicates (f ∷ fs) = (is_queued f.client_message_id fs ≡ false) × NoDuplicates fs

is_queued-append :
    (id : Bytes) (fs : List QueuedFrame) (g : QueuedFrame)
    → is_queued id (fs ++ g ∷ []) ≡ (is_queued id fs || bytes_eq g.client_message_id id)
unfolding is_queued
is_queued-append id [] g = ground arith
is_queued-append id (f ∷ fs) g = ground (arith, is_queued-append id fs g)

NoDuplicates-append :
    (fs : List QueuedFrame) (g : QueuedFrame)
    → NoDuplicates fs
    → is_queued g.client_message_id fs ≡ false
    → NoDuplicates (fs ++ g ∷ [])
unfolding is_queued
NoDuplicates-append [] g h new = (refl, tt)
NoDuplicates-append (f ∷ fs) g h new = (
  ground (
    arith,
    is_queued-append f.client_message_id fs g,
    bytes_eq_iff f.client_message_id g.client_message_id,
    bytes_eq_iff g.client_message_id f.client_message_id,
  ),
  NoDuplicates-append fs g h.1 (ground arith),
)

map_err-eq-ok : {E F A : Type 0} (f : F) (r : Result E A) {a : A} → map_err f r ≡ ok a → r ≡ ok a
map_err-eq-ok f (ok x) e = ground arith
map_err-eq-ok f (err x) e = absurd (ground arith)

-- An outbox after a frame was accepted: identifiers are distinct, the frame's is in it, and either it
-- was in it before and nothing changed, or the encoded frame stands behind the old outbox.
pub record Queued (frame : TransportFrame) (before after : List QueuedFrame) : Type 0 where
  pub distinct : NoDuplicates after
  pub queued : is_queued frame.client_message_id after ≡ true
  pub kept :
      (is_queued frame.client_message_id before ≡ true) × (after ≡ before)
      ⊎ (is_queued frame.client_message_id before ≡ false)
        × ((bytes : Bytes) × (encode_frame frame ≡ ok bytes)
            × (after
                ≡ before
                  ++ record { client_message_id = frame.client_message_id; bytes = bytes } ∷ []))

-- From an outbox with distinct identifiers, an accepted frame whose identifier is new is queued
-- behind the others, in its encoded form; one whose identifier is queued already is accepted too,
-- and changes nothing, whatever else it holds. The identifiers stay distinct.
pub enqueue-Queued :
    (frame : TransportFrame) (m m' : TransportManager)
    → NoDuplicates m.outbox
    → enqueue frame m ≡ ok m'
    → Queued frame m.outbox m'.outbox
unfolding enqueue
enqueue-Queued frame m m' h e =
    let id = frame.client_message_id in
    let (bytes, made, stored) = >>=-eq-ok (map_err frame_too_large (encode_frame frame)) _ e in
    let encoded : encode_frame frame ≡ ok bytes =
      map_err-eq-ok frame_too_large (encode_frame frame) made in
    let front : QueuedFrame = record { client_message_id = id; bytes = bytes } in
    elim (Bool-cases (is_queued id m.outbox)) [
      | inl old ↦
          let same : m ≡ m' = ground arith in
          rw (← same) (record { distinct = h; queued = old; kept = inl (old, refl) })
      | inr new ↦
          let same : record m { outbox = m.outbox ++ front ∷ [] } ≡ m' = ground arith in
          rw (← same) (record {
            distinct = NoDuplicates-append m.outbox front h new;
            queued = ground (arith, is_queued-append id m.outbox front, bytes_eq_refl id);
            kept = inr (new, (bytes, encoded, refl));
          })
    ]

-- After a frame was accepted into an outbox with distinct identifiers, enqueueing it again succeeds
-- and changes nothing.
pub enqueue_twice :
    (frame : TransportFrame) (m m' : TransportManager)
    → NoDuplicates m.outbox
    → enqueue frame m ≡ ok m'
    → enqueue frame m' ≡ ok m'
unfolding enqueue
enqueue_twice frame m m' h e =
    let q = enqueue-Queued frame m m' h e in
    let (bytes, made, _) = >>=-eq-ok (map_err frame_too_large (encode_frame frame)) _ e in
    rw made (rw (q.queued) refl)
