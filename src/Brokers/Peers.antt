-- ===== src/Brokers/Peers.antt =====
-- The broker of peering2.cpp as one of the brokers: a worker that says READY, and a request that is not
-- drawn for a peer.
use zguide_examples.Prelude.{ℕ, ◌<◌, ◌≡◌, refl, false, List, [], ◌∷◌, ◌++◌}
use zguide_examples.Prelude.Lists.{length}
use zguide_examples.Prelude.Bytes.{Bytes}
use zguide_examples.Prelude.Result.{Result, ok, fault, starved, ◌>>=◌}
use zguide_examples.ParanoidPirate.Workers.Identities.{member}
use zguide_examples.Peering
use zguide_examples.Peering.{is_empty}
use zguide_examples.Peering.Cloud.{done_by}
use zguide_examples.Peering.Local.{asked, step-asked, step-ready}
use zguide_examples.Brokers.{Broker, Request, frames_of}

abbrev pub peering_named : List Peering.Sent → Result Bytes
peering_named (Peering.to_localbe (k ∷ _) ∷ []) = ok k
peering_named _ = fault starved

abbrev pub peering_joins : List Bytes → Bytes → List Bytes → Result (List Bytes)
peering_joins peers k q = do
  (q', sent) ← Peering.step peers (done_by k (Peering.worker_ready ∷ [])) q
  ok q'

abbrev pub peering_serves : List Bytes → Request → List Bytes → Result (List Bytes × Bytes)
peering_serves peers r q = do
  (q', sent) ← Peering.step peers (asked (frames_of r)) q
  k ← peering_named sent
  ok (q', k)

pub peering_joins-waiting :
    (peers : List Bytes) (capacity : ℕ) (k : Bytes) (q : List Bytes)
    → is_empty k ≡ false
    → length q < capacity
    → member k q ≡ false
    → (q' : List Bytes) × (peering_joins peers k q ≡ ok q') × Unit {0} × (q' ≡ q ++ k ∷ [])
peering_joins-waiting peers capacity k q a h m =
    (q ++ k ∷ [], rw (step-ready peers q k a) refl, tt, refl)

pub peering_serves-waiting :
    (peers : List Bytes) (r : Request) (k : Bytes) (rest q : List Bytes)
    → q ≡ k ∷ rest
    → (q' : List Bytes) × (peering_serves peers r q ≡ ok (q', k)) × Unit {0} × (q' ≡ rest)
peering_serves-waiting peers r k rest q e =
    (rest, rw e (rw (step-asked peers rest k (frames_of r)) refl), tt, refl)

unfoldable pub peering : List Bytes → ℕ → Broker (List Bytes)
peering peers capacity = record {
  capacity = capacity;
  IsServing = λ q. Unit;
  waiting = λ q. q;
  joins = peering_joins peers;
  serves = peering_serves peers;
  joins-waiting = λ k q s. peering_joins-waiting peers capacity k q;
  serves-waiting = λ r k rest q s. peering_serves-waiting peers r k rest q;
}
