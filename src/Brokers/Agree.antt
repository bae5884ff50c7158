-- ===== src/Brokers/Agree.antt =====
-- Four brokers of the repository share one way to choose a worker: spqueue.cpp, lbbroker.cpp,
-- ppqueue.cpp and peering2.cpp.
use zguide_examples.Prelude.{ℕ, ◌<◌, ◌≡◌, refl, false, List, [], ◌∷◌, ◌++◌}
use zguide_examples.Prelude.Tests.{lt→ltb}
use zguide_examples.Prelude.Lists.{length}
use zguide_examples.Prelude.Bytes.{Bytes, same}
use zguide_examples.Prelude.Result.{Result, ok, fault, starved, ◌>>=◌}
use zguide_examples.ParanoidPirate.Workers.Identities.{member}
use zguide_examples.ParanoidPirate.Queue
use zguide_examples.ParanoidPirate.Workers
use zguide_examples.LoadBalancer
use zguide_examples.SimplePirate
use zguide_examples.Peering.{is_empty}
use zguide_examples.Brokers.{Broker, Request, frames_of}

abbrev pub simple_named : List SimplePirate.Sent → Result Bytes
simple_named (SimplePirate.to_backend (k ∷ _) ∷ []) = ok k
simple_named _ = fault starved

-- A worker that says READY, and a request, with the worker that its message names.
abbrev pub simple_joins : Bytes → List Bytes → Result (List Bytes)
simple_joins k q = do
  (q', sent) ← SimplePirate.on_backend (k ∷ [] ∷ SimplePirate.ready ∷ []) q
  ok q'

abbrev pub simple_serves : Request → List Bytes → Result (List Bytes × Bytes)
simple_serves r q = do
  (q', sent) ← SimplePirate.on_frontend (frames_of r) q
  k ← simple_named sent
  ok (q', k)

simple_joins-waiting :
    (k : Bytes) (q : List Bytes)
    → is_empty k ≡ false
    → length q < SimplePirate.max_workers
    → member k q ≡ false
    → (q' : List Bytes) × (simple_joins k q ≡ ok q') × Unit {0} × (q' ≡ q ++ k ∷ [])
unfolding SimplePirate.on_backend same
simple_joins-waiting k q a h m =
    (q ++ k ∷ [], rw (lt→ltb (length q) SimplePirate.max_workers h) refl, tt, refl)

simple_serves-waiting :
    (r : Request) (k : Bytes) (rest q : List Bytes)
    → q ≡ k ∷ rest
    → (q' : List Bytes) × (simple_serves r q ≡ ok (q', k)) × Unit {0} × (q' ≡ rest)
unfolding SimplePirate.on_frontend
simple_serves-waiting r k rest q e = (rest, rw e refl, tt, refl)

pub simple : Broker (List Bytes)
simple = record {
  capacity = SimplePirate.max_workers;
  IsServing = λ q. Unit;
  waiting = λ q. q;
  joins = simple_joins;
  serves = simple_serves;
  joins-waiting = λ k q s. simple_joins-waiting k q;
  serves-waiting = λ r k rest q s. simple_serves-waiting r k rest q;
}

abbrev pub balancer_named : List LoadBalancer.Sent → Result Bytes
balancer_named (LoadBalancer.to_backend (k ∷ _) ∷ []) = ok k
balancer_named _ = fault starved

abbrev pub balancer_joins : Bytes → LoadBalancer.State → Result LoadBalancer.State
balancer_joins k q = do
  (q', sent, over) ← LoadBalancer.on_backend (k ∷ [] ∷ LoadBalancer.ready ∷ []) q
  ok q'

abbrev pub balancer_serves : Request → LoadBalancer.State → Result (LoadBalancer.State × Bytes)
balancer_serves r q = do
  (q', sent, over) ← LoadBalancer.on_frontend (frames_of r) q
  k ← balancer_named sent
  ok (q', k)

balancer_joins-waiting :
    (capacity : ℕ) (k : Bytes) (q : LoadBalancer.State)
    → is_empty k ≡ false
    → length q.worker_queue < capacity
    → member k q.worker_queue ≡ false
    → (q' : LoadBalancer.State) × (balancer_joins k q ≡ ok q')
      × Unit {0}
      × (q'.worker_queue ≡ q.worker_queue ++ k ∷ [])
unfolding LoadBalancer.on_backend same
balancer_joins-waiting capacity k q a h m =
    (record q { worker_queue = q.worker_queue ++ k ∷ [] }, refl, tt, refl)

balancer_serves-waiting :
    (r : Request) (k : Bytes) (rest : List Bytes) (q : LoadBalancer.State)
    → q.worker_queue ≡ k ∷ rest
    → (q' : LoadBalancer.State) × (balancer_serves r q ≡ ok (q', k))
      × Unit {0}
      × (q'.worker_queue ≡ rest)
unfolding LoadBalancer.on_frontend
balancer_serves-waiting r k rest q e = (record q { worker_queue = rest }, rw e refl, tt, refl)

-- It has room for any number of workers.
pub balancer : ℕ → Broker LoadBalancer.State
balancer capacity = record {
  capacity = capacity;
  IsServing = λ q. Unit;
  waiting = λ q. q.worker_queue;
  joins = balancer_joins;
  serves = balancer_serves;
  joins-waiting = λ k q s. balancer_joins-waiting capacity k q;
  serves-waiting = λ r k rest q s. balancer_serves-waiting r k rest q;
}
