-- ===== src/LoadBalancer/Shutdown.antt =====
-- lbbroker.cpp: the broker serves its clients and then stops its workers.
use zguide_examples.Prelude.{
  ◌≡◌, refl, ap, inl, inr, true, false, none, some, List, [], ◌∷◌, ◌++◌, map, append_assoc,
}
use zguide_examples.Prelude.Tests.{Bool-cases}
use zguide_examples.Prelude.Lists.{length, All}
use zguide_examples.Prelude.Bytes.{Bytes, same}
use zguide_examples.Prelude.Result.{ok, stop}
use zguide_examples.Weather.{pos}
use zguide_examples.LoadBalancer.{
  one_less, is_zero, State, Input, Sent, to_frontend, to_backend, step, run, shutdown, worker_proc,
  ready, kill, reply_ok,
}

-- A worker's reply to a client.
pub record Reply : Type 0 where
  pub worker : Bytes
  pub client : Bytes
  pub content : Bytes

abbrev pub replies : Reply → Input
replies r = record {
  backend = some (r.worker ∷ [] ∷ r.client ∷ [] ∷ r.content ∷ []);
  frontend = none;
}

abbrev pub forwarded : Reply → Sent
forwarded r = to_frontend (r.client ∷ [] ∷ r.content ∷ [])

abbrev pub workers_of : List Reply → List Bytes
workers_of = map (λ r. r.worker)

abbrev pub IsClient : Reply → Type 0
IsClient r = same r.client ready ≡ false

step_reply :
    (r : Reply) (s : State)
    → IsClient r
    → step (replies r) s
      ≡ ok (
        record s {
          worker_queue = s.worker_queue ++ r.worker ∷ [];
          client_count = one_less s.client_count;
        },
        forwarded r ∷ [],
        is_zero (one_less s.client_count),
      )
unfolding step
step_reply r s c = elim (Bool-cases (is_zero (one_less s.client_count))) [
  | inl e ↦ rw c (rw e)
  | inr e ↦ rw c (rw e)
]

-- With as many clients as replies come, none of them called READY, each reply goes to its client,
-- the loop is left with the last one, whatever else comes, and every worker that has replied is
-- queued behind those that waited.
pub run-replies :
    (r : Reply) (rs : List Reply) (later : List Input) (s : State)
    → All IsClient (r ∷ rs)
    → s.client_count ≡ pos (length (r ∷ rs))
    → run (map replies (r ∷ rs) ++ later) s
      ≡ ok (
        record { worker_queue = s.worker_queue ++ workers_of (r ∷ rs); client_count = pos 0 },
        map forwarded (r ∷ rs),
        true,
      )
unfolding run
run-replies r [] later s c n =
    let left : one_less s.client_count ≡ pos 0 = ap one_less n in rw (step_reply r s c.0) (rw left)
run-replies r (r' ∷ rs) later s c n =
    let s₁ : State = record {
      worker_queue = s.worker_queue ++ r.worker ∷ [];
      client_count = one_less s.client_count;
    } in
    let more : (is_zero (one_less s.client_count)) ≡ false = ap (λ c. is_zero (one_less c)) n in
    let ih = run-replies r' rs later s₁ c.1 (ap one_less n) in
    rw (step_reply r s c.0)
      (rw more (rw ih (rw (append_assoc s.worker_queue (r.worker ∷ []) (workers_of (r' ∷ rs))))))

-- The workers that wait at the end get a message each, in order, which is what makes a worker end;
-- any request that the broker passes on makes it answer OK to the client, unless that is called
-- KILL.
pub shutdown-worker_proc :
    (queue : List Bytes) (client request : Bytes)
    → same client kill ≡ false
    → (shutdown queue ≡ map (λ w. to_backend (w ∷ [] ∷ kill ∷ [])) queue)
      × (worker_proc (kill ∷ []) ≡ stop)
      × (worker_proc (client ∷ [] ∷ request ∷ []) ≡ ok (client ∷ [] ∷ reply_ok ∷ []))
unfolding shutdown worker_proc same
shutdown-worker_proc [] client request h = (refl, refl, rw h)
shutdown-worker_proc (w ∷ queue) client request h =
    let (told, ends, answers) = shutdown-worker_proc queue client request h in
    (rw told, ends, answers)
