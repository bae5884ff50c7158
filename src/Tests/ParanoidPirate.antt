-- ===== src/Tests/ParanoidPirate.antt =====
-- robust-reliable-queuing: the queue of workers, the queue process and the worker at concrete inputs.
use zguide_examples.Prelude.{ℕ, ◌+◌, ◌≡◌, refl, none, some, List, [], ◌∷◌, map, arith, false}
use zguide_examples.Prelude.Lists.{length}
use zguide_examples.Prelude.Bytes.{Bytes, codes, same}
use zguide_examples.Prelude.Dict.{find?, put, has}
use zguide_examples.Prelude.Result.{ok, fault, assert_failed}
use zguide_examples.Zmq.Frames.{Message}
use zguide_examples.ParanoidPirate.Workers.{Workers, new, purge}
use zguide_examples.ParanoidPirate.Workers
use zguide_examples.ParanoidPirate.Workers.Calls.{run-IsValid, run, pushes, pops, purges, refreshes}
use zguide_examples.ParanoidPirate.Workers.Invariant.{IsValid}
use zguide_examples.ParanoidPirate.Workers.Purge.{Purged, purge-Purged, purge-expired}
use zguide_examples.ParanoidPirate.Workers.Line.{
  line, line_of, without, renewed, behind_first, line_refined,
}
use zguide_examples.ParanoidPirate.Workers.Judged.{expired}
use zguide_examples.ParanoidPirate.Queue.{
  State, Input, polled, tend, step, on_backend, on_frontend, to_frontend, to_backend, ready,
  heartbeat, beat,
}
use zguide_examples.ParanoidPirate.Queue.Safety.{step-IsValid}
use zguide_examples.ParanoidPirate.Queue.Faults.{step_faults, step-heartbeat_unknown}
use zguide_examples.ParanoidPirate.Queue.Faults.{IsRouted}
use zguide_examples.ParanoidPirate.Workers.Identities.{member}
use zguide_examples.ParanoidPirate.Workers.Calls
use zguide_examples.ParanoidPirate.Worker
use zguide_examples.ParanoidPirate.Worker.Backoff.{openings, run_backoff}
use zguide_examples.ParanoidPirate.Worker.Invariant.{InRange, step-InRange}
use zguide_examples.ParanoidPirate.Queue.Routing.{serve_cycle}

abbrev ann : Bytes
ann = codes "ann"

abbrev bob : Bytes
bob = codes "bob"

abbrev two_workers : Workers
two_workers = record { ttl = 3; queue = ann ∷ bob ∷ []; lookup = (ann, 13) ∷ (bob, 14) ∷ [] }

two_workers-IsValid : IsValid two_workers
unfolding run Calls.apply new Workers.push same has put
two_workers-IsValid = run-IsValid 3 (pushes 10 ann ∷ pushes 11 bob ∷ []) refl

-- The round of a state, with no message.
abbrev quiet_at : ℕ → Input
quiet_at now = record {
  backend = none;
  frontend = none;
  seen_at = now;
  checked_at = now;
  beaten_at = now;
  purged_at = λ _. now;
}

abbrev from_backend : Message → ℕ → Input
from_backend message now = record (quiet_at now) { backend = some message }

abbrev serving : State
serving = record { workers = two_workers; heartbeat_at = 12 }

run-IsValid_example : IsValid two_workers
unfolding run Calls.apply new Workers.push same has put
run-IsValid_example = run-IsValid 3 (pushes 10 ann ∷ pushes 11 bob ∷ []) refl

purge-Purged_example :
    Purged (expired 14 two_workers.lookup) 0 (ann ∷ bob ∷ []) [] (purge (λ _. 14) two_workers).queue
unfolding member same
purge-Purged_example = purge-Purged 14 two_workers (refl, (refl, tt))

purge-expired_example : length (purge (λ _. 20) two_workers).queue ≡ 1
unfolding member same find?
purge-expired_example = purge-expired 20 two_workers (refl, (refl, tt)) (refl, (refl, tt))

abbrev after_heartbeat : State
after_heartbeat = record {
  workers = record two_workers { lookup = (ann, 16) ∷ (bob, 14) ∷ [] };
  heartbeat_at = 14;
}

step-IsValid_example : IsValid after_heartbeat.workers
unfolding step polled on_backend Workers.refresh has put same tend Workers.empty purge find?
step-IsValid_example =
    step-IsValid (from_backend (ann ∷ heartbeat ∷ []) 13) serving {sent = map beat (ann ∷ bob ∷ [])}
      two_workers-IsValid refl

step-heartbeat_unknown_example :
    step (from_backend (codes "eve" ∷ heartbeat ∷ []) 12) serving ≡ fault assert_failed
unfolding member same
step-heartbeat_unknown_example =
    step-heartbeat_unknown (from_backend (codes "eve" ∷ heartbeat ∷ []) 12) serving (codes "eve")
      two_workers-IsValid refl refl

unknown_fails : step (from_backend (codes "eve" ∷ heartbeat ∷ []) 12) serving ≡ fault assert_failed
unfolding step polled on_backend Workers.refresh has same
unknown_fails = refl

step_faults_example :
    (id : Bytes) × (some (codes "eve" ∷ heartbeat ∷ []) ≡ some (id ∷ heartbeat ∷ []))
    × (assert_failed ≡ assert_failed)
    × (member id (ann ∷ bob ∷ []) ≡ false)
unfolding Workers.empty step
step_faults_example =
    step_faults (from_backend (codes "eve" ∷ heartbeat ∷ []) 12) serving assert_failed
      two_workers-IsValid (IsRouted.message (codes "eve") heartbeat []) (λ e. refl) unknown_fails

serve_cycle_example :
    (w₁ w₂ : Workers) × (on_frontend (codes "c" ∷ [] ∷ codes "hi" ∷ []) two_workers
      ≡ ok (w₁, to_backend (ann ∷ codes "c" ∷ [] ∷ codes "hi" ∷ []) ∷ []))
    × (w₁.queue ≡ bob ∷ [])
    × (on_backend 13 (ann ∷ codes "c" ∷ [] ∷ codes "ho" ∷ []) w₁
        ≡ ok (w₂, to_frontend (codes "c" ∷ [] ∷ codes "ho" ∷ []) ∷ []))
    × (w₂.queue ≡ bob ∷ ann ∷ [])
    × (find? ann w₂.lookup ≡ some 16)
serve_cycle_example =
    serve_cycle 13 ann (codes "c") [] (bob ∷ []) (codes "c" ∷ [] ∷ codes "hi" ∷ [])
      (codes "ho" ∷ []) two_workers refl

abbrev silence : Worker.Input
silence = record {
  message = none;
  crash_draw = 0;
  overload_draw = 0;
  checked_at = 0;
  beaten_at = 0;
}

run_backoff_example :
    (s : Worker.State) × (acts : List Worker.Action) × (Worker.run
        (silence ∷ silence ∷ silence ∷ silence ∷ [])
        (Worker.init 0).0
      ≡ ok (s, acts))
    × (openings acts ≡ 1)
    × (s.timeout ≡ 2)
    × (s.liveness + 1 ≡ 3)
run_backoff_example =
    run_backoff 0 (silence ∷ silence ∷ silence ∷ silence ∷ []) (refl, (refl, (refl, (refl, tt))))

abbrev patient : Worker.State
patient = record { heartbeat_at = 5; timeout = 4; liveness = 1; cycles = 2 }

step-InRange_example : InRange (record patient { timeout = 8; liveness = 3 })
unfolding Worker.step Worker.on_silence Worker.beat_if_due Worker.new_socket
step-InRange_example =
    step-InRange silence patient
      {acts = Worker.sleeps 4 ∷ Worker.opens ∷ Worker.sends (ready ∷ []) ∷ []}
      (record { alive = omega arith; patient = omega arith; failures = 2; waits = refl }) refl

abbrev asked : Worker.Input
asked = record silence { message = some (codes "c" ∷ [] ∷ codes "hi" ∷ []) }

line_refined_example :
    (line (Workers.erase ann two_workers) ≡ without ann (line two_workers))
    × (line_of (Workers.push 20 ann two_workers) ≡ fault assert_failed)
    × (line_of (Workers.refresh 20 ann two_workers) ≡ ok (renewed ann 23 (line two_workers)))
    × (Workers.front two_workers ≡ ok ann)
    × (line (Workers.pop two_workers) ≡ behind_first (line two_workers))
unfolding line same
line_refined_example = line_refined 20 ann two_workers two_workers-IsValid
