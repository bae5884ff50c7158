-- ===== src/ParanoidPirate/Worker/Invariant.antt =====
-- ppworker.cpp: the countdown and the wait stay in range, whatever happens; and what ends the loop.
use zguide_examples.Prelude.{
  ℕ, suc, ◌+◌, ◌≤◌, ◌<◌, ◌≡◌, inl, inr, refl, ◌&&◌, Option, none, some, List, [], ◌∷◌, ◌++◌, arith,
}
use zguide_examples.Prelude.Tests.{ltb, ltb-false, ◌==◌, if◌then◌else◌, Bool-cases}
use zguide_examples.Prelude.Bytes.{Bytes, same}
use zguide_examples.Prelude.Result.{ok, Ensures, Ensures-bind, Ensures-ok}
use zguide_examples.Zmq.Frames.{Message}
use zguide_examples.ParanoidPirate.Queue.{heartbeat_liveness, heartbeat_interval, heartbeat}
use zguide_examples.ParanoidPirate.Worker.{
  State, Input, Action, sleeps, sends, on_request, on_message, on_silence, beat_if_due, polled,
  step,
}
use zguide_examples.ParanoidPirate.Worker.Backoff.{after_failures, after_failures_lem}

pub record InRange (s : State) : Type 0 where
  pub alive : 0 < s.liveness
  pub patient : s.liveness ≤ heartbeat_liveness
  pub failures : ℕ
  pub waits : s.timeout ≡ after_failures failures

on_request-InRange :
    (i : Input) (m : Message) (s : State) → Ensures (λ r. InRange r.0) (on_request i m s)
unfolding on_request
on_request-InRange i m s = elim (Bool-cases (ltb 10 (s.cycles + 1) && i.crash_draw == 0)) [
  | inl e ↦ rw e tt
  | inr e ↦ rw e (record { alive = omega arith; patient = omega arith; failures = 0; waits = refl })
]

on_message-InRange :
    (i : Input) (m : Message) (s : State) → Ensures (λ r. InRange r.0) (on_message i m s)
unfolding on_message
on_message-InRange i [] s = tt
on_message-InRange i (a ∷ []) s = elim (Bool-cases (same a heartbeat)) [
  | inl e ↦ rw e (record { alive = omega arith; patient = omega arith; failures = 0; waits = refl })
  | inr e ↦ rw e tt
]
on_message-InRange i (a ∷ b ∷ []) s = tt
on_message-InRange i (a ∷ b ∷ c ∷ []) s = on_request-InRange i (a ∷ b ∷ c ∷ []) s
on_message-InRange i (a ∷ b ∷ c ∷ d ∷ m) s = tt

on_silence-InRange : (s : State) → InRange s → InRange (on_silence s).0
unfolding on_silence
on_silence-InRange s v = elim (Bool-cases (ltb s.liveness 2)) [
  | inl last ↦ record {
    alive = ground (arith, v.alive);
    patient = ground (arith, v.patient);
    failures = suc v.failures;
    waits = ground (arith, v.alive, v.waits, after_failures_lem v.failures);
  }
  | inr more ↦ record {
    alive = ground (arith, v.alive);
    patient = ground (arith, v.patient);
    failures = v.failures;
    waits = ground (arith, v.patient, v.waits);
  }
]

polled-InRange :
    (i : Input) (o : Option Message) (s : State)
    → InRange s
    → Ensures (λ r. InRange r.0) (polled i o s)
unfolding polled
polled-InRange i none s v = on_silence-InRange s v
polled-InRange i (some m) s v = on_message-InRange i m s

beat_if_due-InRange : (i : Input) (s : State) → InRange s → InRange (beat_if_due i s).0
unfolding beat_if_due
beat_if_due-InRange i s v = record {
  alive = ground (arith, v.alive);
  patient = ground (arith, v.patient);
  failures = v.failures;
  waits = ground (arith, v.waits);
}

-- Every round that does not end the loop keeps the liveness between 1 and 3 and the timeout at the
-- interval doubled some times, 32 seconds at most, if they were so before; so the unsigned
-- countdown never wraps.
pub step-InRange :
    (i : Input) (s : State) {s' : State} {acts : List Action}
    → InRange s
    → step i s ≡ ok (s', acts)
    → InRange s'
unfolding step
step-InRange i s v e =
    Ensures-ok (λ r. InRange r.0) _
      (Ensures-bind (λ r. InRange r.0) (polled i i.message s) _
        λ r p.
          beat_if_due-InRange i r.0
            (Ensures-ok (λ r. InRange r.0) _ (polled-InRange i i.message s v) p))
      e

pub beat_if_due_keeps :
    (i : Input) (s : State)
    → ((beat_if_due i s).0.cycles ≡ s.cycles)
      × ((beat_if_due i s).0.liveness ≡ s.liveness)
      × ((beat_if_due i s).0.timeout ≡ s.timeout)
unfolding beat_if_due
beat_if_due_keeps i s = ground arith

unfoldable pub served : State → State
served s = record s {
  cycles = s.cycles + 1;
  liveness = heartbeat_liveness;
  timeout = heartbeat_interval;
}

-- Up to the tenth request a request of three frames is echoed as it came, whatever the draws; the
-- countdown starts again, and the wait is the shortest.
pub step_request :
    (i : Input) (s : State) (a b c : Bytes)
    → i.message ≡ some (a ∷ b ∷ c ∷ [])
    → s.cycles < 10
    → (s' : State) × (before : List Action) × (after : List Action) × (step i s
        ≡ ok (s', before ++ sends (a ∷ b ∷ c ∷ []) ∷ after))
      × (s'.cycles ≡ s.cycles + 1)
      × (s'.liveness ≡ heartbeat_liveness)
      × (s'.timeout ≡ heartbeat_interval)
unfolding step polled on_message on_request served
step_request i s a b c e h =
    let (beat, after) = beat_if_due i (served s) in
    let (same_cycles, same_liveness, same_timeout) = beat_if_due_keeps i (served s) in
    let slow = ltb 5 (s.cycles + 1) && i.overload_draw == 0 in
    (
      beat,
      (if slow then sleeps 5 ∷ [] else []) ++ sleeps 1 ∷ [],
      after,
      rw e (
          rw (ltb-false 10 (s.cycles + 1) (omega arith))
            (elim (Bool-cases slow) [ inl late ↦ rw late | inr fast ↦ rw fast ])),
      same_cycles,
      same_liveness,
      same_timeout,
    )
