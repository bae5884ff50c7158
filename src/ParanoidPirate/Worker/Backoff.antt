-- ===== src/ParanoidPirate/Worker/Backoff.antt =====
-- ppworker.cpp: when the worker gives the queue up, and how long it waits.
use zguide_examples.Prelude.{
  ℕ, zero, suc, ◌+◌, ◌*◌, ◌≤◌, ◌<◌, ◌/◌, ◌%◌, ◌∙◌, ◌≡◌, refl, ap, none, List, [], ◌∷◌, ◌++◌, arith,
}
use zguide_examples.Prelude.Tests.{ltb, if◌then◌else◌}
use zguide_examples.Prelude.Lists.{All, length}
use zguide_examples.Prelude.Result.{ok}
use zguide_examples.ParanoidPirate.Queue.{heartbeat_liveness}
use zguide_examples.ParanoidPirate.Worker.{
  State, Input, Action, opens, sends, sleeps, interval_max, init, on_silence, beat_if_due, step,
  run,
}

-- How often a new socket was opened.
pub openings : List Action → ℕ
openings [] = 0
openings (opens ∷ acts) = suc (openings acts)
openings (sends m ∷ acts) = openings acts
openings (sleeps n ∷ acts) = openings acts

-- The timeout after `n` failures in a row.
abbrev pub after_failures : ℕ → ℕ
after_failures zero = 1
after_failures (suc zero) = 2
after_failures (suc (suc zero)) = 4
after_failures (suc (suc (suc zero))) = 8
after_failures (suc (suc (suc (suc zero)))) = 16
after_failures (suc (suc (suc (suc (suc n))))) = 32

abbrev IsSilent : Input → Type 0
IsSilent i = i.message ≡ none

openings-append : (p q : List Action) → openings (p ++ q) ≡ openings p + openings q
unfolding openings
openings-append [] q = omega arith
openings-append (opens ∷ p) q = omega (arith, openings-append p q)
openings-append (sends m ∷ p) q = omega (arith, openings-append p q)
openings-append (sleeps n ∷ p) q = omega (arith, openings-append p q)

-- What a round of silence makes of the countdown.
abbrev pub Silent : State → State × List Action → Type 0
Silent s r =
    (s.liveness ≡ 1
      → (r.0.liveness ≡ heartbeat_liveness)
        × (r.0.timeout ≡ (if ltb s.timeout interval_max then s.timeout * 2 else s.timeout))
        × (openings r.1 ≡ 1))
    × (1 < s.liveness
        → s.liveness ≤ heartbeat_liveness
        → (r.0.liveness + 1 ≡ s.liveness) × (r.0.timeout ≡ s.timeout) × (openings r.1 ≡ 0))

on_silence-Silent : (s : State) → Silent s (on_silence s)
unfolding on_silence openings
on_silence-Silent s = (λ h. ground arith, λ h k. ground arith)

beat_if_due_quiet :
    (i : Input) (s : State)
    → ((beat_if_due i s).0.liveness ≡ s.liveness)
      × ((beat_if_due i s).0.timeout ≡ s.timeout)
      × (openings (beat_if_due i s).1 ≡ 0)
unfolding beat_if_due openings
beat_if_due_quiet i s = ground arith

step-Silent :
    (i : Input) (s : State)
    → IsSilent i
    → (r : State × List Action) × (step i s ≡ ok r) × Silent s r
unfolding step
step-Silent i s e =
    let after = on_silence s in
    let beaten = beat_if_due i after.0 in
    (
      (beaten.0, after.1 ++ beaten.1),
      ground arith,
      (
        λ h. ground (
          arith,
          (on_silence-Silent s).0 h,
          beat_if_due_quiet i after.0,
          openings-append after.1 beaten.1,
        ),
        λ h k. ground (
          arith,
          (on_silence-Silent s).1 h k,
          beat_if_due_quiet i after.0,
          openings-append after.1 beaten.1,
        ),
      ),
    )

pub after_failures_lem :
    (n : ℕ)
    → (if ltb (after_failures n) interval_max then after_failures n * 2 else after_failures n)
      ≡ after_failures (suc n)
after_failures_lem zero = refl
after_failures_lem (suc zero) = refl
after_failures_lem (suc (suc zero)) = refl
after_failures_lem (suc (suc (suc zero))) = refl
after_failures_lem (suc (suc (suc (suc zero)))) = refl
after_failures_lem (suc (suc (suc (suc (suc n))))) = refl

-- The state behind `n` rounds of silence, of which `j` are in the countdown and `f` failures lie
-- before.
record Counted (f j n : ℕ) (s : State) (acts : List Action) : Type 0 where
  opened : openings acts ≡ (j + n) / 3
  waits : s.timeout ≡ after_failures (f + (j + n) / 3)
  left : s.liveness + (j + n) % 3 ≡ heartbeat_liveness

run_silent :
    (is : List Input) (f j : ℕ) (s : State)
    → All IsSilent is
    → s.liveness + j ≡ heartbeat_liveness
    → j < 3
    → s.timeout ≡ after_failures f
    → (s' : State) × (acts : List Action) × (run is s ≡ ok (s', acts))
      × Counted f j (length is) s' acts
unfolding run openings
run_silent [] f j s a l h t = (
  s,
  [],
  refl,
  record { opened = omega arith; waits = t ∙ ap after_failures (omega arith); left = omega arith },
)
run_silent (i ∷ is) f zero s a l h t =
    let (r, e, silent) = step-Silent i s a.0 in
    let (live, same_wait, none_opened) = silent.1 (omega arith) (omega arith) in
    let (s', acts, p, c) = run_silent is f 1 r.0 a.1 (omega arith) (omega arith) (same_wait ∙ t) in
    (
      s',
      r.1 ++ acts,
      rw e (rw p),
      record {
        opened = omega (arith, openings-append r.1 acts, c.opened);
        waits = c.waits ∙ ap after_failures (omega arith);
        left = omega (arith, c.left);
      },
    )
run_silent (i ∷ is) f (suc zero) s a l h t =
    let (r, e, silent) = step-Silent i s a.0 in
    let (live, same_wait, none_opened) = silent.1 (omega arith) (omega arith) in
    let (s', acts, p, c) = run_silent is f 2 r.0 a.1 (omega arith) (omega arith) (same_wait ∙ t) in
    (
      s',
      r.1 ++ acts,
      rw e (rw p),
      record {
        opened = omega (arith, openings-append r.1 acts, c.opened);
        waits = c.waits ∙ ap after_failures (omega arith);
        left = omega (arith, c.left);
      },
    )
run_silent (i ∷ is) f (suc (suc zero)) s a l h t =
    let (r, e, silent) = step-Silent i s a.0 in
    let (live, longer, one_opened) = silent.0 (omega arith) in
    let (s', acts, p, c) =
      run_silent is (suc f) 0 r.0 a.1 (omega arith) (omega arith)
        (longer ∙ rw t (after_failures_lem f)) in
    (
      s',
      r.1 ++ acts,
      rw e (rw p),
      record {
        opened = omega (arith, openings-append r.1 acts, c.opened);
        waits = c.waits ∙ ap after_failures (omega arith);
        left = omega (arith, c.left);
      },
    )
run_silent (i ∷ is) f (suc (suc (suc j))) s a l h t = absurd (omega arith)

-- After `n` silent rounds in a row from the start the worker runs on; it has opened a new socket
-- `n / 3` times, and its next wait is the interval doubled as often, up to 32 seconds.
pub run_backoff :
    (now : ℕ) (is : List Input)
    → All IsSilent is
    → (s : State) × (acts : List Action) × (run is (init now).0 ≡ ok (s, acts))
      × (openings acts ≡ length is / 3)
      × (s.timeout ≡ after_failures (length is / 3))
      × (s.liveness + length is % 3 ≡ heartbeat_liveness)
unfolding init
run_backoff now is a =
    let (s, acts, e, c) = run_silent is 0 0 (init now).0 a refl (omega arith) refl in
    (
      s,
      acts,
      e,
      omega (arith, c.opened),
      c.waits ∙ ap after_failures (omega arith),
      omega (arith, c.left),
    )
