-- ===== src/ParanoidPirate/Queue/Faults.antt =====
-- ppqueue.cpp: what can make the process fail.
use zguide_examples.Prelude.{
  ℕ, ◌+◌, ◌≡◌, ◌≢◌, refl, inl, inr, ap, Bool, true, false, ◌∙◌, Option, none, some, [], ◌∷◌, ◌++◌,
  arith,
}
use zguide_examples.Prelude.Tests.{Bool-cases}
use zguide_examples.Prelude.Bytes.{keys, Bytes, same, same_refl}
use zguide_examples.Prelude.Dict.{put, has, has-erase}
use zguide_examples.Prelude.Result.{ok, fault, assert_failed, Fault, >>=-eq-fault, Ensures-ok}
use zguide_examples.Zmq.Frames.{Message}
use zguide_examples.ParanoidPirate.Workers.{Workers, is_nil}
use zguide_examples.ParanoidPirate.Workers
use zguide_examples.ParanoidPirate.Workers.Identities.{member}
use zguide_examples.ParanoidPirate.Workers.Invariant.{IsValid}
use zguide_examples.ParanoidPirate.Queue.{
  State, Input, heartbeat, control, from_worker, on_backend, on_frontend, polled, step,
}
use zguide_examples.ParanoidPirate.Queue.Safety.{KeptBy, polled-Kept}

-- The one message that makes the process fail: the heartbeat of a worker that is not queued.
abbrev Stray : Fault → Bytes → Message → Workers → Type 0
Stray e id frames w = (e ≡ assert_failed) × (frames ≡ heartbeat ∷ []) × (member id w.queue ≡ false)

abbrev entered : ℕ → Bytes → Workers → Workers
entered now k w = record w { lookup = put k (now + w.ttl) w.lookup; queue = w.queue ++ k ∷ [] }

push_fresh :
    (now : ℕ) (k : Bytes) (w : Workers)
    → has k w.lookup ≡ false
    → (w' : Workers) × (Workers.push now k w ≡ ok w')
unfolding Workers.push
push_fresh now k w h = (entered now k w, rw h)

rejoin_fresh : (k : Bytes) (w : Workers) → has k (Workers.erase k w).lookup ≡ false
unfolding Workers.erase
rejoin_fresh k w = ground (arith, has-erase k k w.lookup, same_refl k)

try_push_fine :
    (now : ℕ) (k : Bytes) (w : Workers) → (r : Workers × Bool) × (Workers.try_push now k w ≡ ok r)
unfolding Workers.try_push Workers.push
try_push_fine now k w = elim (Bool-cases (has k w.lookup)) [
  | inl h ↦ ((w, false), rw h)
  | inr h ↦ ((entered now k w, true), rw h)
]

control_faults :
    (now : ℕ) (id frame : Bytes) (w : Workers) (e : Fault)
    → IsValid w
    → control now id frame w ≡ fault e
    → Stray e id (frame ∷ []) w
unfolding control Workers.refresh
control_faults now id frame w e v h =
    let (w', fine) = push_fresh now id (Workers.erase id w) (rejoin_fresh id w) in
    grind (keys, fine, v.agree id)

from_worker_faults :
    (now : ℕ) (id : Bytes) (frames : Message) (w : Workers) (e : Fault)
    → IsValid w
    → frames ≢ []
    → from_worker now id frames w ≡ fault e
    → Stray e id frames w
unfolding from_worker
from_worker_faults now id [] w e v n h = absurd (n refl)
from_worker_faults now id (f ∷ []) w e v n h =
    elim (>>=-eq-fault (control now id f w) (λ w'. ok (w', [])) h) [
      | inl p ↦ control_faults now id f w e v p
      | inr (w', p, q) ↦ absurd (cc)
    ]
from_worker_faults now id (f ∷ g ∷ fs) w e v n h =
    let (r, fine) = try_push_fine now id w in absurd (ground (arith, fine))

-- What `recv_frames` gives of a ROUTER socket: nothing, if it was interrupted, or an identity and
-- at least one more frame.
pub data IsRouted : Option Message → Type 0 where
  quiet : IsRouted none
  interrupted : IsRouted (some [])
  message : (id f : Bytes) (fs : Message) → IsRouted (some (id ∷ f ∷ fs))

polled_faults :
    (now : ℕ) (o : Option Message) (w : Workers) (e : Fault)
    → IsValid w
    → IsRouted o
    → polled (on_backend now) o w ≡ fault e
    → (id : Bytes) × (o ≡ some (id ∷ heartbeat ∷ [])) × Stray e id (heartbeat ∷ []) w
unfolding polled on_backend
polled_faults now none w e v quiet h = absurd (cc)
polled_faults now (some m) w e v interrupted h = absurd (cc)
polled_faults now (some m) w e v (message id f fs) h =
    let (a, b, c) = from_worker_faults now id (f ∷ fs) w e v (λ n. cc) h in
    (id, ap (λ l. some (id ∷ l)) b, (a, refl, c))

on_frontend_fine :
    (m : Message) (w : Workers) (e : Fault)
    → Workers.empty w ≡ false
    → on_frontend m w ≡ fault e
    → ⊥
unfolding on_frontend Workers.empty Workers.front
on_frontend_fine m w e h f = ground arith

polled_frontend_fine :
    (o : Option Message) (before w : Workers) (e : Fault)
    → (Workers.empty before ≡ true → o ≡ none)
    → (Workers.empty before ≡ false → Workers.empty w ≡ false)
    → polled on_frontend o w ≡ fault e
    → ⊥
unfolding polled
polled_frontend_fine none before w e contract kept h = cc
polled_frontend_fine (some m) before w e contract kept h =
    elim (Bool-cases (Workers.empty before)) [
      | inl b ↦ absurd (ground (arith, contract b))
      | inr b ↦ on_frontend_fine m w e (kept b) h
    ]

-- From a consistent state, with messages as a ROUTER socket gives them and with no request read
-- while the queue of workers is empty, a round fails only on the heartbeat of a worker that is not
-- in the queue, by the assertion of `refresh`.
pub step_faults :
    (input : Input) (s : State) (e : Fault)
    → IsValid s.workers
    → IsRouted input.backend
    → (Workers.empty s.workers ≡ true → input.frontend ≡ none)
    → step input s ≡ fault e
    → (id : Bytes) × (input.backend ≡ some (id ∷ heartbeat ∷ []))
      × (e ≡ assert_failed)
      × (member id s.workers.queue ≡ false)
unfolding step
step_faults input s e v routed contract h =
    elim (>>=-eq-fault (polled _ input.backend s.workers) _ h) [
      | inl p ↦
          let (id, b, st) = polled_faults _ input.backend s.workers e v routed p in
          (id, b, st.0, st.2)
      | inr (r, p, q) ↦
          let kept =
            (Ensures-ok (KeptBy s.workers) _ (polled-Kept _ input.backend s.workers v) p).1 in
          absurd (elim (>>=-eq-fault (polled on_frontend input.frontend r.0) _ q) [
            | inl f ↦ polled_frontend_fine input.frontend s.workers r.0 e contract kept f
            | inr (r₂, g, f) ↦ absurd (cc)
          ])
    ]

-- From a consistent state, a round that reads the heartbeat of a worker that is not in the queue,
-- as one that was purged or that has a request, fails by an assertion, which stops the process.
pub step-heartbeat_unknown :
    (input : Input) (s : State) (id : Bytes)
    → IsValid s.workers
    → input.backend ≡ some (id ∷ heartbeat ∷ [])
    → member id s.workers.queue ≡ false
    → step input s ≡ fault assert_failed
unfolding step polled on_backend from_worker control Workers.refresh same
step-heartbeat_unknown input s id v b h = rw b (rw (v.agree id ∙ h))
