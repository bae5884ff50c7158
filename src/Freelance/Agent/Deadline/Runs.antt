-- ===== src/Freelance/Agent/Deadline/Runs.antt =====
-- flcliagent.hpp: rounds of `agent_task` while the client waits.
use zguide_examples.Prelude.{
  ℕ, suc, ◌≤◌, ◌≡◌, ◌⊎◌, inl, inr, refl, sym, ap, ◌∙◌, true, false, Option, none, List, [], ◌∷◌,
  ◌++◌, arith,
}
use zguide_examples.Prelude.Tests.{leb, Bool-cases}
use zguide_examples.Prelude.Lists.{All}
use zguide_examples.Prelude.Result.{ok, ◌>>=◌, Ensures, Ensures-bind, Ensures-ok, Ensures-intro}
use zguide_examples.Prelude.Bytes.{Bytes}
use zguide_examples.Zmq.Frames.{Message, was_interrupted}
use zguide_examples.Freelance.Server.{expired}
use zguide_examples.Freelance.Agent.{
  status_failed, Agent, Action, Outcome, Input, deref, on_router_message, send_to_first, dispatch,
  ping_all, polled, step,
}
use zguide_examples.Freelance.Agent.Deadline.{
  IsSent, Allows, IsSent-front, IsSent-back, Concludes, Kept, ping_all_keeps, nothing,
  router-Concludes, step-concludes,
}

-- The loop of `agent_task`, for some rounds.
unfoldable pub run : List Input → Agent → Outcome
run [] g = ok (g, [])
run (i ∷ inputs) g = do (g₁, a₁) ← step i g; (g₂, a₂) ← run inputs g₁; ok (g₂, a₁ ++ a₂)

none_waits : was_interrupted [] ≡ true
unfolding was_interrupted
none_waits = refl

one_waits : (f : Bytes) (m : Message) → was_interrupted (f ∷ m) ≡ false
unfolding was_interrupted
one_waits f m = refl

-- The deadline stays; the request waits as before, or has ended with an answer.
abbrev Progress : (Message → Type 0) → Agent → Agent × List Action → Type 0
Progress P g r =
    (r.0.expires ≡ g.expires)
    × ((was_interrupted r.0.request ≡ was_interrupted g.request)
        ⊎ ((was_interrupted r.0.request ≡ true) × IsSent P r.1))

-- None waits any more, and the client has an answer if one waited before.
abbrev Ended : (Message → Type 0) → Agent → Agent × List Action → Type 0
Ended P g r =
    (was_interrupted r.0.request ≡ true) × ((was_interrupted g.request ≡ true) ⊎ IsSent P r.1)

-- A round without a command of the client.
abbrev pub IsWaiting : (Message → Type 0) → Input → Type 0
IsWaiting P i = (i.control ≡ none) × Allows P i.router

module _ (P : Message → Type 0) (p : P (status_failed ∷ [])) where
  Progress-then :
      (g g₁ g₂ : Agent) (a b : List Action)
      → Progress P g (g₁, a)
      → Progress P g₁ (g₂, b)
      → Progress P g (g₂, a ++ b)
  Progress-then g g₁ g₂ a b (x, inl e) (y, inl f) = (y ∙ x, inl (f ∙ e))
  Progress-then g g₁ g₂ a b (x, inl e) (y, inr (f, n)) = (y ∙ x, inr (f, IsSent-back P a b n))
  Progress-then g g₁ g₂ a b (x, inr (e, n)) (y, inl f) = (y ∙ x, inr (f ∙ e, IsSent-front P a b n))
  Progress-then g g₁ g₂ a b (x, inr (e, n)) (y, inr (f, m)) = (y ∙ x, inr (f, IsSent-front P a b n))

  Concludes-Progress : (g : Agent) (r : Agent × List Action) → Concludes P g r → Progress P g r
  Concludes-Progress g r (x, inl e) = (x, inl (ap was_interrupted e))
  Concludes-Progress g r (x, inr (e, n)) = (x, inr (ap was_interrupted e ∙ none_waits, n))

  router-Progress :
      (now : ℕ) (o : Option Message) (g : Agent)
      → Allows P o
      → Ensures (Progress P g) (polled (on_router_message now) o g)
  router-Progress now o g q =
      Ensures-intro (Progress P g) (polled (on_router_message now) o g) λ r e.
        Concludes-Progress g r (Ensures-ok (Concludes P g) _ (router-Concludes P now o g q) e)

  send_to_first-Progress :
      (clock : ℕ → ℕ) (i : ℕ) (todo : List ℕ) (g : Agent)
      → was_interrupted g.request ≡ false
      → Ensures (Progress P g) (send_to_first clock i todo g)
  unfolding send_to_first
  send_to_first-Progress clock i [] g h = (refl, inl refl)
  send_to_first-Progress clock i (a ∷ todo) g h =
      Ensures-bind (Progress P g) (deref g.servers a) _ λ s _.
        elim (Bool-cases (expired (clock i) s)) [
          | inl e ↦ rw e (send_to_first-Progress clock (suc i) todo _ h)
          | inr e ↦ rw e (refl, inl (one_waits s.endpoint g.request ∙ sym h))
        ]

  dispatch-Progress :
      (now : ℕ) (clock : ℕ → ℕ) (g : Agent) → Ensures (Progress P g) (dispatch now clock g)
  unfolding dispatch
  dispatch-Progress now clock g = elim (Bool-cases (was_interrupted g.request)) [
    | inl e ↦ rw e (refl, inl refl)
    | inr e ↦ rw e (elim (Bool-cases (leb g.expires now)) [
      | inl l ↦ rw l (refl, inr (none_waits, inl p))
      | inr l ↦ rw l (send_to_first-Progress clock 0 g.alive g e)
    ])
  ]

  step-Progress : (i : Input) (g : Agent) → IsWaiting P i → Ensures (Progress P g) (step i g)
  unfolding step
  step-Progress i g (n, q) = rw n (
      Ensures-bind (Progress P g) (polled (on_router_message i.router_at) i.router g) _ λ r₂ e₂.
        let p₂ = Ensures-ok (Progress P g) _ (router-Progress i.router_at i.router g q) e₂ in
        Ensures-bind (Progress P g) (dispatch i.checked_at i.tried_at r₂.0) _ λ r₃ e₃.
          let p₃ =
            Ensures-ok (Progress P r₂.0) _ (dispatch-Progress i.checked_at i.tried_at r₂.0) e₃ in
          Ensures-bind (Progress P g) (ping_all i.pinged_at 0 r₃.0.conns r₃.0) _ λ r₄ e₄.
            let (kept, x) =
              Ensures-ok (Kept r₃.0) _ (ping_all_keeps i.pinged_at 0 r₃.0.conns r₃.0) e₄ in
            Progress-then g r₃.0 r₄.0 (r₂.1 ++ r₃.1) r₄.1
              (Progress-then g r₂.0 r₃.0 r₂.1 r₃.1 p₂ p₃) (x, inl (ap was_interrupted kept)))

  run-Progress :
      (inputs : List Input) (g : Agent)
      → All (IsWaiting P) inputs
      → Ensures (Progress P g) (run inputs g)
  unfolding run
  run-Progress [] g a = (refl, inl refl)
  run-Progress (i ∷ inputs) g (n, a) = Ensures-bind (Progress P g) (step i g) _ λ r₁ e₁.
      let p₁ = Ensures-ok (Progress P g) _ (step-Progress i g n) e₁ in
      Ensures-bind (Progress P g) (run inputs r₁.0) _ λ r₂ e₂.
        Progress-then g r₁.0 r₂.0 r₁.1 r₂.1 p₁
          (Ensures-ok (Progress P r₁.0) _ (run-Progress inputs r₁.0 a) e₂)

  Ended-then :
      (g g₁ g₂ : Agent) (a b : List Action)
      → Ended P g (g₁, a)
      → Progress P g₁ (g₂, b)
      → Ended P g (g₂, a ++ b)
  Ended-then g g₁ g₂ a b (e, inl h) (x, inl q) = (q ∙ e, inl h)
  Ended-then g g₁ g₂ a b (e, inl h) (x, inr (q, m)) = (q, inl h)
  Ended-then g g₁ g₂ a b (e, inr n) (x, inl q) = (q ∙ e, inr (IsSent-front P a b n))
  Ended-then g g₁ g₂ a b (e, inr n) (x, inr (q, m)) = (q, inr (IsSent-front P a b n))

  Progress-ends :
      (g g₁ g₂ : Agent) (a b : List Action)
      → Progress P g (g₁, a)
      → Ended P g₁ (g₂, b)
      → Ended P g (g₂, a ++ b)
  Progress-ends g g₁ g₂ a b (x, inr (q, n)) (e, h) = (e, inr (IsSent-front P a b n))
  Progress-ends g g₁ g₂ a b (x, inl q) (e, inl h) = (e, inl (sym q ∙ h))
  Progress-ends g g₁ g₂ a b (x, inl q) (e, inr n) = (e, inr (IsSent-back P a b n))

  or_empty : {A : Type 0} (m : Message) → (m ≡ []) ⊎ A → (was_interrupted m ≡ true) ⊎ A
  or_empty m (inl e) = inl (ap was_interrupted e ∙ none_waits)
  or_empty m (inr k) = inr k

  or_none : {A : Type 0} (m : Message) → (was_interrupted m ≡ true) ⊎ A → (m ≡ []) ⊎ A
  or_none m (inl e) = inl (nothing m e)
  or_none m (inr k) = inr k

  step-Ended :
      (i : Input) (g : Agent)
      → IsWaiting P i
      → g.expires ≤ i.checked_at
      → Ensures (Ended P g) (step i g)
  step-Ended i g (n, q) h = Ensures-intro (Ended P g) (step i g) λ r e.
      let (gone, answered) = step-concludes P i g p q n h e in
      (ap was_interrupted gone ∙ none_waits, or_empty g.request answered)

  module _ (i : Input) (after : List Input) (n : IsWaiting P i)
      (later : All (IsWaiting P) after) where
    run-Ended :
        (before : List Input) (g : Agent)
        → All (IsWaiting P) before
        → g.expires ≤ i.checked_at
        → Ensures (Ended P g) (run (before ++ i ∷ after) g)
    unfolding run
    run-Ended [] g a h = Ensures-bind (Ended P g) (step i g) _ λ r₁ e₁.
        let ended = Ensures-ok (Ended P g) _ (step-Ended i g n h) e₁ in
        Ensures-bind (Ended P g) (run after r₁.0) _ λ r₂ e₂.
          Ended-then g r₁.0 r₂.0 r₁.1 r₂.1 ended
            (Ensures-ok (Progress P r₁.0) _ (run-Progress after r₁.0 later) e₂)
    run-Ended (j ∷ before) g (m, a) h = Ensures-bind (Ended P g) (step j g) _ λ r₁ e₁.
        let q = Ensures-ok (Progress P g) _ (step-Progress j g m) e₁ in
        Ensures-bind (Ended P g) (run (before ++ i ∷ after) r₁.0) _ λ r₂ e₂.
          Progress-ends g r₁.0 r₂.0 r₁.1 r₂.1 q
            (Ensures-ok (Ended P r₁.0) _ (run-Ended before r₁.0 a (omega (arith, q.0))) e₂)

    -- In any number of rounds without a command of the client, one of which is checked at or past the
    -- deadline of the request: if the rounds pass without a failure, no request waits behind them, and if
    -- one waited before, the client has been sent what `P` allows.
    pub run-concludes :
        (before : List Input) (g : Agent) {g' : Agent} {acts : List Action}
        → All (IsWaiting P) before
        → g.expires ≤ i.checked_at
        → run (before ++ i ∷ after) g ≡ ok (g', acts)
        → (g'.request ≡ []) × ((g.request ≡ []) ⊎ IsSent P acts)
    run-concludes before g a h e =
        let (gone, answered) = Ensures-ok (Ended P g) _ (run-Ended before g a h) e in
        (nothing _ gone, or_none g.request answered)
