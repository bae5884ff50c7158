-- ===== src/Freelance/Agent/Deadline/Total.antt =====
-- flcliagent.hpp: rounds of `agent_task` that do not fail, while the client waits.
use mathlib.Core.Path.{subst}
use zguide_examples.Prelude.{
  ℕ, suc, ◌≤◌, ◌≡◌, ◌⊎◌, inl, inr, refl, ◌∙◌, not, ◌&&◌, Option, none, some, List, [], ◌∷◌, ◌++◌,
}
use zguide_examples.Prelude.Tests.{ltb, leb, ◌==◌, Bool-cases, Option-cases}
use zguide_examples.Prelude.Lists.{All, All-append, All-prefix, All-suffix, get_elem?, set}
use zguide_examples.Prelude.Bytes.{Bytes}
use zguide_examples.Prelude.Dict.{Dict, find?}
use zguide_examples.Prelude.Result.{Result, ok, stop, fault, dangling, ◌>>=◌}
use zguide_examples.Zmq.Frames.{Message, was_interrupted}
use zguide_examples.Freelance.Server.{Server, expired, set_alive}
use zguide_examples.Freelance.Sequence.{stoseq, minus_one}
use zguide_examples.Freelance.Agent.{
  status_failed, status_ok, Agent, Action, Outcome, Input, deref, revive, on_reply,
  on_router_message, send_to_first, dispatch, ping, ping_all, polled, step, false,
}
use zguide_examples.Freelance.Agent.Invariant.{Fine, IsValid, Sound}
use zguide_examples.Freelance.Agent.Rounds.{step-Sound}
use zguide_examples.Freelance.Agent.Deadline.{IsSent, Allows}
use zguide_examples.Freelance.Agent.Deadline.Runs.{run, run-concludes, IsWaiting}

-- It succeeds, or follows a pointer to nothing.
abbrev Follows {ℓ} : {A : Type ℓ} → (A → Type 0) → Result A → Type 0
Follows P (ok a) = P a
Follows P stop = ⊥
Follows P (fault e) = e ≡ dangling

Follows-then {ℓ κ} :
    {A : Type ℓ} {B : Type κ} (P : A → Type 0) (Q : B → Type 0) (m : Result A) (f : A → Result B)
    → Follows P m
    → ((a : A) → P a → Follows Q (f a))
    → Follows Q (m >>= f)
Follows-then P Q (ok a) f h k = k a h
Follows-then P Q stop f h k = absurd h
Follows-then P Q (fault e) f h k = h

deref-Follows : (servers : List Server) (a : ℕ) → Follows (λ _. Unit) (deref servers a)
deref-Follows servers a = elim (Option-cases (get_elem? servers a)) [
  | inl e ↦ rw e refl
  | inr (s, e) ↦ rw e tt
]

abbrev SameConns : Agent → Agent × List Action → Type 0
SameConns g r = r.0.conns ≡ g.conns

module _ (g : Agent) where
  then_deref :
      (a : ℕ) (f : Server → Outcome)
      → ((s : Server) → Follows (SameConns g) (f s))
      → Follows (SameConns g) (deref g.servers a >>= f)
  then_deref a f h =
      Follows-then (λ _. Unit) (SameConns g) (deref g.servers a) f (deref-Follows g.servers a)
        λ s _. h s

send_to_first-Follows :
    (clock : ℕ → ℕ) (i : ℕ) (todo : List ℕ) (g : Agent)
    → Follows (SameConns g) (send_to_first clock i todo g)
unfolding send_to_first
send_to_first-Follows clock i [] g = refl
send_to_first-Follows clock i (a ∷ todo) g = then_deref g a _ λ s.
    elim (Bool-cases (expired (clock i) s)) [
      | inl e ↦ rw e (
          send_to_first-Follows clock (suc i) todo
            (record g { servers = set g.servers a (set_alive false s) }))
      | inr e ↦ rw e refl
    ]

dispatch-Follows :
    (now : ℕ) (clock : ℕ → ℕ) (g : Agent) → Follows (SameConns g) (dispatch now clock g)
unfolding dispatch
dispatch-Follows now clock g = elim (Bool-cases (was_interrupted g.request)) [
  | inl e ↦ rw e refl
  | inr e ↦ rw e (elim (Bool-cases (leb g.expires now)) [
    | inl l ↦ rw l refl
    | inr l ↦ rw l (send_to_first-Follows clock 0 g.alive g)
  ])
]

ping-SameConns : (now a : ℕ) (s : Server) (g : Agent) → (ping now a s g).0.conns ≡ g.conns
unfolding ping
ping-SameConns now a s g = elim (Bool-cases (ltb now s.ping_at)) [
  | inl e ↦ rw e refl
  | inr e ↦ rw e refl
]

ping_all-Follows :
    (clock : ℕ → ℕ) (i : ℕ) (d : Dict ℕ) (g : Agent) → Follows (SameConns g) (ping_all clock i d g)
unfolding ping_all
ping_all-Follows clock i [] g = refl
ping_all-Follows clock i ((k, a) ∷ d) g = then_deref g a _ λ s.
    let g₁ = (ping (clock i) a s g).0 in
    Follows-then (SameConns g₁) (SameConns g) (ping_all clock (suc i) d g₁) _
      (ping_all-Follows clock (suc i) d g₁) λ r e. e ∙ ping-SameConns (clock i) a s g

-- What a server that is connected to sends: at least a frame behind its identity.
abbrev pub IsHeard : Dict ℕ → Option Message → Type 0
IsHeard d none = Unit
IsHeard d (some []) = ⊥
IsHeard d (some (endpoint ∷ [])) = ⊥
IsHeard d (some (endpoint ∷ f ∷ rest)) = (a : ℕ) × (find? endpoint d ≡ some a)

on_reply-Follows :
    (f : Bytes) (rest : Message) (g : Agent) → Follows (SameConns g) (on_reply (f ∷ rest) g)
unfolding on_reply
on_reply-Follows f rest g =
    elim (Bool-cases (not (stoseq f == minus_one) && not (stoseq f == g.sequence))) [
      | inl e ↦ rw e refl
      | inr e ↦ rw e refl
    ]

router-Follows :
    (now : ℕ) (o : Option Message) (g : Agent)
    → IsHeard g.conns o
    → Follows (SameConns g) (polled (on_router_message now) o g)
unfolding on_router_message revive
router-Follows now none g h = refl
router-Follows now (some []) g h = absurd h
router-Follows now (some (endpoint ∷ [])) g h = absurd h
router-Follows now (some (endpoint ∷ f ∷ rest)) g (a, e) =
    rw e (then_deref g a _ λ s. on_reply-Follows f rest (revive now a s g))

step-Follows :
    (i : Input) (g : Agent)
    → i.control ≡ none
    → IsHeard g.conns i.router
    → Follows (SameConns g) (step i g)
unfolding step
step-Follows i g n h = rw n (
    Follows-then (SameConns g) (SameConns g) (polled (on_router_message i.router_at) i.router g) _
      (router-Follows i.router_at i.router g h)
      λ r₂ e₂.
        Follows-then (SameConns r₂.0) (SameConns g) (dispatch i.checked_at i.tried_at r₂.0) _
          (dispatch-Follows i.checked_at i.tried_at r₂.0)
          λ r₃ e₃.
            Follows-then (SameConns r₃.0) (SameConns g) (ping_all i.pinged_at 0 r₃.0.conns r₃.0) _
              (ping_all-Follows i.pinged_at 0 r₃.0.conns r₃.0) λ r₄ e₄. e₄ ∙ e₃ ∙ e₂)

-- With good pointers it does not follow one to nothing.
succeeds :
    (g : Agent) (m : Outcome)
    → Sound m
    → Follows (SameConns g) m
    → (r : Agent × List Action) × (m ≡ ok r) × IsValid r.0 × SameConns g r
succeeds g (ok r) v f = (r, refl, v, f)
succeeds g stop v f = absurd f
succeeds g (fault e) v f = absurd (subst Fine f v)

-- A round while the client waits, in which nothing comes from a server that is not connected to.
abbrev pub IsQuiet : Dict ℕ → Input → Type 0
IsQuiet d i = (i.control ≡ none) × IsHeard d i.router

run-succeeds :
    (inputs : List Input) (g : Agent)
    → IsValid g
    → All (IsQuiet g.conns) inputs
    → (r : Agent × List Action) × (run inputs g ≡ ok r)
unfolding run
run-succeeds [] g v q = ((g, []), refl)
run-succeeds (i ∷ inputs) g v ((n, h), q) =
    let (r₁, e₁, v₁, c) = succeeds g (step i g) (step-Sound i g v) (step-Follows i g n h) in
    let (r₂, e₂) = run-succeeds inputs r₁.0 v₁ (rw c q) in
    ((r₂.0, r₁.1 ++ r₂.1), rw e₁ (rw e₂ refl))

-- What the router receives in one of the rounds, behind an identity and a frame.
abbrev pub IsReceived : Message → List Input → Type 0
IsReceived rest [] = ⊥
IsReceived rest (i ∷ inputs) =
    ((endpoint : Bytes) × (sequence : Bytes) × (i.router ≡ some (endpoint ∷ sequence ∷ rest)))
    ⊎ IsReceived rest inputs

-- FAILED, or OK in front of what a server has sent in one of the rounds.
abbrev pub IsAnswer : List Input → Message → Type 0
IsAnswer inputs m =
    (m ≡ status_failed ∷ []) ⊎ ((rest : Message) × (m ≡ status_ok ∷ rest) × IsReceived rest inputs)

-- What is received in some rounds is received in these and others.
received_allowed :
    (inputs : List Input) (P : Message → Type 0)
    → ((rest : Message) → IsReceived rest inputs → P (status_ok ∷ rest))
    → All (λ i. Allows P i.router) inputs
received_allowed [] P h = tt
received_allowed (i ∷ inputs) P h = (
  λ endpoint sequence rest e. h rest (inl (endpoint, sequence, e)),
  received_allowed inputs P λ rest r. h rest (inr r),
)

quiet-IsWaiting :
    (d : Dict ℕ) (P : Message → Type 0) (inputs : List Input)
    → All (IsQuiet d) inputs
    → All (λ i. Allows P i.router) inputs
    → All (IsWaiting P) inputs
quiet-IsWaiting d P [] q a = tt
quiet-IsWaiting d P (i ∷ inputs) (n, q) (p, a) = ((n.0, p), quiet-IsWaiting d P inputs q a)

-- A request of a consistent agent ends by its deadline. In any number of rounds without a command of
-- the client, in which what the router receives is from servers that are connected to and has a frame
-- behind the identity, and one of which is checked at or past the deadline: no round fails, no request
-- waits behind them, and if one waited before, the client has been sent FAILED, or OK in front of what a
-- server has sent in one of these rounds, without its identity and the frame behind that.
pub request_concludes :
    (before after : List Input) (i : Input) (g : Agent)
    → IsValid g
    → All (IsQuiet g.conns) before
    → IsQuiet g.conns i
    → All (IsQuiet g.conns) after
    → g.expires ≤ i.checked_at
    → (g' : Agent) × (acts : List Action) × (run (before ++ i ∷ after) g ≡ ok (g', acts))
      × (g'.request ≡ [])
      × ((g.request ≡ []) ⊎ IsSent (IsAnswer (before ++ i ∷ after)) acts)
request_concludes before after i g v q n q' h =
    let inputs = before ++ i ∷ after in
    let P = IsAnswer inputs in
    let quiet = All-append _ before (i ∷ after) q (n, q') in
    let ((g', acts), e) = run-succeeds inputs g v quiet in
    let waiting =
      quiet-IsWaiting g.conns P inputs quiet
        (received_allowed inputs P λ rest r. inr (rest, refl, r)) in
    let front = All-prefix (IsWaiting P) before (i ∷ after) waiting in
    let (now, later) = All-suffix (IsWaiting P) before (i ∷ after) waiting in
    let (gone, answered) = run-concludes P (inl refl) i after now later before g front h e in
    (g', acts, e, gone, answered)
