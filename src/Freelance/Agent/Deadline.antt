-- ===== src/Freelance/Agent/Deadline.antt =====
-- flcliagent.hpp: a request ends by its deadline.
pub mod Runs
pub mod Total
use zguide_examples.Prelude.{
  ℕ, suc, ◌+◌, ◌≤◌, ◌≡◌, ◌⊎◌, inl, inr, refl, sym, ◌∙◌, true, not, ◌&&◌, Option, none, some, List,
  [], ◌∷◌, ◌++◌, arith,
}
use zguide_examples.Prelude.Tests.{ltb, ◌==◌, le→leb, Bool-cases}
use zguide_examples.Prelude.Bytes.{Bytes}
use zguide_examples.Prelude.Dict.{Dict}
use zguide_examples.Prelude.Result.{ok, Ensures, Ensures-bind, Ensures-ok, take_front}
use zguide_examples.Zmq.Frames.{Message, was_interrupted}
use zguide_examples.Freelance.Server.{Server}
use zguide_examples.Freelance.Sequence.{stoseq, minus_one}
use zguide_examples.Freelance.Agent.{
  status_ok, status_failed, Agent, Action, Input, to_pipe, to_router, connects, deref, revive,
  at_endpoint, on_reply, on_router_message, dispatch, ping, ping_all, polled, step,
}

-- The client is sent a message with a property.
abbrev pub IsSent : (Message → Type 0) → List Action → Type 0
IsSent P [] = ⊥
IsSent P (to_pipe m ∷ acts) = P m ⊎ IsSent P acts
IsSent P (to_router _ ∷ acts) = IsSent P acts
IsSent P (connects _ ∷ acts) = IsSent P acts

-- FAILED, and OK in front of what the router has received behind an identity and a frame.
abbrev pub Allows : (Message → Type 0) → Option Message → Type 0
Allows P o =
    (endpoint sequence : Bytes) (rest : Message)
    → o ≡ some (endpoint ∷ sequence ∷ rest)
    → P (status_ok ∷ rest)

module _ (P : Message → Type 0) where
  pub IsSent-front : (a b : List Action) → IsSent P a → IsSent P (a ++ b)
  IsSent-front [] b h = absurd h
  IsSent-front (to_pipe m ∷ a) b (inl h) = inl h
  IsSent-front (to_pipe m ∷ a) b (inr h) = inr (IsSent-front a b h)
  IsSent-front (to_router _ ∷ a) b h = IsSent-front a b h
  IsSent-front (connects _ ∷ a) b h = IsSent-front a b h

  pub IsSent-back : (a b : List Action) → IsSent P b → IsSent P (a ++ b)
  IsSent-back [] b h = h
  IsSent-back (to_pipe m ∷ a) b h = inr (IsSent-back a b h)
  IsSent-back (to_router _ ∷ a) b h = IsSent-back a b h
  IsSent-back (connects _ ∷ a) b h = IsSent-back a b h

-- The request waits as before, or the client has been answered and none waits.
abbrev pub Concludes : (Message → Type 0) → Agent → Agent × List Action → Type 0
Concludes P g r =
    (r.0.expires ≡ g.expires) × ((r.0.request ≡ g.request) ⊎ ((r.0.request ≡ []) × IsSent P r.1))

on_reply-Concludes :
    (P : Message → Type 0) (f : Bytes) (rest : Message) (g : Agent)
    → P (status_ok ∷ rest)
    → Ensures (Concludes P g) (on_reply (f ∷ rest) g)
unfolding on_reply
on_reply-Concludes P f rest g p =
    elim (Bool-cases (not (stoseq f == minus_one) && not (stoseq f == g.sequence))) [
      | inl e ↦ rw e (refl, inl refl)
      | inr e ↦ rw e (refl, inr (refl, inl p))
    ]

on_reply_none : (P : Message → Type 0) (g : Agent) → Ensures (Concludes P g) (on_reply [] g)
unfolding on_reply
on_reply_none P g = tt

pub router-Concludes :
    (P : Message → Type 0) (now : ℕ) (o : Option Message) (g : Agent)
    → Allows P o
    → Ensures (Concludes P g) (polled (on_router_message now) o g)
unfolding on_router_message revive
router-Concludes P now none g p = (refl, inl refl)
router-Concludes P now (some []) g p = tt
router-Concludes P now (some (endpoint ∷ reply)) g p =
    Ensures-bind (Concludes P g) (at_endpoint endpoint g.conns) _
      λ a _. Ensures-bind (Concludes P g) (deref g.servers a) _ λ s _. replied now a s reply p
  where
    replied :
        (now a : ℕ) (s : Server) (reply : Message)
        → Allows P (some (endpoint ∷ reply))
        → Ensures (Concludes P g) (on_reply reply (revive now a s g))
    replied now a s [] p = on_reply_none P (revive now a s g)
    replied now a s (f ∷ rest) p =
        on_reply-Concludes P f rest (revive now a s g) (p endpoint f rest refl)

-- What the pings leave as it is.
abbrev pub Kept : Agent → Agent × List Action → Type 0
Kept g r = (r.0.request ≡ g.request) × (r.0.expires ≡ g.expires)

ping_keeps : (now a : ℕ) (s : Server) (g : Agent) → Kept g (ping now a s g)
unfolding ping
ping_keeps now a s g = elim (Bool-cases (ltb now s.ping_at)) [
  | inl e ↦ rw e (refl, refl)
  | inr e ↦ rw e (refl, refl)
]

pub ping_all_keeps :
    (clock : ℕ → ℕ) (i : ℕ) (d : Dict ℕ) (g : Agent) → Ensures (Kept g) (ping_all clock i d g)
unfolding ping_all
ping_all_keeps clock i [] g = (refl, refl)
ping_all_keeps clock i ((k, a) ∷ d) g = Ensures-bind (Kept g) (deref g.servers a) _ λ s _.
    let g₁ = (ping (clock i) a s g).0 in
    let (r₀, x₀) = ping_keeps (clock i) a s g in
    Ensures-bind (Kept g) (ping_all clock (suc i) d g₁) _ λ r e.
      let (r₁, x₁) = Ensures-ok (Kept g₁) _ (ping_all_keeps clock (suc i) d g₁) e in
      (r₁ ∙ r₀, x₁ ∙ x₀)

pub nothing : (m : Message) → was_interrupted m ≡ true → m ≡ []
unfolding was_interrupted
nothing [] e = refl
nothing (f ∷ m) e = cc

-- Past the deadline.
dispatch_late :
    (P : Message → Type 0) (now : ℕ) (clock : ℕ → ℕ) (g : Agent)
    → P (status_failed ∷ [])
    → g.expires ≤ now
    → Ensures (λ r. (r.0.request ≡ []) × ((g.request ≡ []) ⊎ IsSent P r.1)) (dispatch now clock g)
unfolding dispatch
dispatch_late P now clock g p h = elim (Bool-cases (was_interrupted g.request)) [
  | inl e ↦ rw e (nothing g.request e, inl (nothing g.request e))
  | inr e ↦ rw e (rw (le→leb g.expires now h) (refl, inr (inl p)))
]

either_answers :
    (P : Message → Type 0) (before between : Message) (a b c : List Action)
    → ((between ≡ before) ⊎ ((between ≡ []) × IsSent P a))
    → ((between ≡ []) ⊎ IsSent P b)
    → (before ≡ []) ⊎ IsSent P (a ++ b ++ c)
either_answers P before between a b c (inl e) (inl f) = inl (sym e ∙ f)
either_answers P before between a b c (inl e) (inr f) =
    inr (IsSent-front P (a ++ b) c (IsSent-back P a b f))
either_answers P before between a b c (inr (e, f)) d =
    inr (IsSent-front P (a ++ b) c (IsSent-front P a b f))

-- In a round without a command of the client that is checked at or past the deadline of a waiting
-- request, the request ends: none waits behind the round, and if one waited before, the client has been
-- sent FAILED, or OK in front of what the router has received behind an identity and a frame.
pub step-concludes :
    (P : Message → Type 0) (i : Input) (g : Agent) {g' : Agent} {acts : List Action}
    → P (status_failed ∷ [])
    → Allows P i.router
    → i.control ≡ none
    → g.expires ≤ i.checked_at
    → step i g ≡ ok (g', acts)
    → (g'.request ≡ []) × ((g.request ≡ []) ⊎ IsSent P acts)
unfolding step
step-concludes P i g p q n h e = Ensures-ok Ended (step i g) ended e
  where
    Ended : Agent × List Action → Type 0
    Ended r = (r.0.request ≡ []) × ((g.request ≡ []) ⊎ IsSent P r.1)

    ended : Ensures Ended (step i g)
    ended = rw n (
        Ensures-bind Ended (polled (on_router_message i.router_at) i.router g) _ λ r₂ e₂.
          let (kept, routed) =
            Ensures-ok (Concludes P g) _ (router-Concludes P i.router_at i.router g q) e₂ in
          Ensures-bind Ended (dispatch i.checked_at i.tried_at r₂.0) _ λ r₃ e₃.
            let (none_left, dispatched) =
              Ensures-ok _ _ (dispatch_late P i.checked_at i.tried_at r₂.0 p (omega (arith, kept)))
                e₃ in
            Ensures-bind Ended (ping_all i.pinged_at 0 r₃.0.conns r₃.0) _ λ r₄ e₄. (
              (Ensures-ok _ _ (ping_all_keeps i.pinged_at 0 r₃.0.conns r₃.0) e₄).0 ∙ none_left,
              either_answers P g.request r₂.0.request r₂.1 r₃.1 r₄.1 routed dispatched,
            ))
