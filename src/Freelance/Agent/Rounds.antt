-- ===== src/Freelance/Agent/Rounds.antt =====
-- flcliagent.hpp: a whole round keeps the pointers of the agent good.
use zguide_examples.Prelude.{
  ℕ, suc, ◌≡◌, inl, inr, refl, false, Option, none, some, List, [], ◌∷◌, arith,
}
use zguide_examples.Prelude.Tests.{ltb, leb, Bool-cases}
use zguide_examples.Prelude.Lists.{length, set, length-set}
use zguide_examples.Prelude.Dict.{Dict}
use zguide_examples.Zmq.Frames.{Message, was_interrupted}
use zguide_examples.Freelance.Server.{Server, expired, set_alive}
use zguide_examples.Freelance.Agent.{
  Agent, Outcome, Input, deref, on_control_message, on_router_message, send_to_first, dispatch,
  ping, ping_all, polled, step,
}
use zguide_examples.Freelance.Agent.Invariant.{
  Inside, InsideConns, IsValid, Sound, Sound-then, Inside-mono, InsideConns-mono, write-IsValid,
  deref-Yields, on_control_message-IsValid, on_router_message-IsValid,
}

send_to_first-IsValid :
    (clock : ℕ → ℕ) (i : ℕ) (todo : List ℕ) (g : Agent)
    → Inside (length g.servers) todo
    → IsValid g
    → Sound (send_to_first clock i todo g)
unfolding send_to_first
send_to_first-IsValid clock i [] g h v = record { alive_in = tt; conns_in = v.conns_in }
send_to_first-IsValid clock i (a ∷ rest) g h v =
    Sound-then _ (deref g.servers a) _ (deref-Yields g.servers a h.0) λ s _.
      elim (Bool-cases (expired (clock i) s)) [
        | inl e ↦ rw e (
            send_to_first-IsValid clock (suc i) rest
              (record g { servers = set g.servers a (set_alive false s) })
              (Inside-mono rest (omega (arith, length-set g.servers a (set_alive false s))) h.1)
              (write-IsValid g a (set_alive false s) v))
        | inr e ↦ rw e (record { alive_in = h; conns_in = v.conns_in })
      ]

dispatch-IsValid : (now : ℕ) (clock : ℕ → ℕ) (g : Agent) → IsValid g → Sound (dispatch now clock g)
unfolding dispatch
dispatch-IsValid now clock g v = elim (Bool-cases (was_interrupted g.request)) [
  | inl e ↦ rw e v
  | inr e ↦ rw e (elim (Bool-cases (leb g.expires now)) [
    | inl h ↦ rw h (record { alive_in = v.alive_in; conns_in = v.conns_in })
    | inr h ↦ rw h (send_to_first-IsValid clock 0 g.alive g v.alive_in v)
  ])
]

-- A ping changes no pointer and keeps the size of the store.
ping-IsValid :
    (now a : ℕ) (s : Server) (g : Agent)
    → IsValid g
    → IsValid (ping now a s g).0 × (length (ping now a s g).0.servers ≡ length g.servers)
unfolding ping
ping-IsValid now a s g v = elim (Bool-cases (ltb now s.ping_at)) [
  | inl e ↦ rw e (v, refl)
  | inr e ↦ rw e (write-IsValid g a _ v, length-set g.servers a _)
]

ping_all-IsValid :
    (clock : ℕ → ℕ) (i : ℕ) (d : Dict ℕ) (g : Agent)
    → InsideConns (length g.servers) d
    → IsValid g
    → Sound (ping_all clock i d g)
unfolding ping_all
ping_all-IsValid clock i [] g h v = v
ping_all-IsValid clock i ((k, a) ∷ d) g h v =
    Sound-then _ (deref g.servers a) _ (deref-Yields g.servers a h.0) λ s _.
      let g₁ = (ping (clock i) a s g).0 in
      let (v', e) = ping-IsValid (clock i) a s g v in
      Sound-then _ (ping_all clock (suc i) d g₁) _
        (ping_all-IsValid clock (suc i) d g₁ (InsideConns-mono d (omega (arith, e)) h.1) v')
        λ r w. w

polled-IsValid :
    (handler : Message → Agent → Outcome) (o : Option Message) (g : Agent)
    → ((m : Message) (g : Agent) → IsValid g → Sound (handler m g))
    → IsValid g
    → Sound (polled handler o g)
polled-IsValid handler none g h v = v
polled-IsValid handler (some m) g h v = h m g v

-- One round of a consistent agent, whatever it receives: if it succeeds, all the pointers in
-- `alive_servers_` and `conn_map_` are again to servers of the store; if it fails, it is not by
-- following a pointer to nothing.
pub step-Sound : (i : Input) (g : Agent) → IsValid g → Sound (step i g)
unfolding step
step-Sound i g v =
    Sound-then _ (polled (on_control_message i.control_at) i.control g) _
      (polled-IsValid _ i.control g (on_control_message-IsValid i.control_at) v)
      λ r₁ v₁.
        Sound-then _ (polled (on_router_message i.router_at) i.router r₁.0) _
          (polled-IsValid _ i.router r₁.0 (on_router_message-IsValid i.router_at) v₁)
          λ r₂ v₂.
            Sound-then _ (dispatch i.checked_at i.tried_at r₂.0) _
              (dispatch-IsValid i.checked_at i.tried_at r₂.0 v₂)
              λ r₃ v₃.
                Sound-then _ (ping_all i.pinged_at 0 r₃.0.conns r₃.0) _
                  (ping_all-IsValid i.pinged_at 0 r₃.0.conns r₃.0 v₃.conns_in v₃) λ r₄ v₄. v₄
