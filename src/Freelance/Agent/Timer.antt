-- ===== src/Freelance/Agent/Timer.antt =====
-- flcliagent.hpp: the tickless timer of `agent_task`.
use zguide_examples.Prelude.{
  ℕ, ◌+◌, ◌≤◌, ◌≡◌, inl, inr, true, some, List, [], ◌∷◌, not, ◌&&◌, arith, ◌⊎◌,
}
use zguide_examples.Prelude.Tests.{ltb, if◌then◌else◌, Bool-cases}
use zguide_examples.Prelude.Lists.{length, get_elem?, All}
use zguide_examples.Prelude.Dict.{Dict}
use zguide_examples.Prelude.Result.{Result, ok, ◌>>=◌, Yields, Yields-then, Yields-mono}
use zguide_examples.Zmq.Frames.{was_interrupted}
use zguide_examples.Freelance.Server.{Server}
use zguide_examples.Freelance.Agent.{Agent, deref}
use zguide_examples.Freelance.Agent.Invariant.{Fine, IsValid, InsideConns, deref-Yields}

abbrev pub hour : ℕ
hour = 3600000

-- The loop over `conn_map_`.
pub soonest : List Server → ℕ → Dict ℕ → Result ℕ
soonest servers tickless [] = ok tickless
soonest servers tickless ((_, a) ∷ rest) = do
  s ← deref servers a
  soonest servers (if ltb s.ping_at tickless then s.ping_at else tickless) rest

-- The time up to which `poll` may sleep, at most an hour ahead.
pub tickless : ℕ → Agent → Result ℕ
unfolding soonest
tickless now g =
    let cap = now + hour in
    soonest g.servers
      (if not (was_interrupted g.request) && ltb g.expires cap then g.expires else cap) g.conns

-- What `tickless` is no later than: the ping of each connected server.
abbrev pub PingsBy : ℕ → List Server → Dict ℕ → Type 0
PingsBy t servers = All (λ p. (s : Server) → get_elem? servers p.1 ≡ some s → t ≤ s.ping_at)

soonest_early :
    (servers : List Server) (t : ℕ) (d : Dict ℕ)
    → InsideConns (length servers) d
    → Yields (λ u. (u ≤ t) × PingsBy u servers d) Fine (soonest servers t d)
unfolding soonest
soonest_early servers t [] i = (omega arith, tt)
soonest_early servers t ((k, a) ∷ d) i =
    let first = λ (s : Server). if ltb s.ping_at t then s.ping_at else t in
    Yields-then (λ s. get_elem? servers a ≡ some s) (λ u. (u ≤ t) × PingsBy u servers ((k, a) ∷ d))
      Fine (deref servers a) (λ s. soonest servers (first s) d) (deref-Yields servers a i.0)
      λ s e.
        Yields-mono _ (λ u. (u ≤ t) × PingsBy u servers ((k, a) ∷ d)) Fine
          (soonest servers (first s) d)
          (λ u h. (ground (arith, h.0), ((λ r p. ground (arith, h.0, e, p)), h.1)))
          (soonest_early servers (first s) d i.1)

-- The timer of a consistent agent never runs past the ping of a connected server, the deadline of
-- the waiting request, or an hour.
pub tickless_early :
    (now : ℕ) (g : Agent)
    → IsValid g
    → Yields
        (λ t.
          (t ≤ now + hour)
          × PingsBy t g.servers g.conns
          × ((was_interrupted g.request ≡ true) ⊎ (t ≤ g.expires)))
        Fine
        (tickless now g)
unfolding tickless
tickless_early now g v =
    let cap = now + hour in
    let start = if not (was_interrupted g.request) && ltb g.expires cap then g.expires else cap in
    Yields-mono _ _ Fine (soonest g.servers start g.conns)
      (λ t h. (
        ground (arith, h.0),
        h.1,
        elim (Bool-cases (was_interrupted g.request)) [
          | inl e ↦ inl e
          | inr e ↦ inr (ground (arith, h.0))
        ],
      ))
      (soonest_early g.servers start g.conns v.conns_in)
