-- ===== src/Freelance/Agent/Dispatch.antt =====
-- flcliagent.hpp: which server gets the request of a round, and what becomes of a request that
-- waits.
use zguide_examples.Prelude.{
  ℕ, zero, suc, ◌<◌, ◌≤◌, ◌≡◌, refl, Bool, true, false, Option, none, some, List, [], ◌∷◌, ◌++◌,
  arith,
}
use zguide_examples.Prelude.Lists.{get_elem?, set, All}
use zguide_examples.Prelude.Bytes.{Bytes}
use zguide_examples.Prelude.Result.{ok, ◌>>=◌}
use zguide_examples.Zmq.Frames.{Message, was_interrupted}
use zguide_examples.Freelance.Server.{Server, expired, set_alive}
use zguide_examples.Freelance.Agent.{
  Agent, Action, to_router, to_pipe, status_failed, send_to_first, dispatch,
}

-- The pointer is to a server whose deadline has passed at `now`, or has not.
abbrev pub Stands : Bool → ℕ → List Server → ℕ → Type 0
Stands dead now servers a = (s : Server) × (get_elem? servers a ≡ some s) × (expired now s ≡ dead)

abbrev lower : ℕ → List Server → Option Server → List Server
lower a servers (some s) = set servers a (set_alive false s)
lower a servers none = servers

-- The servers, with the flags of some of them put down.
unfoldable pub bury : List ℕ → List Server → List Server
bury [] servers = servers
bury (a ∷ dead) servers = bury dead (lower a servers (get_elem? servers a))

-- A flag put down changes no deadline and no endpoint.
Stands-set :
    (servers : List Server) (a b now : ℕ) (s : Server) (dead : Bool)
    → get_elem? servers a ≡ some s
    → Stands dead now servers b
    → (t : Server) × (get_elem? (set servers a (set_alive false s)) b ≡ some t)
      × (expired now t ≡ dead)
unfolding set_alive expired
Stands-set [] a b now s dead e h = absurd (cc)
Stands-set (x ∷ servers) zero zero now s dead e (t, p, q) = (set_alive false s, refl, ground arith)
Stands-set (x ∷ servers) zero (suc b) now s dead e (t, p, q) = (t, p, q)
Stands-set (x ∷ servers) (suc a) zero now s dead e (t, p, q) = (t, p, q)
Stands-set (x ∷ servers) (suc a) (suc b) now s dead e h = Stands-set servers a b now s dead e h

All-Stands-set :
    (servers : List Server) (a now : ℕ) (s : Server) (dead : Bool) (bs : List ℕ)
    → get_elem? servers a ≡ some s
    → All (Stands dead now servers) bs
    → All (Stands dead now (set servers a (set_alive false s))) bs
All-Stands-set servers a now s dead [] e h = tt
All-Stands-set servers a now s dead (b ∷ bs) e h =
    (Stands-set servers a b now s dead e h.0, All-Stands-set servers a now s dead bs e h.1)

-- With the clock at rest, the dispatch takes the first live server that has not expired: it gets the
-- request behind its endpoint, the request keeps that endpoint in front, and those before it leave
-- the list, their flags put down.
pub send_to_first_live :
    (now i : ℕ) (dead : List ℕ) (a : ℕ) (rest : List ℕ) (g : Agent) (s : Server)
    → All (Stands true now g.servers) dead
    → get_elem? (bury dead g.servers) a ≡ some s
    → expired now s ≡ false
    → send_to_first (λ _. now) i (dead ++ a ∷ rest) g
      ≡ ok (
        record g {
          servers = bury dead g.servers;
          alive = a ∷ rest;
          request = s.endpoint ∷ g.request;
        },
        to_router (s.endpoint ∷ g.request) ∷ [],
      )
unfolding send_to_first bury
send_to_first_live now i [] a rest g s d e h = rw e (rw h)
send_to_first_live now i (b ∷ dead) a rest g s ((t, p, q), d) e h = rw p (
    rw q (
      send_to_first_live now (suc i) dead a rest
        (record g { servers = set g.servers b (set_alive false t) }) s
        (All-Stands-set g.servers b now t true dead p d) (rw p at e) h))

-- If all of them have expired the list is empty, their flags are down, nothing is sent, and the
-- request waits.
pub send_to_first_none :
    (now i : ℕ) (dead : List ℕ) (g : Agent)
    → All (Stands true now g.servers) dead
    → send_to_first (λ _. now) i dead g
      ≡ ok (record g { servers = bury dead g.servers; alive = [] }, [])
unfolding send_to_first bury
send_to_first_none now i [] g d = refl
send_to_first_none now i (b ∷ dead) g ((t, p, q), d) = rw p (
    rw q (
      send_to_first_none now (suc i) dead
        (record g { servers = set g.servers b (set_alive false t) })
        (All-Stands-set g.servers b now t true dead p d)))

-- A request that is still waiting in the next round, before its time and that of the server are
-- over and with the same server first among the live ones, is sent to it again, with one more
-- endpoint in front each time.
pub dispatch_twice :
    (now later a : ℕ) (rest : List ℕ) (f : Bytes) (fs : Message) (g : Agent) (s : Server)
    → g.request ≡ f ∷ fs
    → g.alive ≡ a ∷ rest
    → get_elem? g.servers a ≡ some s
    → now ≤ later
    → later < g.expires
    → later < s.expires
    → (r : Agent × List Action) × ((do
      (g₁, sent) ← dispatch now (λ _. now) g
      (g₂, resent) ← dispatch later (λ _. later) g₁
      ok (g₂, sent ++ resent))
        ≡ ok r)
      × (r.1 ≡ to_router (s.endpoint ∷ f ∷ fs) ∷ to_router (s.endpoint ∷ s.endpoint ∷ f ∷ fs) ∷ [])
      × (r.0.request ≡ s.endpoint ∷ s.endpoint ∷ f ∷ fs)
unfolding dispatch send_to_first expired was_interrupted
dispatch_twice now later a rest f fs g s er ea es h k m = (
  (
    record g { request = s.endpoint ∷ s.endpoint ∷ f ∷ fs },
    to_router (s.endpoint ∷ f ∷ fs) ∷ to_router (s.endpoint ∷ s.endpoint ∷ f ∷ fs) ∷ [],
  ),
  ground arith,
  refl,
  refl,
)

-- A request whose time has come fails, whatever the servers: the client gets FAILED, once.
pub dispatch_expired :
    (now : ℕ) (clock : ℕ → ℕ) (f : Bytes) (fs : Message) (g : Agent)
    → g.request ≡ f ∷ fs
    → g.expires ≤ now
    → (dispatch now clock g ≡ ok (record g { request = [] }, to_pipe (status_failed ∷ []) ∷ []))
      × (dispatch now clock (record g { request = [] }) ≡ ok (record g { request = [] }, []))
unfolding dispatch was_interrupted
dispatch_expired now clock f fs g e h = (ground arith, refl)
