-- ===== src/Freelance/Agent/Invariant.antt =====
-- flcliagent.hpp: every pointer of the agent is to a server of its store.
use zguide_examples.Prelude.{
  ℕ, zero, suc, ◌<◌, ◌≤◌, ◌≡◌, inl, inr, refl, true, not, ◌&&◌, some, List, [], ◌∷◌, arith,
}
use zguide_examples.Prelude.Tests.{◌==◌, Bool-cases, Option-cases}
use zguide_examples.Prelude.Lists.{
  length, get_elem?, set, length-append, length-set, All, All-append, All-map,
}
use zguide_examples.Prelude.Bytes.{Bytes, same}
use zguide_examples.Prelude.Dict.{Dict, find?, put}
use zguide_examples.Prelude.Result.{Result, ◌>>=◌, Fault, dangling, Yields, Yields-then}
use zguide_examples.Zmq.Frames.{Message, was_interrupted}
use zguide_examples.Freelance.Server.{Server, expired, set_alive, heard, next_ping}
use zguide_examples.Freelance.Server
use zguide_examples.Freelance.Agent.{
  Agent, Outcome, init, deref, at_endpoint, on_connect, on_request, on_control_message, revive,
  on_reply, on_router_message, cmd_connect, cmd_request,
}
use zguide_examples.Freelance.Sequence.{stoseq, minus_one}

-- Every address of the list is in a store of `n` servers.
abbrev pub Inside : ℕ → List ℕ → Type 0
Inside n = All (λ a. a < n)

abbrev pub InsideConns : ℕ → Dict ℕ → Type 0
InsideConns n = All (λ p. p.1 < n)

pub record IsValid (g : Agent) : Type 0 where
  pub alive_in : Inside (length g.servers) g.alive
  pub conns_in : InsideConns (length g.servers) g.conns

-- No fault is that of a pointer to nothing.
abbrev pub Fine : Fault → Type 0
Fine dangling = ⊥
Fine _ = Unit

abbrev pub Sound : Outcome → Type 0
Sound = Yields (λ r. IsValid r.0) Fine

pub Sound-then :
    {A : Type 0} (P : A → Type 0) (m : Result A) (f : A → Outcome)
    → Yields P Fine m
    → ((a : A) → P a → Sound (f a))
    → Sound (m >>= f)
Sound-then P m f = Yields-then P (λ r. IsValid r.0) Fine m f

pub init-IsValid : IsValid init
unfolding init
init-IsValid = record { alive_in = tt; conns_in = tt }

pub Inside-mono : {m n : ℕ} (xs : List ℕ) → m ≤ n → Inside m xs → Inside n xs
Inside-mono xs h = All-map _ _ xs (λ a k. omega arith)

pub InsideConns-mono : {m n : ℕ} (d : Dict ℕ) → m ≤ n → InsideConns m d → InsideConns n d
InsideConns-mono d h = All-map _ _ d (λ a k. omega arith)

put-InsideConns :
    (n a : ℕ) (k : Bytes) (d : Dict ℕ) → a < n → InsideConns n d → InsideConns n (put k a d)
unfolding put
put-InsideConns n a k [] h i = (h, tt)
put-InsideConns n a k ((j, b) ∷ d) h i = elim (Bool-cases (same j k)) [
  | inl e ↦ rw e (h, i.1)
  | inr e ↦ rw e (i.0, put-InsideConns n a k d h i.1)
]

find?-InsideConns :
    (n a : ℕ) (k : Bytes) (d : Dict ℕ) → InsideConns n d → find? k d ≡ some a → a < n
unfolding find?
find?-InsideConns n a k [] i e = absurd (cc)
find?-InsideConns n a k ((j, b) ∷ d) i e = elim (Bool-cases (same j k)) [
  | inl h ↦ ground arith
  | inr h ↦ find?-InsideConns n a k d i.1 (ground arith)
]

-- A change of one server in place keeps all pointers good.
pub write-IsValid :
    (g : Agent) (a : ℕ) (s : Server)
    → IsValid g
    → IsValid (record g { servers = set g.servers a s })
write-IsValid g a s v = rw-all (length-set g.servers a s)
  where
    rw-all :
        length (set g.servers a s) ≡ length g.servers
        → IsValid (record g { servers = set g.servers a s })
    rw-all e = record {
      alive_in = Inside-mono g.alive (omega arith) v.alive_in;
      conns_in = InsideConns-mono g.conns (omega arith) v.conns_in;
    }

on_connect-IsValid :
    (now : ℕ) (msg : Message) (g : Agent) → IsValid g → Sound (on_connect now msg g)
unfolding on_connect
on_connect-IsValid now [] g v = tt
on_connect-IsValid now (e ∷ msg) g v =
    let longer = length-append g.servers (heard now (Server.new now e) ∷ []) in
    record {
      alive_in =
          All-append _ g.alive (length g.servers ∷ [])
            (Inside-mono g.alive (omega (arith, longer)) v.alive_in) (omega (arith, longer), tt);
      conns_in =
          put-InsideConns _ _ e g.conns (omega (arith, longer))
            (InsideConns-mono g.conns (omega (arith, longer)) v.conns_in);
    }

on_request-IsValid :
    (now : ℕ) (msg : Message) (g : Agent) → IsValid g → Sound (on_request now msg g)
unfolding on_request
on_request-IsValid now msg g v = elim (Bool-cases (was_interrupted g.request)) [
  | inl e ↦ rw e (record { alive_in = v.alive_in; conns_in = v.conns_in })
  | inr e ↦ rw e tt
]

pub on_control_message-IsValid :
    (now : ℕ) (msg : Message) (g : Agent) → IsValid g → Sound (on_control_message now msg g)
unfolding on_control_message
on_control_message-IsValid now [] g v = tt
on_control_message-IsValid now (c ∷ rest) g v = elim (Bool-cases (same c cmd_connect)) [
  | inl e ↦ rw e (on_connect-IsValid now rest g v)
  | inr e ↦ rw e (elim (Bool-cases (same c cmd_request)) [
    | inl h ↦ rw h (on_request-IsValid now rest g v)
    | inr h ↦ rw h v
  ])
]

get_elem?-inside {ℓ} :
    {A : Type ℓ} (xs : List A) (i : ℕ) → i < length xs → (x : A) × (get_elem? xs i ≡ some x)
get_elem?-inside [] i h = absurd (omega arith)
get_elem?-inside (x ∷ xs) zero h = (x, refl)
get_elem?-inside (x ∷ xs) (suc i) h = get_elem?-inside xs i (omega arith)

-- A pointer that is inside the store can be followed.
pub deref-Yields :
    (servers : List Server) (a : ℕ)
    → a < length servers
    → Yields (λ s. get_elem? servers a ≡ some s) Fine (deref servers a)
deref-Yields servers a h = let (s, e) = get_elem?-inside servers a h in rw e refl

revive-IsValid :
    (now a : ℕ) (s : Server) (g : Agent)
    → a < length g.servers
    → IsValid g
    → IsValid (revive now a s g)
unfolding revive set_alive
revive-IsValid now a s g h v = elim (Bool-cases s.alive) [
  | inl e ↦ rw e (write-IsValid g a _ v)
  | inr e ↦
      let w = write-IsValid g a (heard now (set_alive true s)) v in
      rw e (record {
        alive_in =
            All-append _ g.alive (a ∷ []) w.alive_in
              (omega (arith, length-set g.servers a (heard now (set_alive true s))), tt);
        conns_in = w.conns_in;
      })
]

on_reply-IsValid : (reply : Message) (g : Agent) → IsValid g → Sound (on_reply reply g)
unfolding on_reply
on_reply-IsValid [] g v = tt
on_reply-IsValid (sequence ∷ rest) g v =
    elim (Bool-cases (not (stoseq sequence == minus_one) && not (stoseq sequence == g.sequence))) [
      | inl e ↦ rw e v
      | inr e ↦ rw e (record { alive_in = v.alive_in; conns_in = v.conns_in })
    ]

at_endpoint-Yields :
    (n : ℕ) (k : Bytes) (d : Dict ℕ) → InsideConns n d → Yields (λ a. a < n) Fine (at_endpoint k d)
at_endpoint-Yields n k d i = elim (Option-cases (find? k d)) [
  | inl e ↦ rw e tt
  | inr (a, e) ↦ rw e (find?-InsideConns n a k d i e)
]

pub on_router_message-IsValid :
    (now : ℕ) (msg : Message) (g : Agent) → IsValid g → Sound (on_router_message now msg g)
unfolding on_router_message
on_router_message-IsValid now [] g v = tt
on_router_message-IsValid now (endpoint ∷ reply) g v =
    Sound-then (λ a. a < length g.servers) (at_endpoint endpoint g.conns) _
      (at_endpoint-Yields (length g.servers) endpoint g.conns v.conns_in)
      λ a h.
        Sound-then _ (deref g.servers a) _ (deref-Yields g.servers a h)
          λ s _. on_reply-IsValid reply (revive now a s g) (revive-IsValid now a s g h v)
