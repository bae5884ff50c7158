-- ===== src/Freelance/Agent/Replies.antt =====
-- flcliagent.hpp: what the agent makes of a reply (`on_router_message`).
use zguide_examples.Prelude.{
  ℕ, ◌^◌, ◌<◌, ◌≡◌, ◌≢◌, refl, ap, ◌∙◌, inl, inr, true, false, ◌+◌, some, List, [], ◌∷◌, ◌++◌,
  arith, append_assoc,
}
use zguide_examples.Prelude.Tests.{◌==◌, if◌then◌else◌, Bool-cases}
use zguide_examples.Prelude.Lists.{length, get_elem?, set}
use zguide_examples.Prelude.Bytes.{Bytes, same_refl}
use zguide_examples.Prelude.Dict.{find?, put, find?-put}
use zguide_examples.Prelude.Result.{ok, ◌>>=◌}
use zguide_examples.Zmq.Frames.{Message}
use zguide_examples.Freelance.Server.{Server, ttl, heard, set_alive, next_ping}
use zguide_examples.Freelance.Server
use zguide_examples.Freelance.Sequence.{to_string, minus_one, is_digit, is_space}
use zguide_examples.Freelance.Sequence.RoundTrip.{stoseq-to_string, stoseq_word}
use zguide_examples.Freelance.Agent.{
  Agent, Action, to_pipe, status_ok, on_connect, revive, on_reply, on_router_message,
}

-- The server that a message of the router comes from.
pub record Known (endpoint : Bytes) (g : Agent) (a : ℕ) (s : Server) : Type 0 where
  pub address : find? endpoint g.conns ≡ some a
  pub server : get_elem? g.servers a ≡ some s

from_Known :
    (now : ℕ) (endpoint : Bytes) (reply : Message) (g : Agent) (a : ℕ) (s : Server)
    → Known endpoint g a s
    → on_router_message now (endpoint ∷ reply) g ≡ on_reply reply (revive now a s g)
unfolding on_router_message
from_Known now endpoint reply g a s k = ground (arith, k.address, k.server)

on_reply_number :
    (n : ℕ) (rest : Message) (g : Agent)
    → n < 2 ^ 31
    → on_reply (to_string n ∷ rest) g ≡ (
        if n == g.sequence
        then ok (record g { request = [] }, to_pipe (status_ok ∷ rest) ∷ [])
        else ok (g, []))
unfolding on_reply
on_reply_number n rest g h =
    let number : (n == minus_one) ≡ false = ground arith in
    rw ((stoseq-to_string n h).0)
      (rw number (elim (Bool-cases (n == g.sequence)) [ inl e ↦ rw e | inr e ↦ rw e ]))

pub numbered_reply :
    (now n : ℕ) (endpoint : Bytes) (rest : Message) (g : Agent) (a : ℕ) (s : Server)
    → Known endpoint g a s
    → n < 2 ^ 31
    → on_router_message now (endpoint ∷ to_string n ∷ rest) g ≡ (
        if n == g.sequence
        then ok (record (revive now a s g) { request = [] }, to_pipe (status_ok ∷ rest) ∷ [])
        else ok (revive now a s g, []))
unfolding revive
numbered_reply now n endpoint rest g a s k h =
    from_Known now endpoint (to_string n ∷ rest) g a s k
    ∙ on_reply_number n rest (revive now a s g) h

-- A server that has been heard of: alive, with its next ping in two seconds and its deadline in six.
abbrev pub alive_from : ℕ → Server → Server
alive_from now s = record {
  endpoint = s.endpoint;
  alive = true;
  ping_at = now + 2000;
  expires = now + 6000;
}

-- The server at an address is such a one, and in the list of the live ones, at the end if it was not.
abbrev pub with_alive : ℕ → ℕ → Server → Agent → Agent
with_alive now a s g = record g {
  servers = set g.servers a (alive_from now s);
  alive = if s.alive then g.alive else g.alive ++ a ∷ [];
}

revive-with_alive : (now a : ℕ) (s : Server) (g : Agent) → revive now a s g ≡ with_alive now a s g
unfolding revive heard ttl next_ping set_alive
revive-with_alive now a s g = elim (Bool-cases s.alive) [ inl e ↦ rw e refl | inr e ↦ rw e refl ]

-- A reply of a known server with a sequence number below 2 ^ 31 ends the request, and is passed on
-- behind OK, if the number is the present one; else nothing is passed on and the request stays. In
-- both cases the server is alive, has its next ping in two seconds and its deadline in six, and is
-- put at the end of the list of the live ones if its flag said that it was not.
pub on_router_message_number :
    (now n : ℕ) (endpoint : Bytes) (rest : Message) (g : Agent) (a : ℕ) (s : Server)
    → Known endpoint g a s
    → n < 2 ^ 31
    → on_router_message now (endpoint ∷ to_string n ∷ rest) g ≡ (
        if n == g.sequence
        then ok (record (with_alive now a s g) { request = [] }, to_pipe (status_ok ∷ rest) ∷ [])
        else ok (with_alive now a s g, []))
on_router_message_number now n endpoint rest g a s k h =
    numbered_reply now n endpoint rest g a s k h
    ∙ ap
        (λ (r : Agent).
          if n == g.sequence
          then ok (record r { request = [] }, to_pipe (status_ok ∷ rest) ∷ [])
          else ok (r, []))
        (revive-with_alive now a s g)

-- A reply of a known server whose first frame begins with neither a digit, a sign, a space nor a
-- zero byte, as PONG does, ends the request too, whichever it is, and its other frames are passed
-- on behind OK.
pub on_router_message_word :
    (now c : ℕ) (word endpoint : Bytes) (rest : Message) (g : Agent) (a : ℕ) (s : Server)
    → Known endpoint g a s
    → is_digit c ≡ false
    → is_space c ≡ false
    → c ≢ 0
    → c ≢ 43
    → c ≢ 45
    → on_router_message now (endpoint ∷ (c ∷ word) ∷ rest) g
      ≡ ok (record (revive now a s g) { request = [] }, to_pipe (status_ok ∷ rest) ∷ [])
unfolding on_reply
on_router_message_word now c word endpoint rest g a s k d w z p m =
    from_Known now endpoint ((c ∷ word) ∷ rest) g a s k ∙ rw (stoseq_word c word d w z p m)

get_elem?-last {ℓ} :
    {A : Type ℓ} (xs : List A) (x : A) → get_elem? (xs ++ x ∷ []) (length xs) ≡ some x
get_elem?-last [] x = refl
get_elem?-last (y ∷ xs) x = get_elem?-last xs x

connected : ℕ → Bytes → Agent → Agent
connected now endpoint g = record g {
  servers = g.servers ++ heard now (Server.new now endpoint) ∷ [];
  conns = put endpoint (length g.servers) g.conns;
  alive = g.alive ++ length g.servers ∷ [];
}

connected-Known :
    (now : ℕ) (endpoint : Bytes) (g : Agent)
    → Known endpoint
        (connected now endpoint g)
        (length g.servers)
        (heard now (Server.new now endpoint))
unfolding connected
connected-Known now endpoint g = record {
  address = find?-put endpoint endpoint (length g.servers) g.conns ∙ rw (same_refl endpoint);
  server = get_elem?-last g.servers (heard now (Server.new now endpoint));
}

-- A server that has just been connected stands in the list of the live ones, and its first answer,
-- whatever its number below 2 ^ 31, enters it there a second time.
pub connected_twice :
    (now later n : ℕ) (endpoint : Bytes) (rest : Message) (g : Agent)
    → n < 2 ^ 31
    → (r : Agent × List Action) × ((do
      (g₁, _) ← on_connect now (endpoint ∷ []) g
      on_router_message later (endpoint ∷ to_string n ∷ rest) g₁)
        ≡ ok r)
      × (r.0.alive ≡ g.alive ++ length g.servers ∷ length g.servers ∷ [])
unfolding on_connect connected revive heard Server.new
connected_twice now later n endpoint rest g h =
    let g₁ = connected now endpoint g in
    let s = heard now (Server.new now endpoint) in
    let a = length g.servers in
    let e = numbered_reply later n endpoint rest g₁ a s (connected-Known now endpoint g) h in
    elim (Bool-cases (n == g.sequence)) [
      | inl p ↦ (
        (record (revive later a s g₁) { request = [] }, to_pipe (status_ok ∷ rest) ∷ []),
        e ∙ rw p,
        append_assoc g.alive (a ∷ []) (a ∷ []),
      )
      | inr p ↦ ((revive later a s g₁, []), e ∙ rw p, append_assoc g.alive (a ∷ []) (a ∷ []))
    ]
