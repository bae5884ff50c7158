-- ===== src/Freelance/Exchange.antt =====
-- The parts of model three together: a client's request, its server and the agent's answer.
use zguide_examples.Prelude.{ℕ, ◌^◌, ◌<◌, ◌≡◌, ◌≢◌, refl, inl, inr, ◌∙◌, false, [], ◌∷◌, arith}
use zguide_examples.Prelude.Tests.{==_iff, Bool-cases}
use zguide_examples.Prelude.Bytes.{Bytes, same, same_iff, codes}
use zguide_examples.Prelude.Result.{Result, ok, ◌>>=◌}
use zguide_examples.Zmq.Frames.{Message}
use zguide_examples.Freelance.Server.{Server}
use zguide_examples.Freelance.Sequence.{to_string, is_digit, is_space}
use zguide_examples.Freelance.Sequence.RoundTrip.{to_string-digit}
use zguide_examples.Freelance.Agent.{
  Agent, to_pipe, status_ok, ping_frame, revive, on_router_message,
}
use zguide_examples.Freelance.Agent.Replies.{Known, numbered_reply, on_router_message_word}
use zguide_examples.Freelance.Api.{request_result}
use zguide_examples.Freelance.Service.{respond}

-- How a ROUTER socket carries a message from the agent to a server and back: the first frame names
-- the receiver, and is taken off; the name of the sender is put in front.
abbrev pub carried : Bytes → Message → Message
carried from [] = []
carried from (to ∷ frames) = from ∷ frames

-- The server's reply to a message of the agent, as it comes back to the agent.
abbrev pub answered : Bytes → Bytes → Message → Result Message
answered agent endpoint sent = do reply ← respond (carried agent sent); ok (carried endpoint reply)

number_not_ping : (n : ℕ) → same (to_string n) ping_frame ≡ false
number_not_ping n = elim (Bool-cases (same (to_string n) ping_frame)) [
  | inl e ↦
      let (c, s, d, low, high) = to_string-digit n in
      absurd (ground (arith, (same_iff (to_string n) ping_frame).0 e, d, high))
  | inr e ↦ e
]

-- A request of a number below 2 ^ 31 that is sent once to a known server, behind the endpoint, its
-- number and its content, is answered with OK: the agent passes the OK of the server on, and the
-- caller of `request` gets it.
pub request_answered :
    (now : ℕ) (agent endpoint content : Bytes) (g : Agent) (a : ℕ) (s : Server)
    → Known endpoint g a s
    → g.sequence < 2 ^ 31
    → (g' : Agent) × (answer : Message) × ((do
      reply ← answered agent endpoint (endpoint ∷ to_string g.sequence ∷ content ∷ [])
      on_router_message now reply g)
        ≡ ok (g', to_pipe answer ∷ []))
      × (g'.request ≡ [])
      × (request_result answer ≡ status_ok ∷ [])
unfolding respond request_result same
request_answered now agent endpoint content g a s k h = (
  record (revive now a s g) { request = [] },
  status_ok ∷ status_ok ∷ [],
  rw (number_not_ping g.sequence) (
      numbered_reply now g.sequence endpoint (status_ok ∷ []) g a s k h
      ∙ rw ((==_iff g.sequence g.sequence).1 refl)),
  refl,
  refl,
)

-- When the request has been sent again, with its endpoint twice in front, the server takes the
-- endpoint for the control frame. Where that begins as `tcp://` does, its answer ends the request
-- of the agent with OK whatever numbers the two stand at.
pub resent_answered :
    (now c : ℕ) (agent word number content : Bytes) (g : Agent) (a : ℕ) (s : Server)
    → Known (c ∷ word) g a s
    → same (c ∷ word) ping_frame ≡ false
    → is_digit c ≡ false
    → is_space c ≡ false
    → c ≢ 0
    → c ≢ 43
    → c ≢ 45
    → (do
      reply ← answered agent (c ∷ word) ((c ∷ word) ∷ (c ∷ word) ∷ number ∷ content ∷ [])
      on_router_message now reply g)
      ≡ ok (record (revive now a s g) { request = [] }, to_pipe (status_ok ∷ status_ok ∷ []) ∷ [])
unfolding respond
resent_answered now c agent word number content g a s k q d w z p m =
    rw q (on_router_message_word now c word (c ∷ word) (status_ok ∷ []) g a s k d w z p m)

-- The answer of a known server to a ping ends the request that waits, and the caller of `request`
-- gets an empty reply, as it does for a failure.
pub pong_answered :
    (now : ℕ) (agent endpoint : Bytes) (g : Agent) (a : ℕ) (s : Server)
    → Known endpoint g a s
    → (g' : Agent) × (answer : Message) × ((do
      reply ← answered agent endpoint (endpoint ∷ ping_frame ∷ [])
      on_router_message now reply g)
        ≡ ok (g', to_pipe answer ∷ []))
      × (g'.request ≡ [])
      × (request_result answer ≡ [])
unfolding respond request_result same
pong_answered now agent endpoint g a s k = (
  record (revive now a s g) { request = [] },
  status_ok ∷ [],
  on_router_message_word now b'P' (codes "ONG") endpoint [] g a s k refl refl (omega arith)
      (omega arith) (omega arith),
  refl,
  refl,
)
