-- ===== src/Freelance/Agent.antt =====
-- The client's agent: model-three-complex-and-nasty/flcliagent.hpp. The servers stand in a store and
-- are named by their addresses, since `alive_servers_` and `conn_map_` share them. What the sockets
-- give is an input, and what is sent an output; times are in milliseconds.
pub mod Invariant
pub mod Rounds
pub mod Replies
pub mod Dispatch
pub mod Timer
pub mod Deadline
use zguide_examples.Prelude.{
  ℕ, suc, ◌+◌, ◌%◌, ◌^◌, Bool, true, false, not, ◌&&◌, Option, none, some, List, [], ◌∷◌, ◌++◌,
}
use zguide_examples.Prelude.Tests.{ltb, leb, ◌==◌, if◌then◌else◌}
use zguide_examples.Prelude.Lists.{length, get_elem?, set}
use zguide_examples.Prelude.Bytes.{Bytes, codes, same}
use zguide_examples.Prelude.Dict.{Dict, find?, put}
use zguide_examples.Prelude.Result.{
  Result, ok, fault, assert_failed, dangling, ◌>>=◌, ◌>>◌, assert, take_front, or_fault,
}
use zguide_examples.Zmq.Frames.{Message, was_interrupted}
use zguide_examples.Freelance.Server.{Server, ping_interval, expired, set_alive, heard, next_ping}
use zguide_examples.Freelance.Server
use zguide_examples.Freelance.Sequence.{to_string, stoseq, minus_one}

abbrev pub global_timeout : ℕ
global_timeout = 3000

abbrev pub cmd_connect : Bytes
cmd_connect = codes "CONNECT"

abbrev pub cmd_request : Bytes
cmd_request = codes "REQUEST"

abbrev pub status_ok : Bytes
status_ok = codes "OK"

abbrev pub status_failed : Bytes
status_failed = codes "FAILED"

abbrev pub ping_frame : Bytes
ping_frame = codes "PING"

-- `servers` is the store; `alive` (`alive_servers_`) and `conns` (`conn_map_`) hold addresses in it.
pub record Agent : Type 0 where
  pub expires : ℕ
  pub request : Message
  pub servers : List Server
  pub alive : List ℕ
  pub conns : Dict ℕ
  pub sequence : ℕ  -- unsigned

pub data Action : Type 0 where
  connects : Bytes → Action
  to_router to_pipe : Message → Action

abbrev pub Outcome : Type 0
Outcome = Result (Agent × List Action)

unfoldable pub init : Agent
init = record { expires = 0; request = []; servers = []; alive = []; conns = []; sequence = 0 }

abbrev pub deref : List Server → ℕ → Result Server
deref servers a = or_fault dangling (get_elem? servers a)

-- CONNECT: a new server, known and in the list of those alive, though its flag says that it is not.
unfoldable pub on_connect : ℕ → Message → Agent → Outcome
on_connect now msg g = do
  (endpoint, _) ← take_front msg
  let a = length g.servers
  ok (
    record g {
      servers = g.servers ++ heard now (Server.new now endpoint) ∷ [];
      conns = put endpoint a g.conns;
      alive = g.alive ++ a ∷ [];
    },
    connects endpoint ∷ [],
  )

-- REQUEST: behind a new sequence number, with the time at which it fails.
unfoldable pub on_request : ℕ → Message → Agent → Outcome
on_request now msg g = do
  assert (was_interrupted g.request)
  let sequence = (g.sequence + 1) % 2 ^ 32
  ok (
    record g {
      sequence = sequence;
      request = to_string sequence ∷ msg;
      expires = now + global_timeout;
    },
    [],
  )

unfoldable pub on_control_message : ℕ → Message → Agent → Outcome
on_control_message now msg g = do
  (command, rest) ← take_front msg
  if same command cmd_connect
      then on_connect now rest g
      else if same command cmd_request
      then on_request now rest g
      else ok (g, [])

-- A server that has been heard of: back among those alive if its flag says that it was not.
unfoldable pub revive : ℕ → ℕ → Server → Agent → Agent
revive now a s g = record g {
  servers = set g.servers a (heard now (if s.alive then s else set_alive true s));
  alive = if s.alive then g.alive else g.alive ++ a ∷ [];
}

-- `conn_map_[endpoint]` behind `assert(conn_map_.count(endpoint))`.
abbrev pub at_endpoint : Bytes → Dict ℕ → Result ℕ
at_endpoint k m = or_fault assert_failed (find? k m)

-- The frames behind the identity. A number that is not the present one is passed over.
unfoldable pub on_reply : Message → Agent → Outcome
on_reply reply g = do
  (sequence, rest) ← take_front reply
  let seq_no = stoseq sequence
  if not (seq_no == minus_one) && not (seq_no == g.sequence)
      then ok (g, [])
      else ok (record g { request = [] }, to_pipe (status_ok ∷ rest) ∷ [])

unfoldable pub on_router_message : ℕ → Message → Agent → Outcome
on_router_message now msg g = do
  (endpoint, reply) ← take_front msg
  a ← at_endpoint endpoint g.conns
  s ← deref g.servers a
  on_reply reply (revive now a s g)

-- The loop over `alive_servers_`: the servers at the front that have expired are dropped, and the
-- first that has not gets the request, behind its endpoint, which stays in front of the request.
unfoldable pub send_to_first : (ℕ → ℕ) → ℕ → List ℕ → Agent → Outcome
send_to_first clock i [] g = ok (record g { alive = [] }, [])
send_to_first clock i (a ∷ rest) g = do
  s ← deref g.servers a
  let request = s.endpoint ∷ g.request
  let further =
      send_to_first clock (suc i) rest (record g { servers = set g.servers a (set_alive false s) })
  if expired (clock i) s
      then further
      else ok (record g { alive = a ∷ rest; request = request }, to_router request ∷ [])

-- The part of the round that deals with a request, if there is one.
unfoldable pub dispatch : ℕ → (ℕ → ℕ) → Agent → Outcome
dispatch now clock g =
    if was_interrupted g.request
    then ok (g, [])
    else if leb g.expires now
    then ok (record g { request = [] }, to_pipe (status_failed ∷ []) ∷ [])
    else send_to_first clock 0 g.alive g

-- `ping`, with one reading of the clock for its test and for the next ping.
unfoldable pub ping : ℕ → ℕ → Server → Agent → Agent × List Action
ping now a s g = if ltb now s.ping_at then (g, []) else (
  record g { servers = set g.servers a (next_ping now ping_interval s) },
  to_router (s.endpoint ∷ ping_frame ∷ []) ∷ [],
)

-- The loop over `conn_map_`, in the order of the table.
unfoldable pub ping_all : (ℕ → ℕ) → ℕ → Dict ℕ → Agent → Outcome
ping_all clock i [] g = ok (g, [])
ping_all clock i ((_, a) ∷ rest) g = do
  s ← deref g.servers a
  let (g₁, pinged) = ping (clock i) a s g
  (g₂, later) ← ping_all clock (suc i) rest g₁
  ok (g₂, pinged ++ later)

pub record Input : Type 0 where
  pub control : Option Message
  pub router : Option Message
  pub control_at : ℕ
  pub router_at : ℕ
  pub checked_at : ℕ
  pub tried_at : ℕ → ℕ
  pub pinged_at : ℕ → ℕ

abbrev pub polled : (Message → Agent → Outcome) → Option Message → Agent → Outcome
polled handler none g = ok (g, [])
polled handler (some msg) g = handler msg g

-- One round of `agent_task`.
unfoldable pub step : Input → Agent → Outcome
step i g = do
  (g₁, a₁) ← polled (on_control_message i.control_at) i.control g
  (g₂, a₂) ← polled (on_router_message i.router_at) i.router g₁
  (g₃, a₃) ← dispatch i.checked_at i.tried_at g₂
  (g₄, a₄) ← ping_all i.pinged_at 0 g₃.conns g₃
  ok (g₄, a₁ ++ a₂ ++ a₃ ++ a₄)
