-- ===== src/LazyPirate.antt =====
-- The Lazy Pirate pattern: client-side-reliability/lpclient.cpp and lpserver.cpp. The client is a
-- machine that reacts to what a round of its inner loop finds; between two reactions it waits in
-- `poll`. Its numbers are an `int`, which is taken to stay below 2 ^ 31.
pub mod Retries
pub mod Delivery
use zguide_examples.Prelude.{ℕ, ◌+◌, ◌-◌, Bool, Option, none, some, List, [], ◌∷◌, ◌++◌, ◌&&◌}
use zguide_examples.Prelude.Tests.{ltb, ◌==◌, if◌then◌else◌}
use zguide_examples.Prelude.Bytes.{Bytes, same}
use zguide_examples.Prelude.Result.{Result, ok, stop}
use zguide_examples.Freelance.Sequence.{to_string}

abbrev pub retries_allowed : ℕ
retries_allowed = 3

pub record State : Type 0 where
  pub sequence : ℕ
  pub retries_left : ℕ

-- A reply, a `recv` that fails, or nothing in the time that the client waits.
pub data Event : Type 0 where
  replied : Bytes → Event
  failed timed_out : Event

-- `opens` is a new socket, in place of the old one if there is one, `accepts` the report of a good reply.
pub data Action : Type 0 where
  sends accepts : Bytes → Action
  opens : Action

-- Waiting for the reply to a request, or behind both loops.
pub data Client : Type 0 where
  waits : State → Client
  finished : Client

abbrev pub make_socket : List Action
make_socket = opens ∷ []

-- The head of the outer loop.
unfoldable pub next_request : State → Client × List Action
next_request s =
    if s.retries_left == 0
    then (finished, [])
    else (waits (record s { sequence = s.sequence + 1 }), sends (to_string (s.sequence + 1)) ∷ [])

-- The inner loop.
unfoldable pub react : Event → State → Client × List Action
unfolding next_request
react (replied reply) s =
    let (c, sent) = next_request (record s { retries_left = retries_allowed }) in
    if same reply (to_string s.sequence) then (c, accepts reply ∷ sent) else (waits s, [])
react failed s = next_request s
react timed_out s = if s.retries_left - 1 == 0 then (finished, []) else (
  waits (record s { retries_left = s.retries_left - 1 }),
  make_socket ++ sends (to_string s.sequence) ∷ [],
)

unfoldable pub run : List Event → Client → Client × List Action
run [] c = (c, [])
run (e ∷ es) finished = (finished, [])
run (e ∷ es) (waits s) =
    let (c, done) = react e s in let (c', later) = run es c in (c', done ++ later)

unfoldable pub start : Client × List Action
unfolding next_request
start =
    let (c, sent) = next_request (record { sequence = 0; retries_left = retries_allowed }) in
    (c, make_socket ++ sent)

-- The server may crash or be slow, and then sends the request back.
pub data ServerAction : Type 0 where
  sleeps : ℕ → ServerAction
  replies : Bytes → ServerAction

unfoldable pub serve : ℕ → ℕ → Bytes → ℕ → Result (ℕ × List ServerAction)
serve crash_draw slow_draw request cycles =
    let cycles' = cycles + 1 in
    if ltb 3 cycles' && crash_draw == 0
    then stop
    else ok (
      cycles',
      (if ltb 3 cycles' && slow_draw == 0 then sleeps 2 ∷ [] else [])
          ++ sleeps 1 ∷ replies request ∷ [],
    )
