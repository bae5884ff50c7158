-- ===== src/Tests/Freelance.antt =====
-- The Freelance models at concrete inputs.
use zguide_examples.Prelude.{ℕ, ◌≡◌, refl, Option, none, some, [], ◌∷◌, arith, true, false}
use zguide_examples.Prelude.Tests.{◌==◌, if◌then◌else◌}
use zguide_examples.Prelude.Bytes.{Bytes, codes, same}
use zguide_examples.Prelude.Dict.{find?}
use zguide_examples.Prelude.Result.{ok, ◌>>=◌}
use zguide_examples.Zmq.Frames.{Message}
use zguide_examples.Freelance.Server.{Server, expired, set_alive}
use zguide_examples.Freelance.Sequence.{to_string, stoseq, stoi}
use zguide_examples.Freelance.Sequence.RoundTrip.{stoseq-to_string}
use zguide_examples.Freelance.Agent.{
  Agent, Input, on_router_message, send_to_first, step, to_pipe, to_router, status_ok, ping_frame,
}
use zguide_examples.Freelance.Agent.Invariant.{IsValid, Sound}
use zguide_examples.Freelance.Agent.Rounds.{step-Sound}
use zguide_examples.Freelance.Agent.Replies.{Known, on_router_message_number}
use zguide_examples.Freelance.Agent.Dispatch.{bury, send_to_first_live}
use zguide_examples.Freelance.Exchange.{answered, request_answered, pong_answered}
use zguide_examples.Freelance.Api.{request_result}
use zguide_examples.Freelance.Shotgun
use zguide_examples.Freelance.Shotgun.{quiet, got}
use zguide_examples.Freelance.Shotgun.Rounds.{numbered, request-stale}

abbrev endpoint : Bytes
endpoint = codes "tcp://a"

abbrev ann : Server
ann = record { endpoint = endpoint; alive = true; ping_at = 2000; expires = 6000 }

-- An agent that has one server, which is alive, and request 7 to send.
abbrev busy : Agent
busy = record {
  expires = 5000;
  request = codes "7" ∷ codes "name" ∷ [];
  servers = ann ∷ [];
  alive = 0 ∷ [];
  conns = (endpoint, 0) ∷ [];
  sequence = 7;
}

ann-Known : Known endpoint busy 0 ann
unfolding find? same
ann-Known = record { address = refl; server = refl }

busy-IsValid : IsValid busy
busy-IsValid = record { alive_in = (omega arith, tt); conns_in = (omega arith, tt) }

stoseq-to_string_example : (stoseq (to_string 1234) ≡ 1234) × (stoi (to_string 1234) ≡ some 1234)
stoseq-to_string_example = stoseq-to_string 1234 (omega arith)

abbrev heard_from : Input
heard_from = record {
  control = none;
  router = some (endpoint ∷ codes "7" ∷ status_ok ∷ []);
  control_at = 100;
  router_at = 100;
  checked_at = 101;
  tried_at = λ _. 101;
  pinged_at = λ _. 101;
}

step-Sound_example : Sound (step heard_from busy)
step-Sound_example = step-Sound heard_from busy busy-IsValid

on_router_message_number_example :
    on_router_message 100 (endpoint ∷ to_string 7 ∷ status_ok ∷ []) busy
    ≡ ok (
      record busy { servers = record ann { ping_at = 2100; expires = 6100 } ∷ []; request = [] },
      to_pipe (status_ok ∷ status_ok ∷ []) ∷ [],
    )
on_router_message_number_example =
    on_router_message_number 100 7 endpoint (status_ok ∷ []) busy 0 ann ann-Known (omega arith)

abbrev bob : Server
bob = record { endpoint = codes "tcp://b"; alive = true; ping_at = 2000; expires = 9000 }

abbrev both : Agent
both = record busy { servers = ann ∷ bob ∷ []; alive = 0 ∷ 1 ∷ [] }

send_to_first_live_example :
    send_to_first (λ _. 7000) 0 (0 ∷ 1 ∷ []) both
    ≡ ok (
      record both {
        servers = record ann { alive = false } ∷ bob ∷ [];
        alive = 1 ∷ [];
        request = codes "tcp://b" ∷ codes "7" ∷ codes "name" ∷ [];
      },
      to_router (codes "tcp://b" ∷ codes "7" ∷ codes "name" ∷ []) ∷ [],
    )
unfolding expired set_alive bury
send_to_first_live_example =
    send_to_first_live 7000 0 (0 ∷ []) 1 [] both bob ((ann, refl, refl), tt) refl refl

request_answered_example :
    (g : Agent) × (answer : Message) × ((do
      reply ← answered (codes "me") endpoint (endpoint ∷ to_string 7 ∷ codes "name" ∷ [])
      on_router_message 100 reply busy)
      ≡ ok (g, to_pipe answer ∷ []))
    × (g.request ≡ [])
    × (request_result answer ≡ status_ok ∷ [])
request_answered_example =
    request_answered 100 (codes "me") endpoint (codes "name") busy 0 ann ann-Known (omega arith)

pong_answered_example :
    (g : Agent) × (answer : Message) × ((do
      reply ← answered (codes "me") endpoint (endpoint ∷ ping_frame ∷ [])
      on_router_message 100 reply busy)
      ≡ ok (g, to_pipe answer ∷ []))
    × (g.request ≡ [])
    × (request_result answer ≡ [])
pong_answered_example = pong_answered 100 (codes "me") endpoint busy 0 ann ann-Known

abbrev asking : Shotgun.Client
asking = record { servers = 2; sequence = 4 }

request-stale_example :
    (Shotgun.request 0 (codes "name") (got (numbered 4 (codes "OK")) 20 ∷ quiet 2500 ∷ []) asking).2
    ≡ ok (to_string 4 ∷ codes "OK" ∷ [])
request-stale_example =
    request-stale 0 20 2500 4 (codes "name") (codes "OK") [] asking (omega arith) (omega arith)
      (omega arith) (omega arith)

-- Only one endpoint answers, and any endpoint does at the third attempt.
abbrev hello : Bytes → ℕ → Option Bytes
hello e n = if same e (codes "c:1") then some (codes "Hello World") else none

abbrev late : Bytes → ℕ → Option Bytes
late e n = if n == 2 then some (codes "Hello World") else none
