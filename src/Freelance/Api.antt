-- ===== src/Freelance/Api.antt =====
-- The client's side of the agent: model-three-complex-and-nasty/flcliapi.hpp, and the loop and the
-- report of flclient3.cpp.
use zguide_examples.Prelude.{
  ℕ, zero, suc, ◌+◌, ◌-◌, ◌/◌, ◌<◌, ◌≡◌, refl, false, List, [], ◌∷◌, ◌++◌, arith,
}
use zguide_examples.Prelude.Tests.{◌==◌, if◌then◌else◌}
use zguide_examples.Prelude.Lists.{All, length}
use zguide_examples.Prelude.Bytes.{Bytes, same}
use zguide_examples.Prelude.Result.{Result, ok, fault, zero_division}
use zguide_examples.Zmq.Frames.{Message, was_interrupted}
use zguide_examples.Freelance.Agent.{cmd_connect, cmd_request, status_failed}

-- What `connect` and `request` send to the agent.
unfoldable pub connect_message : Bytes → Message
connect_message endpoint = cmd_connect ∷ endpoint ∷ []

unfoldable pub request_message : Bytes → Message
request_message content = cmd_request ∷ content ∷ []

-- What `request` makes of the agent's answer. An empty result means that it failed.
unfoldable pub request_result : Message → Message
request_result [] = []
request_result (status ∷ reply) = if same status status_failed then [] else reply

abbrev pub total_requests : ℕ
total_requests = 1000

-- The loop of `main`: the requests left when it ends, by the results that `request` returns.
unfoldable pub request_loop : ℕ → List Message → ℕ
request_loop zero results = zero
request_loop (suc requests) [] = suc requests
request_loop (suc requests) (result ∷ results) =
    let rest = request_loop requests results in
    if was_interrupted result then suc requests else rest

-- The averages that `main` prints, of the times in milliseconds and in nanoseconds.
unfoldable pub report : ℕ → ℕ → ℕ → Result (ℕ × ℕ)
report ms ns requests =
    let reply_count = total_requests - requests in
    if reply_count == 0 then fault zero_division else ok (ms / reply_count, ns / reply_count)

-- The loop counts down once for each reply, up to the first request that fails.
pub request_loop-answered :
    (n : ℕ) (good : List Message) (later : List Message)
    → All (λ m. was_interrupted m ≡ false) good
    → length good < n
    → request_loop n (good ++ [] ∷ later) + length good ≡ n
unfolding request_loop was_interrupted
request_loop-answered zero good later a h = absurd (omega arith)
request_loop-answered (suc n) [] later a h = omega arith
request_loop-answered (suc n) (m ∷ good) later a h =
    rw a.0 (omega (arith, request_loop-answered n good later a.1 (omega arith)))

-- If the first request fails, the report of the program divides by zero.
pub report_none :
    (ms ns : ℕ) (later : List Message)
    → report ms ns (request_loop total_requests ([] ∷ later)) ≡ fault zero_division
unfolding report request_loop was_interrupted
report_none ms ns later = refl
