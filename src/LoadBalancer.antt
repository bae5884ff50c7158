-- ===== src/LoadBalancer.antt =====
-- The load-balancing broker: load-balancing-message-broker/lbbroker.cpp. `step` is one round of the
-- loop of `main`, and `shutdown` the loop behind it; the clients and the workers are REQ sockets.
pub mod Shutdown
pub mod Client
use zguide_examples.Prelude.{
  ℕ, suc, zero, ◌-◌, Bool, true, false, Option, none, some, List, [], ◌∷◌, ◌++◌,
}
use zguide_examples.Prelude.Tests.{◌==◌, if◌then◌else◌}
use zguide_examples.Prelude.Bytes.{Bytes, codes, same}
use zguide_examples.Prelude.Result.{
  Result, ok, stop, fault, starved, ◌>>=◌, ◌>>◌, assert, take_front,
}
use zguide_examples.Zmq.Frames.{Message}
use zguide_examples.Weather.{ℤ, pos, negsuc}

abbrev pub ready : Bytes
ready = codes "READY"

abbrev pub kill : Bytes
kill = codes "KILL"

abbrev pub reply_ok : Bytes
reply_ok = codes "OK"

pub data Sent : Type 0 where
  to_frontend to_backend : Message → Sent

-- `client_count` is the replies still awaited, an `int`; when it comes to 0 the loop is left.
pub record State : Type 0 where
  pub worker_queue : List Bytes
  pub client_count : ℤ

pub record Input : Type 0 where
  pub backend : Option Message
  pub frontend : Option Message

abbrev pub is_empty : Bytes → Bool
is_empty [] = true
is_empty (_ ∷ _) = false

-- `--client_count`
abbrev pub one_less : ℤ → ℤ
one_less (pos zero) = negsuc 0
one_less (pos (suc n)) = pos n
one_less (negsuc n) = negsuc (suc n)

abbrev pub is_zero : ℤ → Bool
is_zero (pos zero) = true
is_zero (pos (suc n)) = false
is_zero (negsuc n) = false

-- One `recv` of the next frame of the message. No message of a client or a worker has frames behind those
-- that are read here; they would stand in front of the next one.
abbrev pub recv : Message → Result (Bytes × Message)
recv [] = fault starved
recv (f ∷ rest) = ok (f, rest)

-- The new state, what was sent, and whether the loop is left.
abbrev pub Round : Type 0
Round = State × List Sent × Bool

-- A worker is ready, and has a reply unless it has just started.
unfoldable pub on_backend : Message → State → Result Round
on_backend message s = do
  (worker, m₁) ← recv message
  let queued = record s { worker_queue = s.worker_queue ++ worker ∷ [] }
  (delimiter, m₂) ← recv m₁
  assert (is_empty delimiter)
  (client, m₃) ← recv m₂
  if same client ready then ok (queued, [], false) else (do
    (delimiter₂, m₄) ← recv m₃
    assert (is_empty delimiter₂)
    (reply, _) ← recv m₄
    let left = one_less s.client_count
    ok (
      record queued { client_count = left },
      to_frontend (client ∷ [] ∷ reply ∷ []) ∷ [],
      is_zero left,
    ))

unfoldable pub on_frontend : Message → State → Result Round
on_frontend message s = do
  (client, m₁) ← recv message
  (delimiter, m₂) ← recv m₁
  assert (is_empty delimiter)
  (request, _) ← recv m₂
  (worker, rest) ← take_front s.worker_queue
  ok (
    record s { worker_queue = rest },
    to_backend (worker ∷ [] ∷ client ∷ [] ∷ request ∷ []) ∷ [],
    false,
  )

abbrev pub polled : (Message → State → Result Round) → Option Message → State → Result Round
polled handler none s = ok (s, [], false)
polled handler (some message) s = handler message s

-- The frontend is not served in the round in which the loop is left.
abbrev pub then_frontend : Option Message → Round → Result Round
then_frontend frontend (s, sent, true) = ok (s, sent, true)
then_frontend frontend (s, sent, false) = do
  (s', more, over) ← polled on_frontend frontend s
  ok (s', sent ++ more, over)

unfoldable pub step : Input → State → Result Round
unfolding on_backend on_frontend
step input s = do round ← polled on_backend input.backend s; then_frontend input.frontend round

-- The rounds up to the one in which the loop is left; the rest of the inputs is not looked at.
unfoldable pub run : List Input → State → Result Round
run [] s = ok (s, [], false)
run (i ∷ is) s = do
  (s₁, sent, over) ← step i s
  let rest = run is s₁
  if over
      then ok (s₁, sent, true)
      else (do (s₂, later, ended) ← rest; ok (s₂, sent ++ later, ended))

-- `KILL` for each worker that waits.
unfoldable pub shutdown : List Bytes → List Sent
shutdown [] = []
shutdown (worker ∷ queue) = to_backend (worker ∷ [] ∷ kill ∷ []) ∷ shutdown queue

-- What a worker thread does with what it receives: it ends on `KILL`, and else answers the client.
unfoldable pub worker_proc : Message → Result Message
worker_proc message = do
  (client, m₁) ← recv message
  let answer = do
    (delimiter, m₂) ← recv m₁
    assert (is_empty delimiter)
    (_, _) ← recv m₂
    ok (client ∷ [] ∷ reply_ok ∷ [])
  if same client kill then stop else answer
