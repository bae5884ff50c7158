-- ===== src/ParanoidPirate/Queue.antt =====
-- The queue process: robust-reliable-queuing/ppqueue.cpp, with the constants of ppcommon.hpp.
-- A step is one round of the loop of `main`. What `poll` and `recv_frames` give, and the readings
-- of the clock, in seconds, are its input; what is sent is its output.
pub mod Safety
pub mod Faults
pub mod Routing
pub mod Roster
use zguide_examples.Prelude.{ℕ, ◌+◌, ◌*◌, Bool, Option, none, some, List, [], ◌∷◌, ◌++◌, map}
use zguide_examples.Prelude.Tests.{ltb, ◌==◌, if◌then◌else◌}
use zguide_examples.Prelude.Lists.{length}
use zguide_examples.Prelude.Bytes.{Bytes, codes, same}
use zguide_examples.Prelude.Result.{
  Result, ok, stop, fault, empty_front, empty_send, ◌>>=◌, ◌>>◌, take_front,
}
use zguide_examples.Zmq.Frames.{Message, was_interrupted}
use zguide_examples.ParanoidPirate.Workers.{Workers}
use zguide_examples.ParanoidPirate.Workers

abbrev pub heartbeat_liveness : ℕ
heartbeat_liveness = 3

abbrev pub heartbeat_interval : ℕ
heartbeat_interval = 1

abbrev pub ttl : ℕ
ttl = heartbeat_interval * heartbeat_liveness

abbrev pub ready : Bytes
ready = codes "READY"

abbrev pub heartbeat : Bytes
heartbeat = codes "HEARTBEAT"

pub record State : Type 0 where
  pub workers : Workers
  pub heartbeat_at : ℕ

pub data Sent : Type 0 where
  to_frontend to_backend : Message → Sent

-- One round's input. `none`: the socket has nothing, or was not polled.
pub record Input : Type 0 where
  pub backend : Option Message
  pub frontend : Option Message
  pub seen_at : ℕ
  pub checked_at : ℕ
  pub beaten_at : ℕ
  pub purged_at : ℕ → ℕ

unfoldable pub init : ℕ → State
init now = record { workers = Workers.new ttl; heartbeat_at = now + heartbeat_interval }

-- `send_frames`, whose `end() - 1` wants a frame.
abbrev pub send : (Message → Sent) → Message → Result (List Sent)
send to [] = fault empty_send
send to (f ∷ fs) = ok (to (f ∷ fs) ∷ [])

abbrev pub keep_workers : Result (Workers × Bool) → Result Workers
keep_workers r = r >>= λ p. ok p.0

-- A message of one frame behind the identity: READY, HEARTBEAT, or one that is only printed.
control : ℕ → Bytes → Bytes → Workers → Result Workers
control now id frame w =
    if same frame ready
    then Workers.push now id (Workers.erase id w)
    else if same frame heartbeat
    then Workers.refresh now id w
    else ok w

-- What is behind the identity, by its number of frames.
unfoldable pub from_worker : ℕ → Bytes → Message → Workers → Result (Workers × List Sent)
unfolding control
from_worker now id (frame ∷ []) w = do w' ← control now id frame w; ok (w', [])
from_worker now id frames w = do
  sent ← send to_frontend frames
  w' ← keep_workers (Workers.try_push now id w)
  ok (w', sent)

-- A message on the backend; an empty one is an interruption, and leaves the loop.
unfoldable pub on_backend : ℕ → Message → Workers → Result (Workers × List Sent)
unfolding from_worker
on_backend now [] w = stop
on_backend now (id ∷ frames) w = from_worker now id frames w

-- A request on the frontend goes to the front worker.
unfoldable pub on_frontend : Message → Workers → Result (Workers × List Sent)
on_frontend frames w = do
  worker ← Workers.front w
  sent ← send to_backend (worker ∷ frames)
  ok (Workers.pop w, sent)

unfoldable pub polled :
    (Message → Workers → Result (Workers × List Sent))
    → Option Message
    → Workers
    → Result (Workers × List Sent)
polled handler none w = ok (w, [])
polled handler (some frames) w = handler frames w

pub beat : Bytes → Sent
beat id = to_backend (id ∷ heartbeat ∷ [])

-- The heartbeats that are due, and the purge, if there are workers.
unfoldable pub tend : Input → ℕ → Workers → State × List Sent
unfolding beat
tend input heartbeat_at w =
    if Workers.empty w
    then (record { workers = w; heartbeat_at = heartbeat_at }, [])
    else let due = ltb heartbeat_at input.checked_at in
      (
        record {
          workers = Workers.purge input.purged_at w;
          heartbeat_at = if due then input.beaten_at + heartbeat_interval else heartbeat_at;
        },
        if due then map beat w.queue else [],
      )

unfoldable pub step : Input → State → Result (State × List Sent)
step input s = do
  (w₁, replies) ← polled (on_backend input.seen_at) input.backend s.workers
  (w₂, requests) ← polled on_frontend input.frontend w₁
  let (s', beats) = tend input s.heartbeat_at w₂
  ok (s', replies ++ requests ++ beats)

-- The rounds for some inputs; a round that ends the loop ends them.
unfoldable pub run : List Input → State → Result (State × List Sent)
run [] s = ok (s, [])
run (i ∷ is) s = do (s₁, sent) ← step i s; (s₂, later) ← run is s₁; ok (s₂, sent ++ later)
