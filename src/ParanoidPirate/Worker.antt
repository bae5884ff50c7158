-- ===== src/ParanoidPirate/Worker.antt =====
-- The worker process: robust-reliable-queuing/ppworker.cpp. A step is one round of the loop of
-- `main`; its input is what `poll` and `recv_frames` give, two draws of `distr(eng)`, and the
-- readings of the clock, in seconds.
pub mod Backoff
pub mod Invariant
use zguide_examples.Prelude.{
  ℕ, suc, ◌+◌, ◌-◌, ◌*◌, ◌%◌, ◌^◌, Bool, Option, none, some, List, [], ◌∷◌, ◌++◌, ◌&&◌,
}
use zguide_examples.Prelude.Tests.{ltb, ◌==◌, if◌then◌else◌}
use zguide_examples.Prelude.Bytes.{Bytes, same}
use zguide_examples.Prelude.Result.{Result, ok, stop, ◌>>=◌}
use zguide_examples.Zmq.Frames.{Message}
use zguide_examples.ParanoidPirate.Queue.{heartbeat_liveness, heartbeat_interval, ready, heartbeat}

abbrev pub interval_max : ℕ
interval_max = 32

pub record State : Type 0 where
  pub heartbeat_at : ℕ
  pub timeout : ℕ
  pub liveness : ℕ  -- unsigned
  pub cycles : ℕ

-- `opens`: a new DEALER socket of the worker's identity, connected to the queue.
pub data Action : Type 0 where
  opens : Action
  sends : Message → Action
  sleeps : ℕ → Action

pub record Input : Type 0 where
  pub message : Option Message
  pub crash_draw : ℕ
  pub overload_draw : ℕ
  pub checked_at : ℕ
  pub beaten_at : ℕ

unfoldable pub new_socket : List Action
new_socket = opens ∷ sends (ready ∷ []) ∷ []

unfoldable pub init : ℕ → State × List Action
unfolding new_socket
init now = (
  record {
    heartbeat_at = now + heartbeat_interval;
    timeout = heartbeat_interval;
    liveness = heartbeat_liveness;
    cycles = 0;
  },
  new_socket,
)

-- A request: the worker may crash or be slow, and then echoes it.
on_request : Input → Message → State → Result (State × List Action)
on_request input frames s =
    let cycles = s.cycles + 1 in
    if ltb 10 cycles && input.crash_draw == 0
    then stop
    else ok (
      record s { cycles = cycles; liveness = heartbeat_liveness; timeout = heartbeat_interval },
      (if ltb 5 cycles && input.overload_draw == 0 then sleeps 5 ∷ [] else [])
          ++ sleeps 1 ∷ sends frames ∷ [],
    )

-- A message by its number of frames. No frame is an interruption; what is neither a request nor a
-- heartbeat ends the worker too.
unfoldable pub on_message : Input → Message → State → Result (State × List Action)
unfolding on_request
on_message input (a ∷ b ∷ c ∷ []) s = on_request input (a ∷ b ∷ c ∷ []) s
on_message input (frame ∷ []) s =
    if same frame heartbeat
    then ok (record s { liveness = heartbeat_liveness; timeout = heartbeat_interval }, [])
    else stop
on_message input _ s = stop

-- The queue was silent for an interval.
unfoldable pub on_silence : State → State × List Action
unfolding new_socket
on_silence s =
    let left = (s.liveness + 2 ^ 32 - 1) % 2 ^ 32 in
    if left == 0
    then (
      record s {
        timeout = if ltb s.timeout interval_max then s.timeout * 2 else s.timeout;
        liveness = heartbeat_liveness;
      },
      sleeps s.timeout ∷ new_socket,
    )
    else (record s { liveness = left }, [])

unfoldable pub beat_if_due : Input → State → State × List Action
beat_if_due input s =
    if ltb s.heartbeat_at input.checked_at
    then (
      record s { heartbeat_at = input.beaten_at + heartbeat_interval },
      sends (heartbeat ∷ []) ∷ [],
    )
    else (s, [])

polled : Input → Option Message → State → Result (State × List Action)
unfolding on_message on_silence
polled input none s = ok (on_silence s)
polled input (some frames) s = on_message input frames s

unfoldable pub step : Input → State → Result (State × List Action)
unfolding polled beat_if_due
step input s = do
  (s₁, acts) ← polled input input.message s
  let (s₂, beats) = beat_if_due input s₁
  ok (s₂, acts ++ beats)

unfoldable pub run : List Input → State → Result (State × List Action)
run [] s = ok (s, [])
run (i ∷ is) s = do (s₁, acts) ← step i s; (s₂, later) ← run is s₁; ok (s₂, acts ++ later)
