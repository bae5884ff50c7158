-- ===== src/Tests/Systems.antt =====
-- Processes that are joined, and what the single programs print, at concrete inputs.
use zguide_examples.Prelude.{
  ◌≡◌, refl, true, false, none, some, List, [], ◌∷◌, map, arith, ◌+◌, ◌≤◌,
}
use zguide_examples.Prelude.Lists.{All}
use zguide_examples.Prelude.Bytes.{Bytes, codes, same}
use zguide_examples.Prelude.Result.{ok}
use zguide_examples.Zmq.Frames.{Message, Part, got, send_frames, recv_frames}
use zguide_examples.Zmq.Deque.{send_msg, recv_msg, as_recv, send_msg-recv_msg}
use zguide_examples.SimplePirate
use zguide_examples.SimplePirate.System.Pool.{Follows, came, kept, pool_reached}
use zguide_examples.Prelude.Bag.{of_list, times_in, times}
use zguide_examples.SimplePirate.System.{
  arrival, Letter, System, Reaches, IsOrderly, empty_system, start, then_moves, joins, asks, works,
  answers,
}
use zguide_examples.SimplePirate.System.Orderly.{IsTaken, reached-IsOrderly}
use zguide_examples.ParanoidPirate.Workers.Invariant.{new-IsValid}
use zguide_examples.ParanoidPirate.Queue
use zguide_examples.ParanoidPirate.Queue.Roster.{rounds}
use zguide_examples.ParanoidPirate.Queue.Roster.Refined.{shown_post, post_of, run_refines}
use zguide_examples.ParanoidPirate.Worker
use zguide_examples.ParanoidPirate.Exchange.{exchange, exchange_echoes}
use zguide_examples.MultipleSockets.{Sockets}

abbrev ann : Bytes
ann = codes "ann"

abbrev hi : Message
hi = codes "cli" ∷ [] ∷ codes "hi" ∷ []

abbrev greeting : Letter
greeting = record { worker = ann; client = SimplePirate.ready; body = [] }

abbrev asking : Letter
asking = record { worker = ann; client = codes "cli"; body = [] ∷ codes "hi" ∷ [] }

abbrev answering : System
answering = record {
  queue = [];
  requests = [];
  replies = asking ∷ [];
  joined = ann ∷ [];
  crashed = [];
}

-- A worker joins, gets a request, and has answered it.
served_once : Reaches empty_system answering
unfolding SimplePirate.on_backend SimplePirate.on_frontend SimplePirate.work same
served_once =
    then_moves
      (then_moves
        (then_moves (then_moves start (joins empty_system ann (omega arith) refl)) (
          answers (record empty_system { replies = greeting ∷ []; joined = ann ∷ [] }) [] []
            greeting (ann ∷ []) [] refl refl))
        (asks (record empty_system { queue = ann ∷ []; joined = ann ∷ [] }) asking.client
          asking.body [] (SimplePirate.to_backend (arrival asking) ∷ []) refl))
      (works (record empty_system { requests = asking ∷ []; joined = ann ∷ [] }) [] [] asking 1 1 0
        (1, SimplePirate.sleeps 1 ∷ SimplePirate.sends hi ∷ []) refl refl)

reached-IsOrderly_example : IsOrderly answering × All (IsTaken []) (asking ∷ [])
reached-IsOrderly_example = reached-IsOrderly served_once

pool_reached_example :
    Follows (came ann ∷ kept ∷ kept ∷ kept ∷ []) (of_list []) (of_list (ann ∷ []))
    × ((k : Bytes)
        → (times_in k (of_list (ann ∷ [])) + 0 ≡ times k (ann ∷ []) + 0)
          × (times_in k (of_list (ann ∷ [])) ≤ 1))
unfolding served_once
pool_reached_example = pool_reached served_once

abbrev two_rounds : List Queue.Input
two_rounds =
    record {
      backend = some (ann ∷ Queue.ready ∷ []);
      frontend = none;
      seen_at = 10;
      checked_at = 12;
      beaten_at = 12;
      purged_at = λ _. 12;
    }
    ∷ record {
      backend = none;
      frontend = some hi;
      seen_at = 12;
      checked_at = 12;
      beaten_at = 12;
      purged_at = λ _. 12;
    }
    ∷ []

run_refines_example :
    shown_post (Queue.run two_rounds (Queue.init 10)) ≡ rounds two_rounds (post_of (Queue.init 10))
unfolding Queue.init
run_refines_example = run_refines two_rounds (Queue.init 10) (new-IsValid 3)

abbrev calm : Queue.Input
calm = record {
  backend = none;
  frontend = none;
  seen_at = 20;
  checked_at = 20;
  beaten_at = 20;
  purged_at = λ _. 20;
}

abbrev willing : Worker.Input
willing = record {
  message = none;
  crash_draw = 0;
  overload_draw = 3;
  checked_at = 20;
  beaten_at = 20;
}

abbrev waiting : Queue.State
waiting = record {
  workers = record { ttl = 3; queue = ann ∷ []; lookup = (ann, 30) ∷ [] };
  heartbeat_at = 40;
}

abbrev fresh : Worker.State
fresh = record { heartbeat_at = 40; timeout = 4; liveness = 1; cycles = 0 }

exchange_echoes_example :
    (s₂ : Queue.State) × (w' : Worker.State) × (beats : List Queue.Sent) × (exchange ann hi calm
        willing calm waiting fresh
      ≡ ok (s₂, w', Queue.to_frontend hi ∷ beats))
    × (w'.cycles ≡ 1)
    × (w'.liveness ≡ 3)
    × (w'.timeout ≡ 1)
exchange_echoes_example =
    exchange_echoes ann (codes "cli") [] (codes "hi") [] calm calm willing waiting fresh refl refl

abbrev half : List Part
half = record { frame = ann; more = true } ∷ record { frame = []; more = false } ∷ []

send_msg-recv_msg_example :
    (send_msg hi ≡ send_frames hi) × (recv_frames (map got half) ≡ as_recv (recv_msg half))
send_msg-recv_msg_example = send_msg-recv_msg hi half

abbrev one_task : Sockets
one_task = record { receiver = ann ∷ []; subscriber = [] }
