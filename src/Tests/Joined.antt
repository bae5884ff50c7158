-- ===== src/Tests/Joined.antt =====
-- Brokers with their clients and workers, and an agent, at concrete inputs.
use zguide_examples.Freelance.Sequence.{to_string}
use zguide_examples.AsyncServer.System
use zguide_examples.AsyncServer.System.Served.{requests_served}
use zguide_examples.AsyncServer.System.{count, count_all, asked_by}
use zguide_examples.AsyncServer.{request_text, server_work}
use zguide_examples.Prelude.{
  ◌⊎◌, ◌≤◌, ◌≡◌, refl, true, none, List, [], ◌∷◌, arith, ◌↔◌, ℕ, map, some, ◌*◌, ◌+◌,
}
use zguide_examples.Prelude.Lists.{length}
use zguide_examples.Prelude.Bytes.{Bytes, codes, same}
use zguide_examples.Prelude.Result.{ok}
use zguide_examples.Zmq.Frames.{Message}
use zguide_examples.Brokers.{Request}
use zguide_examples.ParanoidPirate.Queue
use zguide_examples.Weather.{pos}
use zguide_examples.Peering.{hello}
use zguide_examples.Peering.Local.{converse, client_proc, copies, rotated, received, client_served}
use zguide_examples.Relay.{
  Threads, Moves, Reaches, begins, then_moves, binds_step3, starts_step2, binds_step2,
  relay_in_order,
}
use zguide_examples.LoadBalancer
use zguide_examples.LoadBalancer.Client.{serve_all, replies_to, serve_all-replies_to}
use zguide_examples.Tripping.Measures.{sync_test, async_test, sync_test-async_test}
use zguide_examples.Freelance.Agent.{Agent, to_pipe}
use zguide_examples.Freelance.Agent
use zguide_examples.Freelance.Agent.Deadline.{IsSent}
use zguide_examples.Freelance.Agent.Deadline.Runs.{run}
use zguide_examples.Freelance.Agent.Deadline.Total.{IsAnswer, request_concludes}

abbrev ann : Bytes
ann = codes "ann"

abbrev two_requests : List Request
two_requests =
    record { client = codes "cli"; content = codes "hi" }
    ∷ record { client = codes "eve"; content = [] }
    ∷ []

abbrev two_workers : List Bytes
two_workers = ann ∷ codes "bob" ∷ []

-- A heartbeat is due, and the purge comes two seconds behind the start.
abbrev at_twelve : ℕ → Queue.Input
at_twelve n = record {
  backend = none;
  frontend = none;
  seen_at = 10;
  checked_at = 12;
  beaten_at = 12;
  purged_at = λ i. 12;
}

abbrev at_three : Threads
at_three = record { main = 2; step2 = 1; step1 = 0 }

abbrev three : ℕ
three = 3

-- Up to the point at which `step2` binds.
bound : Reaches 3 at_three
bound =
    then_moves (then_moves (then_moves begins (binds_step3 _ refl)) (starts_step2 _ refl))
      (binds_step2 _ (omega arith) refl)

relay_in_order_example :
    (at_three ≡ at_three)
    × (three ≤ 10)
    × ((at_three.main ≡ 3) ↔ (three ≡ 10))
    × ((three ≡ 10) ⊎ ((u : Threads) × Moves at_three u))
relay_in_order_example = relay_in_order three at_three at_three bound bound

abbrev asked_for : Agent
asked_for = record {
  expires = 500;
  request = codes "1" ∷ codes "hi" ∷ [];
  servers = [];
  alive = [];
  conns = [];
  sequence = 1;
}

abbrev late : Agent.Input
late = record {
  control = none;
  router = none;
  control_at = 500;
  router_at = 500;
  checked_at = 500;
  tried_at = λ _. 500;
  pinged_at = λ _. 500;
}

abbrev early : Agent.Input
early = record late { checked_at = 400 }

request_concludes_example :
    (g' : Agent) × (acts : List Agent.Action) × (run (early ∷ late ∷ []) asked_for ≡ ok (g', acts))
    × (g'.request ≡ [])
    × ((asked_for.request ≡ []) ⊎ IsSent (IsAnswer (early ∷ late ∷ [])) acts)
request_concludes_example =
    request_concludes (early ∷ []) [] late asked_for (record { alive_in = tt; conns_in = tt })
      ((refl, tt), tt) (refl, tt) tt (omega arith)

abbrev opened : LoadBalancer.State
opened = record { worker_queue = ann ∷ []; client_count = pos 2 }

serve_all-replies_to_example :
    (s' : LoadBalancer.State) × (serve_all 0 2 opened ≡ ok (s', replies_to 0 2, true))
    × (s'.client_count ≡ pos 0)
    × (length s'.worker_queue ≡ 1)
serve_all-replies_to_example = serve_all-replies_to 0 1 ann [] opened refl refl

sync_test-async_test_example :
    (sync_test two_workers ≡ async_test two_workers) × (async_test two_workers ≡ ok two_workers)
sync_test-async_test_example = sync_test-async_test two_workers

client_served_example :
    (converse [] ann 3 two_workers
      ≡ ok (codes "OK" ∷ codes "OK" ∷ codes "OK" ∷ [], codes "bob" ∷ ann ∷ []))
    × (client_proc 4 (map some (copies 3 (codes "OK")))
        ≡ (copies 4 hello, copies 3 (received 4 (codes "OK"))))
    × (rotated 2 two_workers ≡ two_workers)
unfolding converse client_proc copies rotated same
client_served_example = client_served [] (codes "bob" ∷ []) ann ann 4 3 (refl, (refl, tt)) refl refl

abbrev first_request : Message
first_request = codes "0001-0002" ∷ codes "request #1" ∷ []

-- One request, which a thread has answered once and is to answer once more.
abbrev half_answered : System.System
half_answered = record {
  sent = first_request ∷ [];
  waiting = [];
  working = (first_request ∷ []) ∷ [];
  returned = first_request ∷ [];
}

abbrev unread : System.System
unread = record {
  sent = first_request ∷ [];
  waiting = first_request ∷ [];
  working = [];
  returned = [];
}

abbrev unanswered : System.System
unanswered = record {
  sent = first_request ∷ [];
  waiting = [];
  working = (first_request ∷ first_request ∷ []) ∷ [];
  returned = [];
}

half_answered-Reached : System.Reached half_answered
unfolding request_text server_work asked_by to_string
half_answered-Reached =
    System.then_moves
      (System.then_moves
        (System.then_moves System.begins
          (System.asks System.start (codes "0001-0002") (codes "request #1") refl))
        (System.reads unread 2 [] [] (first_request ∷ first_request ∷ []) (codes "0001-0002")
          (codes "request #1") refl (omega arith) (omega arith) refl))
      (System.replies_once unanswered [] [] first_request (first_request ∷ []) refl)

requests_served_example :
    (count first_request half_answered.sent ≤ 1)
    × (count first_request half_answered.returned ≤ 5 * count first_request half_answered.sent)
    × (count first_request half_answered.sent
        ≤ count first_request half_answered.waiting
          + count_all first_request half_answered.working
          + count first_request half_answered.returned)
requests_served_example = requests_served first_request half_answered-Reached
