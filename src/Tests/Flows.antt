-- ===== src/Tests/Flows.antt =====
-- Brokers with peers, routers, and the flows of work and updates at concrete inputs.
use zguide_examples.Prelude.{
  zero, suc, ℕ, ◌+◌, ◌≡◌, refl, ◌≤◌, none, some, List, [], ◌∷◌, map, arith, ◌⊎◌,
}
use zguide_examples.Prelude.Lists.{All, replicate}
use zguide_examples.Prelude.Bytes.{Bytes, codes, same}
use zguide_examples.Prelude.Result.{ok, ◌>>=◌}
use zguide_examples.Zmq.Frames.{Message}
use zguide_examples.Peering
use zguide_examples.Peering.{Frontends, route, step, work, hello}
use zguide_examples.Peering.Cloud.{rerouted, taken_over, done_by, handed_back, rerouted_answered}
use zguide_examples.DivideConquer.System.{
  System, at_start, Moves, Reaches, start, then_moves, ventilates,
}
use zguide_examples.DivideConquer.System.Finished.{moves_of, left, IsFinished, tasks_finished}
use zguide_examples.Freelance.Sequence.{to_string}
use zguide_examples.DivideConquer.{ventilate}

abbrev ann : Bytes
ann = codes "ann"

abbrev bob : Bytes
bob = codes "bob"

abbrev cli : Bytes
cli = codes "cli"

abbrev hi : Message
hi = cli ∷ [] ∷ codes "hi" ∷ []

abbrev peers : List Bytes
peers = codes "b:2" ∷ codes "c:3" ∷ []

abbrev polls : List Frontends
polls =
    record { cloudfe = none; localfe = some hi; route_draw = 0; broker_draw = 1 }
    ∷ record { cloudfe = none; localfe = some hi; route_draw = 3; broker_draw = 0 }
    ∷ []

rerouted_answered_example :
    (step peers (rerouted (cli ∷ [] ∷ hello ∷ []) 1) (ann ∷ [])
      ≡ ok (ann ∷ [], Peering.to_cloudbe (codes "c:3" ∷ cli ∷ [] ∷ hello ∷ []) ∷ []))
    × (step (codes "a:1" ∷ []) (taken_over (codes "a:1" ∷ cli ∷ [] ∷ hello ∷ [])) (bob ∷ [])
        ≡ ok ([], Peering.to_localbe (bob ∷ [] ∷ codes "a:1" ∷ cli ∷ [] ∷ hello ∷ []) ∷ []))
    × ((do
      reply ← work (codes "a:1" ∷ cli ∷ [] ∷ hello ∷ [])
      step (codes "a:1" ∷ []) (done_by bob reply) [])
        ≡ ok (bob ∷ [], Peering.to_cloudfe (codes "a:1" ∷ cli ∷ [] ∷ codes "OK" ∷ []) ∷ []))
    × (step peers (handed_back (codes "c:3" ∷ cli ∷ [] ∷ codes "OK" ∷ [])) (ann ∷ [])
        ≡ ok (ann ∷ [], Peering.to_localfe (cli ∷ [] ∷ codes "OK" ∷ []) ∷ []))
unfolding same
rerouted_answered_example =
    rerouted_answered peers (codes "a:1" ∷ []) [] [] ann (codes "a:1") (codes "c:3") cli
      (codes "ob") 98 1 refl refl refl refl

abbrev ten_late : List (Bytes × ℕ)
ten_late = map (λ n. (n ∷ [], 5 + n)) (0 ∷ 1 ∷ 2 ∷ 3 ∷ 4 ∷ 5 ∷ 6 ∷ 7 ∷ 8 ∷ 9 ∷ [])

ten_late-late : All (λ p. 5 ≤ p.1) ten_late
ten_late-late = (
  omega arith,
  (
    omega arith,
    (
      omega arith,
      (
        omega arith,
        (
          omega arith,
          (omega arith, (omega arith, (omega arith, (omega arith, (omega arith, tt))))),
        ),
      ),
    ),
  ),
)

sevens-small : (k : ℕ) → All (λ n. n ≤ 100) (replicate k 7)
sevens-small zero = tt
sevens-small (suc k) = (omega arith, sevens-small k)

abbrev seven : Bytes
seven = 55 ∷ replicate 9 0

abbrev one_sent : System
one_sent = record (at_start (replicate 100 7) 0) {
  unsent = replicate 99 7;
  total = 7;
  waiting = record { worker = 2; message = seven } ∷ [];
}

-- The first task goes to the third worker.
sent_one : Reaches (at_start (replicate 100 7) 0) one_sent
unfolding ventilate to_string
sent_one =
    then_moves start
      (ventilates (at_start (replicate 100 7) 0) 2 7 7 (replicate 99 7) seven refl refl)

tasks_finished_example :
    (moves_of sent_one + left one_sent ≡ 302)
    × (((one_sent.control ≡ none) × ((t : System) × Moves one_sent t))
        ⊎ IsFinished (replicate 100 7) one_sent)
tasks_finished_example = tasks_finished (replicate 100 7) 0 (sevens-small 100) refl sent_one
