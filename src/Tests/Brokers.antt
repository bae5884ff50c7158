-- ===== src/Tests/Brokers.antt =====
-- The other models at concrete inputs.
use zguide_examples.Prelude.{◌≡◌, refl, [], ◌∷◌, arith, List, map, ◌++◌, ℕ}
use zguide_examples.Prelude.Bytes.{Bytes, codes, same}
use zguide_examples.Prelude.Result.{ok}
use zguide_examples.Zmq.Frames.{Message}
use zguide_examples.Freelance.Sequence.{to_string}
use zguide_examples.LastValue.Cached.{filled}
use zguide_examples.LastValue.{run, published, second_content, listen}
use zguide_examples.LastValue.Saved.{brings, subscribes, frames_of, is_drawn, late_delivered}
use zguide_examples.LazyPirate
use zguide_examples.LazyPirate.{replied, timed_out}
use zguide_examples.LazyPirate.Delivery.{transcript, reports, run_delivers}
use zguide_examples.LazyPirate.Retries.{resends}

abbrev ann : Bytes
ann = codes "ann"

abbrev bob : Bytes
bob = codes "bob"

abbrev cli : Bytes
cli = codes "cli"

abbrev hi : Message
hi = cli ∷ [] ∷ codes "hi" ∷ []

abbrev seven_and_nine : List ℕ
seven_and_nine = 7 ∷ 9 ∷ []

late_delivered_example :
    (run (map brings (published seven_and_nine) ++ subscribes (to_string 7) ∷ []) []
      ≡ ok (
        filled (published seven_and_nine) [],
        map frames_of (published seven_and_nine) ++ (to_string 7 ∷ second_content ∷ []) ∷ [],
      ))
    × (listen (to_string 7) ((to_string 7, second_content) ∷ []) ≡ second_content ∷ [])
unfolding is_drawn
late_delivered_example =
    late_delivered 7 seven_and_nine (omega arith) (omega arith) (omega arith, (omega arith, tt))

run_delivers_example :
    (LazyPirate.run
        (timed_out
          ∷ replied (codes "4")
          ∷ replied (codes "1")
          ∷ replied (codes "2")
          ∷ timed_out
          ∷ timed_out
          ∷ timed_out
          ∷ [])
        LazyPirate.start.0
      ≡ (
        LazyPirate.finished,
        transcript 1 ((timed_out ∷ replied (codes "4") ∷ []) ∷ [] ∷ []) ++ resends 3 2,
      ))
    × (reports
          (LazyPirate.run
            (timed_out
              ∷ replied (codes "4")
              ∷ replied (codes "1")
              ∷ replied (codes "2")
              ∷ timed_out
              ∷ timed_out
              ∷ timed_out
              ∷ [])
            LazyPirate.start.0).1
        ≡ codes "1" ∷ codes "2" ∷ [])
unfolding same to_string
run_delivers_example =
    run_delivers ((timed_out ∷ replied (codes "4") ∷ []) ∷ [] ∷ [])
      (timed_out ∷ timed_out ∷ timed_out ∷ [])
      (((tt, (refl, tt)), omega arith), ((tt, omega arith), tt)) (tt, (tt, (tt, tt))) (omega arith)
