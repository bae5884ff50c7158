-- ===== src/Tests/Options.antt =====
-- Messages of all the programs, and command lines, at concrete inputs.
use zguide_examples.Prelude.{◌≡◌, refl, true, false, some, List, [], ◌∷◌, ◌++◌, arith}
use zguide_examples.Prelude.Bytes.{Bytes, codes, same}
use zguide_examples.Prelude.Dict.{Dict, find?}
use zguide_examples.Prelude.Result.{ok}
use zguide_examples.Weather.{pos}
use zguide_examples.Freelance.Sequence.{to_string}
use zguide_examples.Text.Hex.{padded}
use zguide_examples.Weather.{update_text}
use zguide_examples.LastValue.Topics.{is_prefix}
use zguide_examples.Prelude.{map}
use zguide_examples.Zmq.Frames.{Part, got, failed, send_frames, recv_frames}
use zguide_examples.Zmq.Deque.{as_recv}
use zguide_examples.Zmq.Copies.{
  sp_send_frames, flclient_send_frames, peering_send_frames, flserver_send_frames,
  tripping_send_frames, sp_recv_frames, peering_recv_frames, flserver_recv_frames,
  flclient_recv_frames, tripping_recv_frames,
}
use zguide_examples.Zmq.Copies.Agree.{copies_exchange}
use zguide_examples.Tests.TinyOptions.{tiny, tiny_run, digits}
use zguide_examples.CommandLine.Tasks.{taskvent, taskwork, tasksink, taskwork_options}
use zguide_examples.CommandLine.Wiring.{tasks_wired}
use zguide_examples.CommandLine.Required.{peering2, peering2_options}
use zguide_examples.CommandLine.Required.Outcomes.{peering2_lem}
use zguide_examples.CommandLine.Readers.Filter.{subscription, filter_exact}
use zguide_examples.CommandLine.{running, binds, connects}
use zguide_examples.Prelude.Result.{fault, overflow}
use zguide_examples.CommandLine.{Value, number_value, texts_value}

abbrev far_sink : List Bytes
far_sink = codes "sink-addr" ∷ codes "far" ∷ []

tasks_wired_example :
    (taskvent tiny []
      ≡ ok (running (binds (codes "tcp://*:5557") ∷ connects (codes "tcp://localhost:5558") ∷ [])))
    × (taskwork tiny far_sink
        ≡ ok (
            running (
              connects (codes "tcp://localhost:5557")
              ∷ connects (codes "tcp://far:5558")
              ∷ connects (codes "tcp://far:5559")
              ∷ [])))
    × (tasksink tiny []
        ≡ ok (running (binds (codes "tcp://*:5558") ∷ binds (codes "tcp://*:5559") ∷ [])))
unfolding tiny_run find? same taskwork_options to_string
tasks_wired_example =
    tasks_wired tiny [] far_sink [] refl refl refl (refl, (refl, (refl, tt)))
      (refl, (refl, (refl, (refl, tt)))) (refl, (refl, (refl, tt)))

abbrev four_given : List Bytes
four_given =
    codes "cloud-port"
    ∷ codes "5551"
    ∷ codes "peer"
    ∷ codes "localhost:5552"
    ∷ codes "frontend-port"
    ∷ codes "5561"
    ∷ codes "backend-port"
    ∷ codes "5562"
    ∷ []

abbrev four_parsed : Dict Value
four_parsed =
    (codes "cloud-port", number_value (pos 5551))
    ∷ (codes "peer", texts_value (codes "localhost:5552" ∷ []))
    ∷ (codes "frontend-port", number_value (pos 5561))
    ∷ (codes "backend-port", number_value (pos 5562))
    ∷ []

peering2_lem_example :
    peering2 tiny four_given
    ≡ ok (
        running (record {
          identity = codes "localhost:5551";
          endpoints =
              binds (codes "tcp://*:5551")
              ∷ connects (codes "tcp://localhost:5552")
              ∷ binds (codes "tcp://*:5561")
              ∷ binds (codes "tcp://*:5562")
              ∷ [];
          peers = codes "localhost:5552" ∷ [];
          worker_count = pos 3;
          worker_addr = codes "localhost:5562";
          client_count = pos 10;
          client_addr = codes "localhost:5561";
        }))
unfolding tiny_run find? same peering2_options digits to_string
peering2_lem_example = peering2_lem tiny four_given

filter_exact_example :
    ((s : Bytes) × (subscription (codes "007") ≡ ok s)
      × (is_prefix s (update_text 8 (pos 20) 50) ≡ false))
    × ((s : Bytes) × (subscription (codes "07") ≡ ok s)
        × (is_prefix s (update_text 8 (pos 20) 50) ≡ false))
    × (subscription (codes "0") ≡ fault overflow)
    × (subscription [] ≡ fault overflow)
unfolding padded to_string subscription
filter_exact_example = filter_exact 7 8 b'0' b'7' (pos 20) 50 (omega arith) (omega arith)

copies_exchange_example :
    (parts : List Part) × (send_frames (codes "a" ∷ codes "b" ∷ []) ≡ ok parts)
    × (sp_send_frames (codes "a" ∷ codes "b" ∷ []) ≡ ok parts)
    × (flclient_send_frames (codes "a" ∷ codes "b" ∷ []) ≡ ok parts)
    × (peering_send_frames (codes "a" ∷ codes "b" ∷ []) ≡ ok (parts, true))
    × (flserver_send_frames (codes "a" ∷ codes "b" ∷ []) ≡ ok parts)
    × (tripping_send_frames (codes "a" ∷ codes "b" ∷ []) ≡ ok parts)
    × (recv_frames (map got parts ++ failed ∷ []) ≡ some (codes "a" ∷ codes "b" ∷ [], failed ∷ []))
    × (sp_recv_frames (map got parts ++ failed ∷ [])
        ≡ some (codes "a" ∷ codes "b" ∷ [], failed ∷ []))
    × (peering_recv_frames (map got parts ++ failed ∷ [])
        ≡ some (codes "a" ∷ codes "b" ∷ [], failed ∷ []))
    × (flserver_recv_frames (map got parts ++ failed ∷ [])
        ≡ some (codes "a" ∷ codes "b" ∷ [], failed ∷ []))
    × (as_recv (flclient_recv_frames (parts ++ [])) ≡ some (codes "a" ∷ codes "b" ∷ [], []))
    × (as_recv (tripping_recv_frames (parts ++ [])) ≡ some (codes "a" ∷ codes "b" ∷ [], []))
copies_exchange_example =
    copies_exchange (codes "a") (codes "b" ∷ []) (failed ∷ []) [] (omega arith)
