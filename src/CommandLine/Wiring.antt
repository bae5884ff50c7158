-- ===== src/CommandLine/Wiring.antt =====
-- Which programs meet at which ports if no port is given: divide-and-conquer and extended-request-reply.
use zguide_examples.Prelude.{◌≡◌, refl, none, some, List, [], ◌∷◌, ◌∙◌}
use zguide_examples.Prelude.Lists.{All}
use zguide_examples.Prelude.Bytes.{Bytes, codes}
use zguide_examples.Prelude.Dict.{Dict, find?}
use zguide_examples.Prelude.Result.{ok}
use zguide_examples.Weather.{pos}
use zguide_examples.CommandLine.{Value, ProgramOptions, running, help, binds, connects, tcp}
use zguide_examples.CommandLine.Values.{text_given, number_given}
use zguide_examples.CommandLine.Tasks.{
  taskvent, taskvent_options, taskvent_lem, taskwork, taskwork_options, taskwork_lem, tasksink,
  tasksink_options, tasksink_lem,
}
use zguide_examples.CommandLine.SharedQueue.{
  rrbroker, rrbroker_options, rrbroker_lem, rrclient, rrclient_options, rrclient_lem, rrworker,
  rrworker_options, rrworker_lem,
}

-- A command line that parses, with some options not on it.
abbrev pub IsSilent : List Bytes → Dict Value → Type 0
IsSilent names parsed = All (λ name. find? name parsed ≡ none) names

-- Whatever addresses are given to the three programs, without the help and without ports: the worker
-- connects to the port at which the ventilator binds, the ventilator and the worker to the one at which
-- the sink binds, and the worker to the one from which the sink sends its commands; the address of the
-- ventilator is that of the option of the worker, and the sink's own is used for both its ports.
pub tasks_wired :
    (po : ProgramOptions) (vent_args work_args sink_args : List Bytes) {v w s : Dict Value}
    → po.run taskvent_options vent_args ≡ some v
    → po.run taskwork_options work_args ≡ some w
    → po.run tasksink_options sink_args ≡ some s
    → IsSilent (help ∷ codes "port" ∷ codes "sink-port" ∷ []) v
    → IsSilent (help ∷ codes "vent-port" ∷ codes "sink-port" ∷ codes "ctrl-port" ∷ []) w
    → IsSilent (help ∷ codes "port" ∷ codes "ctrl-port" ∷ []) s
    → (taskvent po vent_args
        ≡ ok (
            running (
              binds (tcp (codes "*") (pos 5557))
              ∷ connects (tcp (text_given (codes "sink-addr") (codes "localhost") v) (pos 5558))
              ∷ [])))
      × (taskwork po work_args
          ≡ ok (
              running (
                connects (tcp (text_given (codes "vent-addr") (codes "localhost") w) (pos 5557))
                ∷ connects (tcp (text_given (codes "sink-addr") (codes "localhost") w) (pos 5558))
                ∷ connects (tcp (text_given (codes "sink-addr") (codes "localhost") w) (pos 5559))
                ∷ [])))
      × (tasksink po sink_args
          ≡ ok (
              running
                (binds (tcp (codes "*") (pos 5558)) ∷ binds (tcp (codes "*") (pos 5559)) ∷ [])))
tasks_wired po vent_args work_args sink_args ran_v ran_w ran_s (help_v, (port, (sink_v, _)))
      (help_w, (vent_port, (sink_w, (ctrl_w, _)))) (help_s, (port_s, (ctrl_s, _))) =
    (
      taskvent_lem po vent_args ∙ rw ran_v (rw help_v (rw port (rw sink_v refl))),
      taskwork_lem po work_args ∙ rw ran_w (rw help_w (rw vent_port (rw sink_w (rw ctrl_w refl)))),
      tasksink_lem po sink_args ∙ rw ran_s (rw help_s (rw port_s (rw ctrl_s refl))),
    )

-- The same for the broker of extended-request-reply with its client and worker; the client sends a
-- hundred requests if it is not told how many.
pub queue_wired :
    (po : ProgramOptions) (broker_args client_args worker_args : List Bytes) {b c w : Dict Value}
    → po.run rrbroker_options broker_args ≡ some b
    → po.run rrclient_options client_args ≡ some c
    → po.run rrworker_options worker_args ≡ some w
    → IsSilent (help ∷ codes "frontend-port" ∷ codes "backend-port" ∷ []) b
    → IsSilent (help ∷ codes "port" ∷ []) c
    → IsSilent (help ∷ codes "port" ∷ []) w
    → (rrbroker po broker_args
        ≡ ok (
            running (binds (tcp (codes "*") (pos 5559)) ∷ binds (tcp (codes "*") (pos 5560)) ∷ [])))
      × (rrclient po client_args
          ≡ ok (
              running (
                connects (tcp (text_given (codes "server") (codes "localhost") c) (pos 5559)) ∷ [],
                number_given (codes "requests") (pos 100) c,
              )))
      × (rrworker po worker_args
          ≡ ok (
              running (
                connects (tcp (text_given (codes "broker") (codes "localhost") w) (pos 5560))
                ∷ [])))
queue_wired po broker_args client_args worker_args ran_b ran_c ran_w (help_b, (front, (back, _)))
      (help_c, (port_c, _)) (help_w, (port_w, _)) =
    (
      rrbroker_lem po broker_args ∙ rw ran_b (rw help_b (rw front (rw back refl))),
      rrclient_lem po client_args ∙ rw ran_c (rw help_c (rw port_c refl)),
      rrworker_lem po worker_args ∙ rw ran_w (rw help_w (rw port_w refl)),
    )
