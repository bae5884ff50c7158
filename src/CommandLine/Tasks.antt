-- ===== src/CommandLine/Tasks.antt =====
-- divide-and-conquer: the command lines of taskvent.cpp, taskwork.cpp and tasksink.cpp.
use zguide_examples.Prelude.{◌≡◌, refl, none, List, [], ◌∷◌}
use zguide_examples.Prelude.Bytes.{Bytes, codes, same}
use zguide_examples.Prelude.Dict.{Dict}
use zguide_examples.Prelude.Result.{Result, ok, ◌>>=◌}
use zguide_examples.Weather.{pos}
use zguide_examples.CommandLine.{
  Value, Spec, ProgramOptions, Outcome, help_option, number_option, text_option, text_of, number_of,
  caught, notify_first, outcome_of, Endpoint, binds, connects, tcp,
}
use zguide_examples.CommandLine.Values.{
  number_given, text_given, number_of-store, text_of-store, notify_first-outcome_of,
}

unfoldable pub taskvent_options : List Spec
taskvent_options =
    help_option
    ∷ number_option (codes "port") none 5557
    ∷ text_option (codes "sink-addr") none (codes "localhost")
    ∷ number_option (codes "sink-port") none 5558
    ∷ []

unfoldable pub taskvent_sockets : Dict Value → Result (List Endpoint)
taskvent_sockets vm = do
  port ← number_of (codes "port") vm
  sink_addr ← text_of (codes "sink-addr") vm
  sink_port ← number_of (codes "sink-port") vm
  ok (binds (tcp (codes "*") port) ∷ connects (tcp sink_addr sink_port) ∷ [])

unfoldable pub taskvent : ProgramOptions → List Bytes → Result (Outcome (List Endpoint))
unfolding taskvent_sockets
taskvent po args = caught (notify_first po taskvent_options taskvent_sockets args)

-- What it sets up, by what stands on the command line.
abbrev pub taskvent_set : Dict Value → List Endpoint
taskvent_set parsed =
    let port = number_given (codes "port") (pos 5557) parsed in
    let sink_addr = text_given (codes "sink-addr") (codes "localhost") parsed in
    let sink_port = number_given (codes "sink-port") (pos 5558) parsed in
    binds (tcp (codes "*") port) ∷ connects (tcp sink_addr sink_port) ∷ []

pub taskvent_lem :
    (po : ProgramOptions) (args : List Bytes)
    → taskvent po args ≡ ok (outcome_of (po.run taskvent_options args) taskvent_set)
unfolding taskvent taskvent_options same
taskvent_lem po args =
    notify_first-outcome_of po taskvent_options taskvent_sockets taskvent_set args refl (λ vm. refl)
      λ parsed ran.
        rw (number_of-store po taskvent_options args ran (codes "port") (pos 5557) refl refl) (
          rw
            (text_of-store po taskvent_options args ran (codes "sink-addr") (codes "localhost") refl
              refl)
            (rw
              (number_of-store po taskvent_options args ran (codes "sink-port") (pos 5558) refl
                refl)
              (refl)))

unfoldable pub taskwork_options : List Spec
taskwork_options =
    help_option
    ∷ text_option (codes "vent-addr") none (codes "localhost")
    ∷ number_option (codes "vent-port") none 5557
    ∷ text_option (codes "sink-addr") none (codes "localhost")
    ∷ number_option (codes "sink-port") none 5558
    ∷ number_option (codes "ctrl-port") none 5559
    ∷ []

unfoldable pub taskwork_sockets : Dict Value → Result (List Endpoint)
taskwork_sockets vm = do
  vent_addr ← text_of (codes "vent-addr") vm
  vent_port ← number_of (codes "vent-port") vm
  sink_addr ← text_of (codes "sink-addr") vm
  sink_port ← number_of (codes "sink-port") vm
  ctrl_port ← number_of (codes "ctrl-port") vm
  ok (
      connects (tcp vent_addr vent_port)
      ∷ connects (tcp sink_addr sink_port)
      ∷ connects (tcp sink_addr ctrl_port)
      ∷ [])

unfoldable pub taskwork : ProgramOptions → List Bytes → Result (Outcome (List Endpoint))
unfolding taskwork_sockets
taskwork po args = caught (notify_first po taskwork_options taskwork_sockets args)

-- What it sets up, by what stands on the command line.
abbrev pub taskwork_set : Dict Value → List Endpoint
taskwork_set parsed =
    let vent_addr = text_given (codes "vent-addr") (codes "localhost") parsed in
    let vent_port = number_given (codes "vent-port") (pos 5557) parsed in
    let sink_addr = text_given (codes "sink-addr") (codes "localhost") parsed in
    let sink_port = number_given (codes "sink-port") (pos 5558) parsed in
    let ctrl_port = number_given (codes "ctrl-port") (pos 5559) parsed in
    connects (tcp vent_addr vent_port)
    ∷ connects (tcp sink_addr sink_port)
    ∷ connects (tcp sink_addr ctrl_port)
    ∷ []

pub taskwork_lem :
    (po : ProgramOptions) (args : List Bytes)
    → taskwork po args ≡ ok (outcome_of (po.run taskwork_options args) taskwork_set)
unfolding taskwork taskwork_options same
taskwork_lem po args =
    notify_first-outcome_of po taskwork_options taskwork_sockets taskwork_set args refl (λ vm. refl)
      λ parsed ran.
        rw
          (text_of-store po taskwork_options args ran (codes "vent-addr") (codes "localhost") refl
            refl)
          (rw
            (number_of-store po taskwork_options args ran (codes "vent-port") (pos 5557) refl refl)
            (rw
              (text_of-store po taskwork_options args ran (codes "sink-addr") (codes "localhost")
                refl refl)
              (rw
                (number_of-store po taskwork_options args ran (codes "sink-port") (pos 5558) refl
                  refl)
                (rw
                  (number_of-store po taskwork_options args ran (codes "ctrl-port") (pos 5559) refl
                    refl)
                  (refl)))))

unfoldable pub tasksink_options : List Spec
tasksink_options =
    help_option
    ∷ number_option (codes "port") none 5558
    ∷ number_option (codes "ctrl-port") none 5559
    ∷ []

unfoldable pub tasksink_sockets : Dict Value → Result (List Endpoint)
tasksink_sockets vm = do
  recv_port ← number_of (codes "port") vm
  ctrl_port ← number_of (codes "ctrl-port") vm
  ok (binds (tcp (codes "*") recv_port) ∷ binds (tcp (codes "*") ctrl_port) ∷ [])

unfoldable pub tasksink : ProgramOptions → List Bytes → Result (Outcome (List Endpoint))
unfolding tasksink_sockets
tasksink po args = caught (notify_first po tasksink_options tasksink_sockets args)

-- What it sets up, by what stands on the command line.
abbrev pub tasksink_set : Dict Value → List Endpoint
tasksink_set parsed =
    let recv_port = number_given (codes "port") (pos 5558) parsed in
    let ctrl_port = number_given (codes "ctrl-port") (pos 5559) parsed in
    binds (tcp (codes "*") recv_port) ∷ binds (tcp (codes "*") ctrl_port) ∷ []

pub tasksink_lem :
    (po : ProgramOptions) (args : List Bytes)
    → tasksink po args ≡ ok (outcome_of (po.run tasksink_options args) tasksink_set)
unfolding tasksink tasksink_options same
tasksink_lem po args =
    notify_first-outcome_of po tasksink_options tasksink_sockets tasksink_set args refl (λ vm. refl)
      λ parsed ran.
        rw (number_of-store po tasksink_options args ran (codes "port") (pos 5558) refl refl) (
          rw (number_of-store po tasksink_options args ran (codes "ctrl-port") (pos 5559) refl refl)
            (refl))
