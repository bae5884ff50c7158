-- ===== src/CommandLine/SharedQueue.antt =====
-- extended-request-reply: the command lines of rrbroker.cpp, rrclient.cpp and rrworker.cpp.
pub mod Rounds
use zguide_examples.Prelude.{◌≡◌, refl, none, some, List, [], ◌∷◌}
use zguide_examples.Prelude.Bytes.{Bytes, codes, same}
use zguide_examples.Prelude.Dict.{Dict}
use zguide_examples.Prelude.Result.{Result, ok, ◌>>=◌}
use zguide_examples.Weather.{ℤ, pos}
use zguide_examples.CommandLine.{
  Value, Spec, ProgramOptions, Outcome, help_option, number_option, text_option, text_of, number_of,
  caught, notify_first, outcome_of, Endpoint, binds, connects, tcp,
}
use zguide_examples.CommandLine.Values.{
  number_given, text_given, number_of-store, text_of-store, notify_first-outcome_of,
}

unfoldable pub rrbroker_options : List Spec
rrbroker_options =
    help_option
    ∷ number_option (codes "frontend-port") none 5559
    ∷ number_option (codes "backend-port") none 5560
    ∷ []

unfoldable pub rrbroker_sockets : Dict Value → Result (List Endpoint)
rrbroker_sockets vm = do
  front_port ← number_of (codes "frontend-port") vm
  back_port ← number_of (codes "backend-port") vm
  ok (binds (tcp (codes "*") front_port) ∷ binds (tcp (codes "*") back_port) ∷ [])

unfoldable pub rrbroker : ProgramOptions → List Bytes → Result (Outcome (List Endpoint))
unfolding rrbroker_sockets
rrbroker po args = caught (notify_first po rrbroker_options rrbroker_sockets args)

-- What it sets up, by what stands on the command line.
abbrev pub rrbroker_set : Dict Value → List Endpoint
rrbroker_set parsed =
    let front_port = number_given (codes "frontend-port") (pos 5559) parsed in
    let back_port = number_given (codes "backend-port") (pos 5560) parsed in
    binds (tcp (codes "*") front_port) ∷ binds (tcp (codes "*") back_port) ∷ []

pub rrbroker_lem :
    (po : ProgramOptions) (args : List Bytes)
    → rrbroker po args ≡ ok (outcome_of (po.run rrbroker_options args) rrbroker_set)
unfolding rrbroker rrbroker_options same
rrbroker_lem po args =
    notify_first-outcome_of po rrbroker_options rrbroker_sockets rrbroker_set args refl (λ vm. refl)
      λ parsed ran.
        rw
          (number_of-store po rrbroker_options args ran (codes "frontend-port") (pos 5559) refl
            refl)
          (rw
            (number_of-store po rrbroker_options args ran (codes "backend-port") (pos 5560) refl
              refl)
            (refl))

unfoldable pub rrclient_options : List Spec
rrclient_options =
    help_option
    ∷ text_option (codes "server") (some b's') (codes "localhost")
    ∷ number_option (codes "port") (some b'p') 5559
    ∷ number_option (codes "requests") (some b'r') 100
    ∷ []

unfoldable pub rrclient_sockets : Dict Value → Result (List Endpoint × ℤ)
rrclient_sockets vm = do
  server_addr ← text_of (codes "server") vm
  server_port ← number_of (codes "port") vm
  req_count ← number_of (codes "requests") vm
  ok ((connects (tcp server_addr server_port) ∷ [], req_count))

unfoldable pub rrclient : ProgramOptions → List Bytes → Result (Outcome (List Endpoint × ℤ))
unfolding rrclient_sockets
rrclient po args = caught (notify_first po rrclient_options rrclient_sockets args)

-- What it sets up, by what stands on the command line.
abbrev pub rrclient_set : Dict Value → List Endpoint × ℤ
rrclient_set parsed =
    let server_addr = text_given (codes "server") (codes "localhost") parsed in
    let server_port = number_given (codes "port") (pos 5559) parsed in
    let req_count = number_given (codes "requests") (pos 100) parsed in
    (connects (tcp server_addr server_port) ∷ [], req_count)

pub rrclient_lem :
    (po : ProgramOptions) (args : List Bytes)
    → rrclient po args ≡ ok (outcome_of (po.run rrclient_options args) rrclient_set)
unfolding rrclient rrclient_options same
rrclient_lem po args =
    notify_first-outcome_of po rrclient_options rrclient_sockets rrclient_set args refl (λ vm. refl)
      λ parsed ran.
        rw
          (text_of-store po rrclient_options args ran (codes "server") (codes "localhost") refl
            refl)
          (rw (number_of-store po rrclient_options args ran (codes "port") (pos 5559) refl refl) (
            rw (number_of-store po rrclient_options args ran (codes "requests") (pos 100) refl refl)
              (refl)))

unfoldable pub rrworker_options : List Spec
rrworker_options =
    help_option
    ∷ text_option (codes "broker") (some b'b') (codes "localhost")
    ∷ number_option (codes "port") (some b'p') 5560
    ∷ []

unfoldable pub rrworker_sockets : Dict Value → Result (List Endpoint)
rrworker_sockets vm = do
  broker_addr ← text_of (codes "broker") vm
  broker_port ← number_of (codes "port") vm
  ok (connects (tcp broker_addr broker_port) ∷ [])

unfoldable pub rrworker : ProgramOptions → List Bytes → Result (Outcome (List Endpoint))
unfolding rrworker_sockets
rrworker po args = caught (notify_first po rrworker_options rrworker_sockets args)

-- What it sets up, by what stands on the command line.
abbrev pub rrworker_set : Dict Value → List Endpoint
rrworker_set parsed =
    let broker_addr = text_given (codes "broker") (codes "localhost") parsed in
    let broker_port = number_given (codes "port") (pos 5560) parsed in
    connects (tcp broker_addr broker_port) ∷ []

pub rrworker_lem :
    (po : ProgramOptions) (args : List Bytes)
    → rrworker po args ≡ ok (outcome_of (po.run rrworker_options args) rrworker_set)
unfolding rrworker rrworker_options same
rrworker_lem po args =
    notify_first-outcome_of po rrworker_options rrworker_sockets rrworker_set args refl (λ vm. refl)
      λ parsed ran.
        rw
          (text_of-store po rrworker_options args ran (codes "broker") (codes "localhost") refl
            refl)
          (rw (number_of-store po rrworker_options args ran (codes "port") (pos 5560) refl refl)
            (refl))
