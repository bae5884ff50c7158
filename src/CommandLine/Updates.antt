-- ===== src/CommandLine/Updates.antt =====
-- getting-the-message-out: the command lines of wuserver.cpp and wuclient.cpp.
pub mod Forecast
use zguide_examples.Prelude.{◌≡◌, refl, none, List, [], ◌∷◌}
use zguide_examples.Prelude.Bytes.{Bytes, codes, same}
use zguide_examples.Prelude.Dict.{Dict}
use zguide_examples.Prelude.Result.{Result, ok, ◌>>=◌}
use zguide_examples.Weather.{pos}
use zguide_examples.CommandLine.{
  Value, Spec, ProgramOptions, Outcome, help_option, number_option, text_option, text_of, number_of,
  caught, notify_first, outcome_of, Endpoint, binds, connects, tcp,
}
use zguide_examples.CommandLine.Values.{
  number_given, text_given, number_of-store, text_of-store, notify_first-outcome_of,
}

unfoldable pub wuserver_options : List Spec
wuserver_options = help_option ∷ number_option (codes "port") none 5556 ∷ []

unfoldable pub wuserver_sockets : Dict Value → Result (List Endpoint)
wuserver_sockets vm = do
  portno ← number_of (codes "port") vm
  ok (binds (tcp (codes "*") portno) ∷ [])

unfoldable pub wuserver : ProgramOptions → List Bytes → Result (Outcome (List Endpoint))
unfolding wuserver_sockets
wuserver po args = caught (notify_first po wuserver_options wuserver_sockets args)

-- What it sets up, by what stands on the command line.
abbrev pub wuserver_set : Dict Value → List Endpoint
wuserver_set parsed =
    let portno = number_given (codes "port") (pos 5556) parsed in
    binds (tcp (codes "*") portno) ∷ []

pub wuserver_lem :
    (po : ProgramOptions) (args : List Bytes)
    → wuserver po args ≡ ok (outcome_of (po.run wuserver_options args) wuserver_set)
unfolding wuserver wuserver_options same
wuserver_lem po args =
    notify_first-outcome_of po wuserver_options wuserver_sockets wuserver_set args refl (λ vm. refl)
      λ parsed ran.
        rw (number_of-store po wuserver_options args ran (codes "port") (pos 5556) refl refl) (refl)

unfoldable pub wuclient_options : List Spec
wuclient_options =
    help_option
    ∷ text_option (codes "filter") none (codes "001")
    ∷ text_option (codes "server") none (codes "localhost")
    ∷ number_option (codes "port") none 5556
    ∷ []

unfoldable pub wuclient_sockets : Dict Value → Result (List Endpoint × Bytes)
wuclient_sockets vm = do
  filter ← text_of (codes "filter") vm
  addr ← text_of (codes "server") vm
  portno ← number_of (codes "port") vm
  ok ((connects (tcp addr portno) ∷ [], filter))

unfoldable pub wuclient : ProgramOptions → List Bytes → Result (Outcome (List Endpoint × Bytes))
unfolding wuclient_sockets
wuclient po args = caught (notify_first po wuclient_options wuclient_sockets args)

-- What it sets up, by what stands on the command line.
abbrev pub wuclient_set : Dict Value → List Endpoint × Bytes
wuclient_set parsed =
    let filter = text_given (codes "filter") (codes "001") parsed in
    let addr = text_given (codes "server") (codes "localhost") parsed in
    let portno = number_given (codes "port") (pos 5556) parsed in
    (connects (tcp addr portno) ∷ [], filter)

pub wuclient_lem :
    (po : ProgramOptions) (args : List Bytes)
    → wuclient po args ≡ ok (outcome_of (po.run wuclient_options args) wuclient_set)
unfolding wuclient wuclient_options same
wuclient_lem po args =
    notify_first-outcome_of po wuclient_options wuclient_sockets wuclient_set args refl (λ vm. refl)
      λ parsed ran.
        rw (text_of-store po wuclient_options args ran (codes "filter") (codes "001") refl refl) (
          rw
            (text_of-store po wuclient_options args ran (codes "server") (codes "localhost") refl
              refl)
            (rw (number_of-store po wuclient_options args ran (codes "port") (pos 5556) refl refl)
              (refl)))
