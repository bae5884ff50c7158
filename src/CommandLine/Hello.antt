-- ===== src/CommandLine/Hello.antt =====
-- ask-and-ye-shall-receive: the command lines of hwserver.cpp and hwclient.cpp.
use zguide_examples.Prelude.{◌≡◌, refl, some, List, [], ◌∷◌}
use zguide_examples.Prelude.Bytes.{Bytes, codes, same}
use zguide_examples.Prelude.Dict.{Dict}
use zguide_examples.Prelude.Result.{Result, ok, ◌>>=◌}
use zguide_examples.Weather.{pos}
use zguide_examples.CommandLine.{
  Value, Spec, ProgramOptions, Outcome, help_option, number_option, text_option, text_of, number_of,
  caught, notify_first, outcome_of, Endpoint, binds, connects, tcp,
}
use zguide_examples.CommandLine.Values.{
  number_given, text_given, number_of-store, text_of-store, notify_first-outcome_of,
}

unfoldable pub hwserver_options : List Spec
hwserver_options =
    help_option
    ∷ text_option (codes "address") (some b'a') (codes "*")
    ∷ number_option (codes "port") (some b'p') 5555
    ∷ []

unfoldable pub hwserver_sockets : Dict Value → Result (List Endpoint)
hwserver_sockets vm = do
  addr ← text_of (codes "address") vm
  portno ← number_of (codes "port") vm
  ok (binds (tcp addr portno) ∷ [])

unfoldable pub hwserver : ProgramOptions → List Bytes → Result (Outcome (List Endpoint))
unfolding hwserver_sockets
hwserver po args = caught (notify_first po hwserver_options hwserver_sockets args)

-- What it sets up, by what stands on the command line.
abbrev pub hwserver_set : Dict Value → List Endpoint
hwserver_set parsed =
    let addr = text_given (codes "address") (codes "*") parsed in
    let portno = number_given (codes "port") (pos 5555) parsed in binds (tcp addr portno) ∷ []

pub hwserver_lem :
    (po : ProgramOptions) (args : List Bytes)
    → hwserver po args ≡ ok (outcome_of (po.run hwserver_options args) hwserver_set)
unfolding hwserver hwserver_options same
hwserver_lem po args =
    notify_first-outcome_of po hwserver_options hwserver_sockets hwserver_set args refl (λ vm. refl)
      λ parsed ran.
        rw (text_of-store po hwserver_options args ran (codes "address") (codes "*") refl refl) (
          rw (number_of-store po hwserver_options args ran (codes "port") (pos 5555) refl refl)
            (refl))

unfoldable pub hwclient_options : List Spec
hwclient_options =
    help_option
    ∷ text_option (codes "server") (some b's') (codes "localhost")
    ∷ number_option (codes "port") (some b'p') 5555
    ∷ []

unfoldable pub hwclient_sockets : Dict Value → Result (List Endpoint)
hwclient_sockets vm = do
  addr ← text_of (codes "server") vm
  portno ← number_of (codes "port") vm
  ok (connects (tcp addr portno) ∷ [])

unfoldable pub hwclient : ProgramOptions → List Bytes → Result (Outcome (List Endpoint))
unfolding hwclient_sockets
hwclient po args = caught (notify_first po hwclient_options hwclient_sockets args)

-- What it sets up, by what stands on the command line.
abbrev pub hwclient_set : Dict Value → List Endpoint
hwclient_set parsed =
    let addr = text_given (codes "server") (codes "localhost") parsed in
    let portno = number_given (codes "port") (pos 5555) parsed in connects (tcp addr portno) ∷ []

pub hwclient_lem :
    (po : ProgramOptions) (args : List Bytes)
    → hwclient po args ≡ ok (outcome_of (po.run hwclient_options args) hwclient_set)
unfolding hwclient hwclient_options same
hwclient_lem po args =
    notify_first-outcome_of po hwclient_options hwclient_sockets hwclient_set args refl (λ vm. refl)
      λ parsed ran.
        rw
          (text_of-store po hwclient_options args ran (codes "server") (codes "localhost") refl
            refl)
          (rw (number_of-store po hwclient_options args ran (codes "port") (pos 5555) refl refl)
            (refl))
