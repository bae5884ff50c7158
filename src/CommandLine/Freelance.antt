-- ===== src/CommandLine/Freelance.antt =====
-- model-one-simple-retry-and-failover: the command lines of flserver1.cpp and flclient1.cpp, where nothing
-- catches what the library throws.
use zguide_examples.Freelance.Retry.{default_endpoint}
use zguide_examples.CommandLine.{texts, optional, texts_of, uncaught_of}
use zguide_examples.CommandLine.Values.{texts_given, texts_of-store, notify_first-uncaught_of}
use zguide_examples.Prelude.{◌≡◌, refl, some, List, [], ◌∷◌}
use zguide_examples.Prelude.Bytes.{Bytes, codes, same}
use zguide_examples.Prelude.Dict.{Dict}
use zguide_examples.Prelude.Result.{Result, ok, ◌>>=◌}
use zguide_examples.Weather.{pos}
use zguide_examples.CommandLine.{
  Value, Spec, ProgramOptions, Outcome, help_option, number_option, number_of, notify_first,
  Endpoint, binds, tcp,
}
use zguide_examples.CommandLine.Values.{number_given, number_of-store}

unfoldable pub flserver1_options : List Spec
flserver1_options = help_option ∷ number_option (codes "port") (some b'p') 5555 ∷ []

unfoldable pub flserver1_sockets : Dict Value → Result (List Endpoint)
flserver1_sockets vm = do port ← number_of (codes "port") vm; ok (binds (tcp (codes "*") port) ∷ [])

unfoldable pub flserver1 : ProgramOptions → List Bytes → Result (Outcome (List Endpoint))
unfolding flserver1_sockets
flserver1 po args = notify_first po flserver1_options flserver1_sockets args

-- What it sets up, by what stands on the command line.
abbrev pub flserver1_set : Dict Value → List Endpoint
flserver1_set parsed =
    let port = number_given (codes "port") (pos 5555) parsed in binds (tcp (codes "*") port) ∷ []

pub flserver1_lem :
    (po : ProgramOptions) (args : List Bytes)
    → flserver1 po args ≡ uncaught_of (po.run flserver1_options args) flserver1_set
unfolding flserver1 flserver1_options same
flserver1_lem po args =
    notify_first-uncaught_of po flserver1_options flserver1_sockets flserver1_set args refl
      (λ vm. refl)
      λ parsed ran.
        rw (number_of-store po flserver1_options args ran (codes "port") (pos 5555) refl refl)
          (refl)

unfoldable pub flclient1_options : List Spec
flclient1_options =
    help_option
    ∷ record { name = codes "endpoints"; letter = some b'e'; kind = texts; presence = optional }
    ∷ []

-- `endpoints.push_back("localhost:5555")` if there are none.
abbrev pub or_local : List Bytes → List Bytes
or_local [] = default_endpoint ∷ []
or_local (e ∷ endpoints) = e ∷ endpoints

unfoldable pub flclient1_endpoints : Dict Value → Result (List Bytes)
flclient1_endpoints vm = do endpoints ← texts_of (codes "endpoints") vm; ok (or_local endpoints)

unfoldable pub flclient1 : ProgramOptions → List Bytes → Result (Outcome (List Bytes))
unfolding flclient1_endpoints
flclient1 po args = notify_first po flclient1_options flclient1_endpoints args

-- The endpoints on the command line, or the default one.
pub flclient1_lem :
    (po : ProgramOptions) (args : List Bytes)
    → flclient1 po args
      ≡ uncaught_of
          (po.run flclient1_options args)
          λ parsed. or_local (texts_given (codes "endpoints") parsed)
unfolding flclient1 flclient1_options same
flclient1_lem po args =
    notify_first-uncaught_of po flclient1_options flclient1_endpoints
      (λ parsed. or_local (texts_given (codes "endpoints") parsed)) args refl (λ vm. refl)
      λ parsed ran. rw (texts_of-store po flclient1_options args ran (codes "endpoints") refl) refl
