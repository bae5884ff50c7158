-- ===== src/CommandLine/Readers.antt =====
-- handling-multiple-sockets: the command lines of mspoller.cpp and msreader.cpp.
pub mod Filter
use zguide_examples.Prelude.{◌≡◌, refl, none, some, List, [], ◌∷◌}
use zguide_examples.Prelude.Bytes.{Bytes, codes, same}
use zguide_examples.Prelude.Dict.{Dict}
use zguide_examples.Prelude.Result.{Result, ok, ◌>>=◌}
use zguide_examples.Weather.{ℤ, pos}
use zguide_examples.CommandLine.{
  Value, Spec, ProgramOptions, Outcome, help_option, number_option, text_option, text_of, number_of,
  caught, notify_first, outcome_of, Endpoint, binds, connects, tcp,
}
use zguide_examples.CommandLine.Values.{
  number_given, text_given, number_of-store, text_of-store, notify_first-outcome_of,
}

unfoldable pub mspoller_options : List Spec
mspoller_options =
    help_option
    ∷ text_option (codes "vent-addr") none (codes "localhost")
    ∷ number_option (codes "vent-port") none 5557
    ∷ text_option (codes "pub-addr") none (codes "localhost")
    ∷ number_option (codes "pub-port") none 5556
    ∷ text_option (codes "pub-filter") none (codes "001")
    ∷ []

unfoldable pub mspoller_sockets : Dict Value → Result (List Endpoint × Bytes)
mspoller_sockets vm = do
  vent_addr ← text_of (codes "vent-addr") vm
  vent_port ← number_of (codes "vent-port") vm
  pub_addr ← text_of (codes "pub-addr") vm
  pub_port ← number_of (codes "pub-port") vm
  pub_filter ← text_of (codes "pub-filter") vm
  ok ((connects (tcp vent_addr vent_port) ∷ connects (tcp pub_addr pub_port) ∷ [], pub_filter))

unfoldable pub mspoller : ProgramOptions → List Bytes → Result (Outcome (List Endpoint × Bytes))
unfolding mspoller_sockets
mspoller po args = caught (notify_first po mspoller_options mspoller_sockets args)

-- What it sets up, by what stands on the command line.
abbrev pub mspoller_set : Dict Value → List Endpoint × Bytes
mspoller_set parsed =
    let vent_addr = text_given (codes "vent-addr") (codes "localhost") parsed in
    let vent_port = number_given (codes "vent-port") (pos 5557) parsed in
    let pub_addr = text_given (codes "pub-addr") (codes "localhost") parsed in
    let pub_port = number_given (codes "pub-port") (pos 5556) parsed in
    let pub_filter = text_given (codes "pub-filter") (codes "001") parsed in
    (connects (tcp vent_addr vent_port) ∷ connects (tcp pub_addr pub_port) ∷ [], pub_filter)

pub mspoller_lem :
    (po : ProgramOptions) (args : List Bytes)
    → mspoller po args ≡ ok (outcome_of (po.run mspoller_options args) mspoller_set)
unfolding mspoller mspoller_options same
mspoller_lem po args =
    notify_first-outcome_of po mspoller_options mspoller_sockets mspoller_set args refl (λ vm. refl)
      λ parsed ran.
        rw
          (text_of-store po mspoller_options args ran (codes "vent-addr") (codes "localhost") refl
            refl)
          (rw
            (number_of-store po mspoller_options args ran (codes "vent-port") (pos 5557) refl refl)
            (rw
              (text_of-store po mspoller_options args ran (codes "pub-addr") (codes "localhost")
                refl refl)
              (rw
                (number_of-store po mspoller_options args ran (codes "pub-port") (pos 5556) refl
                  refl)
                (rw
                  (text_of-store po mspoller_options args ran (codes "pub-filter") (codes "001")
                    refl refl)
                  (refl)))))

unfoldable pub msreader_options : List Spec
msreader_options =
    help_option
    ∷ text_option (codes "vent-addr") none (codes "localhost")
    ∷ number_option (codes "vent-port") none 5557
    ∷ text_option (codes "pub-addr") none (codes "localhost")
    ∷ number_option (codes "pub-port") none 5556
    ∷ text_option (codes "pub-filter") none (codes "001")
    ∷ []

unfoldable pub msreader_sockets : Dict Value → Result (List Endpoint × Bytes)
msreader_sockets vm = do
  vent_addr ← text_of (codes "vent-addr") vm
  vent_port ← number_of (codes "vent-port") vm
  pub_addr ← text_of (codes "pub-addr") vm
  pub_port ← number_of (codes "pub-port") vm
  pub_filter ← text_of (codes "pub-filter") vm
  ok ((connects (tcp vent_addr vent_port) ∷ connects (tcp pub_addr pub_port) ∷ [], pub_filter))

unfoldable pub msreader : ProgramOptions → List Bytes → Result (Outcome (List Endpoint × Bytes))
unfolding msreader_sockets
msreader po args = caught (notify_first po msreader_options msreader_sockets args)

-- What it sets up, by what stands on the command line.
abbrev pub msreader_set : Dict Value → List Endpoint × Bytes
msreader_set parsed =
    let vent_addr = text_given (codes "vent-addr") (codes "localhost") parsed in
    let vent_port = number_given (codes "vent-port") (pos 5557) parsed in
    let pub_addr = text_given (codes "pub-addr") (codes "localhost") parsed in
    let pub_port = number_given (codes "pub-port") (pos 5556) parsed in
    let pub_filter = text_given (codes "pub-filter") (codes "001") parsed in
    (connects (tcp vent_addr vent_port) ∷ connects (tcp pub_addr pub_port) ∷ [], pub_filter)

pub msreader_lem :
    (po : ProgramOptions) (args : List Bytes)
    → msreader po args ≡ ok (outcome_of (po.run msreader_options args) msreader_set)
unfolding msreader msreader_options same
msreader_lem po args =
    notify_first-outcome_of po msreader_options msreader_sockets msreader_set args refl (λ vm. refl)
      λ parsed ran.
        rw
          (text_of-store po msreader_options args ran (codes "vent-addr") (codes "localhost") refl
            refl)
          (rw
            (number_of-store po msreader_options args ran (codes "vent-port") (pos 5557) refl refl)
            (rw
              (text_of-store po msreader_options args ran (codes "pub-addr") (codes "localhost")
                refl refl)
              (rw
                (number_of-store po msreader_options args ran (codes "pub-port") (pos 5556) refl
                  refl)
                (rw
                  (text_of-store po msreader_options args ran (codes "pub-filter") (codes "001")
                    refl refl)
                  (refl)))))
