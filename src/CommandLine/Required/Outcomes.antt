-- ===== src/CommandLine/Required/Outcomes.antt =====
-- What the programs with required options come to.
use zguide_examples.Prelude.{◌≡◌, refl, List, [], ◌∷◌, ◌++◌, arith}
use zguide_examples.Prelude.Bytes.{Bytes, codes, same}
use zguide_examples.Prelude.Dict.{Dict}
use zguide_examples.Prelude.Result.{ok}
use zguide_examples.Weather.{pos, decimal}
use zguide_examples.CommandLine.{
  Value, ProgramOptions, outcome_with, Endpoint, binds, connects, tcp,
}
use zguide_examples.CommandLine.Values.{
  number_given, text_given, texts_given, number_of-store, number_of-required, text_of-required,
  texts_of-store, counted-store, help_first-outcome_with,
}
use zguide_examples.CommandLine.Required.{
  wuproxy, wuproxy_options, wuproxy_sockets, peering1, peering1_options, peering1_sockets, self_of,
  peering2, peering2_options, peering2_start, Started, map,
}

abbrev pub wuproxy_set : Dict Value → List Endpoint
wuproxy_set parsed =
    let sub_addr = text_given (codes "sub-addr") [] parsed in
    let sub_port = number_given (codes "sub-port") (pos 5556) parsed in
    let pub_addr = text_given (codes "pub-addr") [] parsed in
    let pub_port = number_given (codes "pub-port") (pos 8100) parsed in
    connects (tcp sub_addr sub_port) ∷ binds (tcp pub_addr pub_port) ∷ []

-- As the comment says: "catches any missing 'required' options, but after we've checked the 'help'
-- option".
pub wuproxy_lem :
    (po : ProgramOptions) (args : List Bytes)
    → wuproxy po args ≡ ok (outcome_with wuproxy_options (po.run wuproxy_options args) wuproxy_set)
unfolding wuproxy wuproxy_options same
wuproxy_lem po args =
    help_first-outcome_with po wuproxy_options wuproxy_sockets wuproxy_set args refl
      (λ parsed ran.
        rw (counted-store po wuproxy_options args ran (codes "sub-addr") refl)
          (rw (counted-store po wuproxy_options args ran (codes "pub-addr") refl) (refl)))
      λ parsed ran there.
        rw
          (text_of-required po wuproxy_options args ran (codes "sub-addr") [] refl refl
            (grind arith))
          (rw (number_of-store po wuproxy_options args ran (codes "sub-port") (pos 5556) refl refl)
            (rw
              (text_of-required po wuproxy_options args ran (codes "pub-addr") [] refl refl
                (grind arith))
              (rw
                (number_of-store po wuproxy_options args ran (codes "pub-port") (pos 8100) refl
                  refl)
                (refl))))

abbrev pub peering1_set : Bytes → Dict Value → Bytes × List Endpoint
peering1_set host_name parsed =
    let state_port = number_given (codes "state-port") (pos 0) parsed in
    let peers = texts_given (codes "peer-addr") parsed in
    let peer_port = number_given (codes "peer-port") (pos 0) parsed in
    (
      self_of host_name peers state_port,
      binds (tcp (codes "*") state_port) ∷ map (λ peer. connects (tcp peer peer_port)) peers,
    )

pub peering1_lem :
    (host_name : Bytes) (po : ProgramOptions) (args : List Bytes)
    → peering1 host_name po args
      ≡ ok (outcome_with peering1_options (po.run peering1_options args) (peering1_set host_name))
unfolding peering1 peering1_options same
peering1_lem host_name po args =
    help_first-outcome_with po peering1_options (peering1_sockets host_name)
      (peering1_set host_name) args refl
      (λ parsed ran. rw (counted-store po peering1_options args ran (codes "state-port") refl) (
        rw (counted-store po peering1_options args ran (codes "peer-addr") refl)
          (rw (counted-store po peering1_options args ran (codes "peer-port") refl) (refl))))
      λ parsed ran there.
        rw
          (number_of-required po peering1_options args ran (codes "state-port") (pos 0) refl refl
            (grind arith))
          (rw (texts_of-store po peering1_options args ran (codes "peer-addr") refl) (
            rw
              (number_of-required po peering1_options args ran (codes "peer-port") (pos 0) refl refl
                (grind arith))
              (refl)))

-- What peering2 is to set up: the identity of its cloud sockets, the cloud port, a connection to each
-- peer, the two local ports, and the threads with the port that each kind of them connects to.
abbrev pub peering2_set : Dict Value → Started
peering2_set parsed =
    let cloudfe_port = number_given (codes "cloud-port") (pos 0) parsed in
    let peers = texts_given (codes "peer") parsed in
    let localfe_port = number_given (codes "frontend-port") (pos 0) parsed in
    let localbe_port = number_given (codes "backend-port") (pos 0) parsed in
    let client_count = number_given (codes "clients") (pos 10) parsed in
    let worker_count = number_given (codes "workers") (pos 3) parsed in
    record {
      identity = codes "localhost:" ++ decimal cloudfe_port;
      endpoints =
          binds (codes "tcp://*:" ++ decimal cloudfe_port)
          ∷ (map (λ peer. connects (codes "tcp://" ++ peer)) peers
              ++ binds (codes "tcp://*:" ++ decimal localfe_port)
                ∷ binds (codes "tcp://*:" ++ decimal localbe_port)
                ∷ []);
      peers = peers;
      worker_count = worker_count;
      worker_addr = codes "localhost:" ++ decimal localbe_port;
      client_count = client_count;
      client_addr = codes "localhost:" ++ decimal localfe_port;
    }

-- A command line that does not parse ends with 1. With the help, the usage is printed, whatever else
-- is missing. Without it, the program ends with 1 unless the four options that are required are there;
-- then it binds its cloud port, connects to each peer, and binds its frontend and its backend port, in
-- this order; its cloud sockets are called after the cloud port; its clients connect to the frontend
-- port and its workers to the backend port, ten clients and three workers if it is not told how many. No
-- variable is read before it is written.
pub peering2_lem :
    (po : ProgramOptions) (args : List Bytes)
    → peering2 po args
      ≡ ok (outcome_with peering2_options (po.run peering2_options args) peering2_set)
unfolding peering2 peering2_options same
peering2_lem po args =
    help_first-outcome_with po peering2_options peering2_start peering2_set args refl
      (λ parsed ran. rw (counted-store po peering2_options args ran (codes "cloud-port") refl) (
        rw (counted-store po peering2_options args ran (codes "peer") refl) (
          rw (counted-store po peering2_options args ran (codes "frontend-port") refl)
            (rw (counted-store po peering2_options args ran (codes "backend-port") refl) (refl)))))
      λ parsed ran there.
        rw
          (number_of-required po peering2_options args ran (codes "cloud-port") (pos 0) refl refl
            (grind arith))
          (rw (texts_of-store po peering2_options args ran (codes "peer") refl) (
            rw
              (number_of-required po peering2_options args ran (codes "frontend-port") (pos 0) refl
                refl (grind arith))
              (rw
                (number_of-required po peering2_options args ran (codes "backend-port") (pos 0) refl
                  refl (grind arith))
                (rw
                  (number_of-store po peering2_options args ran (codes "clients") (pos 10) refl
                    refl)
                  (rw
                    (number_of-store po peering2_options args ran (codes "workers") (pos 3) refl
                      refl)
                    (refl))))))
