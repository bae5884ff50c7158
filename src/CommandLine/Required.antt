-- ===== src/CommandLine/Required.antt =====
-- The programs with options that are required: transport-bridging/wuproxy.cpp,
-- prototyping-the-state-flow/peering1.cpp and prototyping-the-local-and-cloud-flows/peering2.cpp.
pub mod Outcomes
use zguide_examples.Prelude.{◌++◌}
use zguide_examples.Prelude.{◌≡◌, refl, none, some, List, [], ◌∷◌, map}
use zguide_examples.Prelude.Bytes.{Bytes, codes, same}
use zguide_examples.Prelude.Dict.{Dict}
use zguide_examples.Prelude.Result.{Result, ok, ◌>>=◌}
use zguide_examples.Weather.{ℤ, pos, decimal}
use zguide_examples.StateFlow.{remote_peers, localhost}
use zguide_examples.CommandLine.{
  Value, Spec, ProgramOptions, Outcome, help_option, number_option, required_option, text_of,
  number_of, caught, help_first, Endpoint, binds, connects, tcp, text, texts_of, if◌then◌else◌,
  number, texts, false,
}

unfoldable pub wuproxy_options : List Spec
wuproxy_options =
    help_option
    ∷ required_option (codes "sub-addr") text
    ∷ number_option (codes "sub-port") none 5556
    ∷ required_option (codes "pub-addr") text
    ∷ number_option (codes "pub-port") none 8100
    ∷ []

unfoldable pub wuproxy_sockets : Dict Value → Result (List Endpoint)
wuproxy_sockets vm = do
  sub_addr ← text_of (codes "sub-addr") vm
  sub_port ← number_of (codes "sub-port") vm
  pub_addr ← text_of (codes "pub-addr") vm
  pub_port ← number_of (codes "pub-port") vm
  ok (connects (tcp sub_addr sub_port) ∷ binds (tcp pub_addr pub_port) ∷ [])

unfoldable pub wuproxy : ProgramOptions → List Bytes → Result (Outcome (List Endpoint))
unfolding wuproxy_sockets
wuproxy po args = caught (help_first po wuproxy_options wuproxy_sockets args)

unfoldable pub peering1_options : List Spec
peering1_options =
    help_option
    ∷ required_option (codes "state-port") number
    ∷ required_option (codes "peer-addr") texts
    ∷ required_option (codes "peer-port") number
    ∷ []

-- The name of the broker, by what the library calls the host.
abbrev pub self_of : Bytes → List Bytes → ℤ → Bytes
self_of host_name peers state_port =
    (if remote_peers false peers then host_name else localhost) ++ codes ":" ++ decimal state_port

unfoldable pub peering1_sockets : Bytes → Dict Value → Result (Bytes × List Endpoint)
peering1_sockets host_name vm = do
  state_port ← number_of (codes "state-port") vm
  peers ← texts_of (codes "peer-addr") vm
  peer_port ← number_of (codes "peer-port") vm
  ok (
    self_of host_name peers state_port,
    binds (tcp (codes "*") state_port) ∷ map (λ peer. connects (tcp peer peer_port)) peers,
  )

unfoldable pub peering1 :
    Bytes → ProgramOptions → List Bytes → Result (Outcome (Bytes × List Endpoint))
unfolding peering1_sockets
peering1 host_name po args =
    caught (help_first po peering1_options (peering1_sockets host_name) args)

unfoldable pub peering2_options : List Spec
peering2_options =
    help_option
    ∷ required_option (codes "cloud-port") number
    ∷ required_option (codes "peer") texts
    ∷ required_option (codes "frontend-port") number
    ∷ required_option (codes "backend-port") number
    ∷ number_option (codes "clients") none 10
    ∷ number_option (codes "workers") none 3
    ∷ []

-- The identity of both cloud sockets; the peers; the counts of the threads, and where they connect to.
pub record Started : Type 0 where
  pub identity : Bytes
  pub endpoints : List Endpoint
  pub peers : List Bytes
  pub worker_count : ℤ
  pub worker_addr : Bytes
  pub client_count : ℤ
  pub client_addr : Bytes

abbrev pub on_localhost : ℤ → Bytes
on_localhost port = codes "localhost:" ++ decimal port

abbrev pub started : ℤ → List Bytes → ℤ → ℤ → ℤ → ℤ → Started
started cloudfe_port peers localfe_port localbe_port client_count worker_count = record {
  identity = on_localhost cloudfe_port;
  endpoints =
      binds (tcp (codes "*") cloudfe_port)
      ∷ (map (λ peer. connects (codes "tcp://" ++ peer)) peers
          ++ binds (tcp (codes "*") localfe_port) ∷ binds (tcp (codes "*") localbe_port) ∷ []);
  peers = peers;
  worker_count = worker_count;
  worker_addr = on_localhost localbe_port;
  client_count = client_count;
  client_addr = on_localhost localfe_port;
}

unfoldable pub peering2_start : Dict Value → Result Started
peering2_start vm = do
  cloudfe_port ← number_of (codes "cloud-port") vm
  peers ← texts_of (codes "peer") vm
  localfe_port ← number_of (codes "frontend-port") vm
  localbe_port ← number_of (codes "backend-port") vm
  client_count ← number_of (codes "clients") vm
  worker_count ← number_of (codes "workers") vm
  ok (started cloudfe_port peers localfe_port localbe_port client_count worker_count)

unfoldable pub peering2 : ProgramOptions → List Bytes → Result (Outcome Started)
unfolding peering2_start
peering2 po args = caught (help_first po peering2_options peering2_start args)
