-- ===== src/CommandLine/Arguments.antt =====
-- The programs that read `argv` themselves: last-value-caching (pathopub.cpp, pathosub.cpp) and
-- model-two-brutal-shotgun-massacre (flclient2.cpp, flserver2.cpp). The first argument is the program.
use zguide_examples.Prelude.{List, [], ◌∷◌, ◌++◌, map}
use zguide_examples.Prelude.Bytes.{Bytes, codes}
use zguide_examples.CommandLine.{Endpoint, binds, connects, Outcome, usage, running}

-- `argc == 2`
unfoldable pub pathopub : List Bytes → Endpoint
pathopub (_ ∷ port ∷ []) = binds (codes "tcp://*:" ++ port)
pathopub _ = binds (codes "tcp://*:" ++ codes "5556")

unfoldable pub pathosub : List Bytes → Endpoint
pathosub (_ ∷ address ∷ []) = connects (codes "tcp://" ++ address)
pathosub _ = connects (codes "tcp://localhost:5556")

-- `argc == 1`; each argument is a server, counted in `servers_`.
unfoldable pub flclient2 : List Bytes → Outcome (List Endpoint)
flclient2 (_ ∷ []) = usage
flclient2 [] = running []
flclient2 (_ ∷ a ∷ args) = running (map (λ ep. connects (codes "tcp://" ++ ep)) (a ∷ args))

-- `argc < 2`
unfoldable pub flserver2 : List Bytes → Outcome Endpoint
flserver2 [] = usage
flserver2 (_ ∷ []) = usage
flserver2 (_ ∷ port ∷ _) = running (binds (codes "tcp://*:" ++ port))
