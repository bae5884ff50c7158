-- ===== src/Freelance/Server.antt =====
-- What a client knows of one server: model-three-complex-and-nasty/flcliserver.hpp. A reading of
-- the clock is an argument, in milliseconds.
use zguide_examples.Prelude.{ℕ, ◌+◌, Bool, false}
use zguide_examples.Prelude.Tests.{leb}
use zguide_examples.Prelude.Bytes.{Bytes}

abbrev pub ping_interval : ℕ
ping_interval = 2000

abbrev pub server_ttl : ℕ
server_ttl = 6000

pub record Server : Type 0 where
  pub endpoint : Bytes
  pub alive : Bool
  pub ping_at : ℕ
  pub expires : ℕ

unfoldable pub next_ping : ℕ → ℕ → Server → Server
next_ping now interval s = record s { ping_at = now + interval }

unfoldable pub ttl : ℕ → ℕ → Server → Server
ttl now interval s = record s { expires = now + interval }

unfoldable pub set_alive : Bool → Server → Server
set_alive v s = record s { alive = v }

unfoldable pub expired : ℕ → Server → Bool
expired now s = leb s.expires now

-- The constructor: not alive, with its first ping and its deadline set.
unfoldable pub new : ℕ → Bytes → Server
unfolding next_ping ttl
new now endpoint = ttl now server_ttl (
    next_ping now ping_interval
      (record { endpoint = endpoint; alive = false; ping_at = 0; expires = 0 }))

-- `next_ping` and `ttl`, as the agent calls them when it has heard of the server.
unfoldable pub heard : ℕ → Server → Server
unfolding next_ping ttl
heard now s = ttl now server_ttl (next_ping now ping_interval s)
