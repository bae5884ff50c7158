-- ===== src/HelloWorld.antt =====
-- The first programs: ask-and-ye-shall-receive/hwclient.cpp and hwserver.cpp, and the threads of
-- multithreading-with-zeromq/mtserver.cpp. A REQ socket sends the next request only when it has the
-- reply to the one before.
use zguide_examples.Prelude.{ℕ, zero, suc, ◌*◌, ◌≡◌, refl, ap, List, [], ◌∷◌, ◌++◌, arith}
use zguide_examples.Prelude.Lists.{length}
use zguide_examples.Prelude.Bytes.{Bytes, codes}
use zguide_examples.Freelance.Sequence.{to_string}

abbrev pub hello : Bytes
hello = codes "Hello"

-- The reply of hwserver, whatever it receives.
unfoldable pub hwserver : Bytes → Bytes
hwserver request = codes "World"

-- The reply of a thread of mtserver: six bytes, with the zero behind the text.
unfoldable pub worker_proc : Bytes → Bytes
worker_proc request = codes "World" ++ 0 ∷ []

-- What the client prints before and behind a request.
abbrev pub sending : ℕ → Bytes
sending request_nbr = codes "client: Sending Hello " ++ to_string request_nbr ++ codes "..."

abbrev pub receiving : ℕ → Bytes
receiving request_nbr = codes "client: Received Word " ++ to_string request_nbr

-- The loop of the client from a number on, with the server that answers: the replies that it reads
-- and the lines that it prints.
unfoldable pub client : (Bytes → Bytes) → ℕ → ℕ → List Bytes × List Bytes
client server request_nbr zero = ([], [])
client server request_nbr (suc left) =
    let (replies, lines) = client server (suc request_nbr) left in
    (server hello ∷ replies, sending request_nbr ∷ receiving request_nbr ∷ lines)

-- `request_nbr < 10`
abbrev pub requests : ℕ
requests = 10

length-client :
    (server : Bytes → Bytes) (request_nbr left : ℕ)
    → (length (client server request_nbr left).0 ≡ left)
      × (length (client server request_nbr left).1 ≡ 2 * left)
unfolding client
length-client server request_nbr zero = (refl, omega arith)
length-client server request_nbr (suc left) =
    let (replies, lines) = length-client server (suc request_nbr) left in
    (ap suc replies, omega (arith, lines))

client_lines :
    (first second : Bytes → Bytes) (request_nbr left : ℕ)
    → (client first request_nbr left).1 ≡ (client second request_nbr left).1
unfolding client
client_lines first second request_nbr zero = refl
client_lines first second request_nbr (suc left) =
    ap (λ l. sending request_nbr ∷ receiving request_nbr ∷ l)
      (client_lines first second (suc request_nbr) left)

-- The client reads ten replies and prints the same lines whichever of the two servers answers, two
-- for each request: it does not look at the reply, so that the zero byte of mtserver does not show.
pub client_alike :
    (length (client hwserver 0 requests).0 ≡ requests)
    × (length (client worker_proc 0 requests).1 ≡ 2 * requests)
    × ((client hwserver 0 requests).1 ≡ (client worker_proc 0 requests).1)
client_alike = (
  (length-client hwserver 0 requests).0,
  (length-client worker_proc 0 requests).1,
  client_lines hwserver worker_proc 0 requests,
)
