-- ===== src/CommandLine/SharedQueue/Rounds.antt =====
-- `req_no < req_count` of extended-request-reply/rrclient.cpp, and the same for the threads of
-- prototyping-the-local-and-cloud-flows/peering2.cpp: an `int` against a `size_t` of 32 bits.
use zguide_examples.RequestReply.Client.{client, reply_texts, client_answered}
use zguide_examples.Prelude.{List, ◌∷◌, zero, ap}
use zguide_examples.Prelude.Bytes.{Bytes}
use zguide_examples.Prelude.Result.{ok}
use zguide_examples.Prelude.{ℕ, suc, ◌-◌, ◌^◌, ◌≤◌, ◌<◌, ◌≡◌, refl, arith}
use zguide_examples.Prelude.Lists.{length}
use zguide_examples.Weather.{ℤ, pos, negsuc}

-- The `int` as it is compared.
abbrev pub as_size : ℤ → ℕ
as_size (pos n) = n
as_size (negsuc n) = 2 ^ 32 - suc n

length-reply_texts : (req_no left : ℕ) → length (reply_texts req_no left) ≡ left
length-reply_texts req_no zero = refl
length-reply_texts req_no (suc left) = ap suc (length-reply_texts (suc req_no) left)

-- The client sends as many requests as it was told, each answered, if the number is not negative. A
-- negative one is compared as a large one: it then sends 2 ^ 31 requests or more.
pub requests_sent :
    (c : ℕ) (s : Bytes) (n : ℕ)
    → n < 2 ^ 31
    → ((lines : List Bytes) × (client (c ∷ s) 0 (as_size (pos n)) ≡ ok lines) × (length lines ≡ n))
      × ((lines : List Bytes) × (client (c ∷ s) 0 (as_size (negsuc n)) ≡ ok lines)
          × (2 ^ 31 ≤ length lines))
requests_sent c s n h = (
  (
    reply_texts 0 (as_size (pos n)),
    client_answered c s 0 (as_size (pos n)),
    length-reply_texts 0 (as_size (pos n)),
  ),
  (
    reply_texts 0 (as_size (negsuc n)),
    client_answered c s 0 (as_size (negsuc n)),
    omega (arith, length-reply_texts 0 (as_size (negsuc n))),
  ),
)
