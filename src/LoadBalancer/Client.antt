-- ===== src/LoadBalancer/Client.antt =====
-- lbbroker.cpp: the client threads, and a request from a client to a worker and back.
use zguide_examples.Prelude.{
  ℕ, zero, suc, ◌-◌, ◌≤◌, ◌≡◌, refl, true, false, List, [], ◌∷◌, ◌++◌, arith, ap, ◌∙◌,
}
use zguide_examples.Prelude.Tests.{if◌then◌else◌}
use zguide_examples.Prelude.Lists.{length, length-append, replicate, All, All-append}
use zguide_examples.Prelude.Bytes.{Bytes, codes, same}
use zguide_examples.Prelude.Result.{Result, ok, fault, starved, ◌>>=◌}
use zguide_examples.Weather.{pos}
use zguide_examples.Zmq.Frames.{Message}
use zguide_examples.Text.Hex.{to_hex, padded, to_hex-IsHex}
use zguide_examples.LoadBalancer.{
  State, Sent, Round, to_frontend, to_backend, ready, kill, reply_ok, on_frontend, on_backend,
  worker_proc, one_less, is_zero,
}

abbrev pub hello : Bytes
hello = codes "HELLO"

-- `hex << uppercase << setw(4) << setfill('0') << num`
unfoldable pub client_id : ℕ → Bytes
client_id num = padded 4 (to_hex 65 num)

-- The request of a client, as the ROUTER socket of the broker reads it.
unfoldable pub client_request : ℕ → Message
client_request num = client_id num ∷ [] ∷ hello ∷ []

-- What a worker sends for the message that it gets, as the ROUTER socket of the broker reads it.
abbrev pub worker_answer : List Sent → Result Message
worker_answer (to_backend (worker ∷ [] ∷ frames) ∷ []) = do
  reply ← worker_proc frames
  ok (worker ∷ [] ∷ reply)
worker_answer _ = fault starved

-- A request, the work that is done for it, and the reply.
unfoldable pub serve : ℕ → State → Result Round
serve num s = do
  (s₁, sent, over) ← on_frontend (client_request num) s
  answer ← worker_answer sent
  on_backend answer s₁

-- The clients from a number on, one after the other, up to the one with which the loop is left; the
-- others are not looked at.
unfoldable pub serve_all : ℕ → ℕ → State → Result Round
serve_all num zero s = ok (s, [], false)
serve_all num (suc left) s = do
  (s₁, sent, over) ← serve num s
  let rest = serve_all (suc num) left s₁
  if over
      then ok (s₁, sent, true)
      else (do (s₂, later, ended) ← rest; ok (s₂, sent ++ later, ended))

same_above : (s : Bytes) (c : ℕ) (t : Bytes) → All (λ d. d ≤ 70) s → 71 ≤ c → same s (c ∷ t) ≡ false
unfolding same
same_above [] c t a h = refl
same_above (d ∷ s) c t a h = ground (arith, a.0)

zeros-IsHex : (k : ℕ) → All (λ (d : ℕ). d ≤ 70) (replicate k 48)
zeros-IsHex zero = tt
zeros-IsHex (suc k) = (omega arith, zeros-IsHex k)

client_id-IsHex : (num : ℕ) → All (λ d. d ≤ 70) (client_id num)
unfolding client_id padded
client_id-IsHex num =
    All-append (λ d. d ≤ 70) (replicate (4 - length (to_hex 65 num)) 48) (to_hex 65 num)
      (zeros-IsHex (4 - length (to_hex 65 num))) (to_hex-IsHex num)

-- The identity of a client is taken for neither word.
client_id_plain :
    (num : ℕ) → (same (client_id num) ready ≡ false) × (same (client_id num) kill ≡ false)
client_id_plain num = (
  same_above (client_id num) 82 (codes "EADY") (client_id-IsHex num) (omega arith),
  same_above (client_id num) 75 (codes "ILL") (client_id-IsHex num) (omega arith),
)

abbrev pub reply_to : ℕ → Sent
reply_to num = to_frontend (client_id num ∷ [] ∷ reply_ok ∷ [])

serve-reply_to :
    (num : ℕ) (worker : Bytes) (q : List Bytes) (s : State)
    → s.worker_queue ≡ worker ∷ q
    → serve num s
      ≡ ok (
        record { worker_queue = q ++ worker ∷ []; client_count = one_less s.client_count },
        reply_to num ∷ [],
        is_zero (one_less s.client_count),
      )
unfolding serve client_request on_frontend on_backend worker_proc
serve-reply_to num worker q s e =
    let (not_ready, not_kill) = client_id_plain num in rw e (rw not_kill (rw not_ready refl))

abbrev pub replies_to : ℕ → ℕ → List Sent
replies_to num zero = []
replies_to num (suc left) = reply_to num ∷ replies_to (suc num) left

behind-nonempty :
    (q : List Bytes) (w : Bytes) → (v : Bytes) × (r : List Bytes) × (q ++ w ∷ [] ≡ v ∷ r)
behind-nonempty [] w = (w, [], refl)
behind-nonempty (v ∷ q) w = (v, q ++ w ∷ [], refl)

length-rotated :
    (s : State) (w : Bytes) (q : List Bytes)
    → s.worker_queue ≡ w ∷ q
    → length (q ++ w ∷ []) ≡ length s.worker_queue
length-rotated s w q e = omega (arith, length-append q (w ∷ []), ap length e)

-- When as many clients as are awaited ask, one after the other, and a worker is ready, each gets the
-- reply of a worker, in order; the loop is left with the last of them and not before, and as many
-- workers are ready as at the start.
pub serve_all-replies_to :
    (num left : ℕ) (worker : Bytes) (q : List Bytes) (s : State)
    → s.worker_queue ≡ worker ∷ q
    → s.client_count ≡ pos (suc left)
    → (s' : State) × (serve_all num (suc left) s ≡ ok (s', replies_to num (suc left), true))
      × (s'.client_count ≡ pos 0)
      × (length s'.worker_queue ≡ length s.worker_queue)
unfolding serve_all
serve_all-replies_to num zero worker q s e h = (
  record { worker_queue = q ++ worker ∷ []; client_count = one_less s.client_count },
  rw (serve-reply_to num worker q s e) (rw (ap one_less h) refl),
  ap one_less h,
  length-rotated s worker q e,
)
serve_all-replies_to num (suc left) worker q s e h =
    let s₁ : State = record {
      worker_queue = q ++ worker ∷ [];
      client_count = one_less s.client_count;
    } in
    let (v, r, e₁) = behind-nonempty q worker in
    let more : is_zero (one_less s.client_count) ≡ false = ap (λ c. is_zero (one_less c)) h in
    let (s₂, later, none_left, same_workers) =
      serve_all-replies_to (suc num) left v r s₁ e₁ (ap one_less h) in
    (
      s₂,
      rw (serve-reply_to num worker q s e) (rw more (rw later refl)),
      none_left,
      same_workers ∙ length-rotated s worker q e,
    )
