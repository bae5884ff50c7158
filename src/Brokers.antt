-- ===== src/Brokers.antt =====
-- What the brokers have in common: a line of workers, of which each request takes the first.
pub mod Agree
pub mod Paranoid
pub mod Peers
use zguide_examples.Prelude.{
  ℕ, ◌+◌, ◌≤◌, ◌<◌, ◌≡◌, refl, ap, sym, ◌∙◌, Bool, true, false, List, [], ◌∷◌, ◌++◌, arith,
  append_assoc, append-nil,
}
use zguide_examples.Prelude.Lists.{All, length, length-append}
use zguide_examples.Prelude.Bytes.{keys, Bytes, same}
use zguide_examples.Prelude.Result.{Result, ok, ◌>>=◌}
use zguide_examples.Zmq.Frames.{Message}
use zguide_examples.Peering.{is_empty}
use zguide_examples.ParanoidPirate.Workers.Identities.{member, Distinct, member-append}

-- A request of a client, as the ROUTER socket of a broker reads it.
pub record Request : Type 0 where
  pub client : Bytes
  pub content : Bytes

abbrev pub frames_of : Request → Message
frames_of r = r.client ∷ [] ∷ r.content ∷ []

-- A broker with the state `Q`: `joins` is what it does when a worker says that it is ready, and `serves`
-- what it does with a request, with the worker to which the request goes. `IsServing` is
-- what holds of its state between the rounds. A ROUTER socket never gives an empty identity.
pub record Broker (Q : Type 0) : Type 1 where
  pub capacity : ℕ
  pub IsServing : Q → Type 0
  pub waiting : Q → List Bytes
  pub joins : Bytes → Q → Result Q
  pub serves : Request → Q → Result (Q × Bytes)
  pub joins-waiting :
      (k : Bytes) (q : Q)
      → IsServing q
      → is_empty k ≡ false
      → length (waiting q) < capacity
      → member k (waiting q) ≡ false
      → (q' : Q) × (joins k q ≡ ok q') × IsServing q' × (waiting q' ≡ waiting q ++ k ∷ [])
  pub serves-waiting :
      (request : Request) (k : Bytes) (r : List Bytes) (q : Q)
      → IsServing q
      → waiting q ≡ k ∷ r
      → (q' : Q) × (serves request q ≡ ok (q', k)) × IsServing q' × (waiting q' ≡ r)

middle-new : (p q : List Bytes) (k : Bytes) → Distinct (p ++ k ∷ q) → member k p ≡ false
unfolding member
middle-new [] q k d = refl
middle-new (j ∷ p) q k d = grind (keys, member-append j p (k ∷ q), middle-new p q k d.1, d.0)

module _ {Q : Type 0} (b : Broker Q) where
  unfoldable pub join_all : List Bytes → Q → Result Q
  join_all [] q = ok q
  join_all (k ∷ workers) q = do q' ← b.joins k q; join_all workers q'

  -- The workers to which some requests go, in order.
  unfoldable pub serve_all : List Request → Q → Result (List Bytes)
  serve_all [] q = ok []
  serve_all (request ∷ requests) q = do
    (q', k) ← b.serves request q
    rest ← serve_all requests q'
    ok (k ∷ rest)

  -- Workers that become ready one after the other, and then requests.
  unfoldable pub assigned : List Bytes → List Request → Q → Result (List Bytes)
  unfolding join_all serve_all
  assigned workers requests q = do q' ← join_all workers q; serve_all requests q'

  join_all-waiting :
      (workers before : List Bytes) (q : Q)
      → b.IsServing q
      → All (λ k. is_empty k ≡ false) workers
      → b.waiting q ≡ before
      → length before + length workers ≤ b.capacity
      → Distinct (before ++ workers)
      → (q' : Q) × (join_all workers q ≡ ok q')
        × b.IsServing q'
        × (b.waiting q' ≡ before ++ workers)
  unfolding join_all
  join_all-waiting [] before q s a e h d = (q, refl, s, e ∙ sym (append-nil before))
  join_all-waiting (k ∷ workers) before q s a e h d =
      let new : member k (b.waiting q) ≡ false = rw e (middle-new before workers k d) in
      let room : length (b.waiting q) < b.capacity = rw e (omega arith) in
      let (q₁, joined, s₁, e₁) = b.joins-waiting k q s a.0 room new in
      let regroup = append_assoc before (k ∷ []) workers in
      let more = length-append before (k ∷ []) in
      let (q₂, rest, s₂, e₂) =
        join_all-waiting workers (before ++ k ∷ []) q₁ s₁ a.1 (e₁ ∙ ap (λ l. l ++ k ∷ []) e)
          (omega (arith, more)) (rw regroup d) in
      (q₂, rw joined rest, s₂, e₂ ∙ regroup)

  serve_all-waiting :
      (workers : List Bytes) (requests : List Request) (q : Q)
      → b.IsServing q
      → b.waiting q ≡ workers
      → length requests ≡ length workers
      → serve_all requests q ≡ ok workers
  unfolding serve_all
  serve_all-waiting [] [] q s e h = refl
  serve_all-waiting [] (r ∷ requests) q s e h = absurd (omega arith)
  serve_all-waiting (k ∷ workers) [] q s e h = absurd (omega arith)
  serve_all-waiting (k ∷ workers) (r ∷ requests) q s e h =
      let (q', served, s', e') = b.serves-waiting r k workers q s e in
      rw served (rw (serve_all-waiting workers requests q' s' e' (omega arith)) refl)

  -- From an empty line, if the workers are different and there is room for all, and as many requests
  -- come, each request goes to the worker in its place.
  pub assigned_in_order :
      (workers : List Bytes) (requests : List Request) (q : Q)
      → b.IsServing q
      → b.waiting q ≡ []
      → length workers ≤ b.capacity
      → All (λ k. is_empty k ≡ false) workers
      → Distinct workers
      → length requests ≡ length workers
      → assigned workers requests q ≡ ok workers
  unfolding assigned
  assigned_in_order workers requests q s e h a d k =
      let (q', joined, s', e') = join_all-waiting workers [] q s a e (omega arith) d in
      rw joined (serve_all-waiting workers requests q' s' e' k)
