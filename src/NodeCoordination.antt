-- ===== src/NodeCoordination.antt =====
-- Coordinated publishing: node-coordination/syncpub.cpp and syncsub.cpp.
use zguide_examples.Prelude.{ℕ, zero, suc, ◌+◌, ◌≡◌, ap, ◌∙◌, List, [], ◌∷◌, ◌++◌, arith}
use zguide_examples.Prelude.Tests.{ltb, lt→ltb, if◌then◌else◌}
use zguide_examples.Prelude.Lists.{length, replicate}
use zguide_examples.Prelude.Bytes.{Bytes, codes, same}
use zguide_examples.Prelude.Result.{Result, ok, fault, starved, ◌>>=◌}

abbrev pub subscribers_expected : ℕ
subscribers_expected = 10

abbrev pub rhubarb : Bytes
rhubarb = codes "Rhubarb"

abbrev pub end_mark : Bytes
end_mark = codes "END"

-- The first loop of the publisher: each message to the service is answered with an empty one. The
-- answers, and the messages that are left.
unfoldable pub synchronise : List Bytes → ℕ → Result (List Bytes × List Bytes)
synchronise [] subscribers =
    if ltb subscribers subscribers_expected then fault starved else ok ([], [])
synchronise (m ∷ messages) subscribers =
    let further = (do
      (answers, left) ← synchronise messages (suc subscribers)
      ok ([] ∷ answers, left)) in
    if ltb subscribers subscribers_expected then further else ok ([], m ∷ messages)

-- The updates, and the mark behind them.
unfoldable pub publish : ℕ → List Bytes
publish zero = end_mark ∷ []
publish (suc updates) = rhubarb ∷ publish updates

-- The loop of the subscriber: the updates before the mark.
unfoldable pub count_updates : List Bytes → ℕ → Result ℕ
count_updates [] update_nbr = fault starved
count_updates (str ∷ messages) update_nbr =
    let further = count_updates messages (suc update_nbr) in
    if same str end_mark then ok update_nbr else further

synchronise-full :
    (ms left : List Bytes) (k : ℕ)
    → k + length ms ≡ subscribers_expected
    → synchronise (ms ++ left) k ≡ ok (replicate (length ms) [], left)
unfolding synchronise
synchronise-full [] [] k h = let all_here : k ≡ subscribers_expected = omega arith in rw all_here
synchronise-full [] (m ∷ left) k h =
    let all_here : k ≡ subscribers_expected = omega arith in rw all_here
synchronise-full (m ∷ ms) left k h =
    rw (lt→ltb k subscribers_expected (omega arith))
      (rw (synchronise-full ms left (suc k) (omega arith)))

count_updates-publish :
    (n k : ℕ) (later : List Bytes) → count_updates (publish n ++ later) k ≡ ok (k + n)
unfolding count_updates publish same
count_updates-publish zero k later = let none_more : k + 0 ≡ k = omega arith in rw none_more
count_updates-publish (suc n) k later =
    let one_more : k + suc n ≡ suc k + n = omega arith in
    rw one_more (count_updates-publish n (suc k) later)

-- The publisher goes on behind the tenth subscriber that asks, and has answered each of the ten;
-- a subscriber that gets all that is sent after that counts every update, and stops at the mark.
pub coordinated :
    (ms left : List Bytes) (n : ℕ) (later : List Bytes)
    → length ms ≡ subscribers_expected
    → (synchronise (ms ++ left) 0 ≡ ok (replicate (length ms) [], left))
      × (count_updates (publish n ++ later) 0 ≡ ok n)
coordinated ms left n later h =
    let from_none : 0 + n ≡ n = omega arith in
    (synchronise-full ms left 0 (omega arith), count_updates-publish n 0 later ∙ ap ok from_none)
