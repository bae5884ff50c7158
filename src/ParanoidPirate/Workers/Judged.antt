-- ===== src/ParanoidPirate/Workers/Judged.antt =====
-- One round of the loop of `purge` of workers.cpp: what it makes of the queue and of the deadlines.
use zguide_examples.Prelude.{
  ℕ, ◌≡◌, ap, Bool, false, Option, none, some, List, [], ◌∷◌, ◌++◌, arith,
}
use zguide_examples.Prelude.Tests.{ltb, if◌then◌else◌}
use zguide_examples.Prelude.Lists.{All}
use zguide_examples.Prelude.Bytes.{keys, Bytes, same}
use zguide_examples.Prelude.Dict.{Dict, find?, find?-put, find?-erase}
use zguide_examples.ParanoidPirate.Workers.Identities.{member}
use zguide_examples.ParanoidPirate.Workers.{Workers, subscript, judge, purge_front}

-- The deadline that `lookup_[k]` reads.
abbrev pub deadline : Option ℕ → ℕ
deadline (some t) = t
deadline none = 0

-- The test of `purge`: the clock is past the deadline of the worker.
abbrev pub expired : ℕ → Dict ℕ → Bytes → Bool
expired now lookup k = ltb (deadline (find? k lookup)) now

subscript_lem : (k : Bytes) (m : Dict ℕ) → (subscript k m).0 ≡ deadline (find? k m)
unfolding subscript
subscript_lem k m = ground arith

-- Reading the deadline of one worker changes that of no other.
subscript_other :
    (k j : Bytes) (m : Dict ℕ) → same k j ≡ false → find? j (subscript k m).1 ≡ find? j m
unfolding subscript
subscript_other k j m h = ground (arith, find?-put k j 0 m)

judged_other :
    (now : ℕ) (k j : Bytes) (q : List Bytes) (w : Workers)
    → same k j ≡ false
    → find? j (judge now k q w (subscript k w.lookup)).lookup ≡ find? j w.lookup
unfolding judge
judged_other now k j q w h =
    ground (arith, find?-erase k j (subscript k w.lookup).1, subscript_other k j w.lookup)

unfoldable pub Agree : (Bytes → Bool) → ℕ → Dict ℕ → List Bytes → Type 0
Agree dead now lookup q = All (λ k. expired now lookup k ≡ dead k) q

pub judged-Agree :
    (dead : Bytes → Bool) (now : ℕ) (k : Bytes) (r q : List Bytes) (w : Workers)
    → member k q ≡ false
    → Agree dead now w.lookup q
    → Agree dead now (judge now k r w (subscript k w.lookup)).lookup q
unfolding Agree member
judged-Agree dead now k r [] w m a = tt
judged-Agree dead now k r (j ∷ q) w m a =
    (grind (keys, judged_other now k j r w), judged-Agree dead now k r q w (ground arith) a.1)

pub judged_queue :
    (now : ℕ) (k : Bytes) (q : List Bytes) (w : Workers)
    → (judge now k q w (subscript k w.lookup)).queue
      ≡ (if expired now w.lookup k then q else q ++ k ∷ [])
unfolding judge
judged_queue now k q w = ground (arith, subscript_lem k w.lookup)

pub purge_front_lem :
    (now : ℕ) (k : Bytes) (q : List Bytes) (w : Workers)
    → w.queue ≡ k ∷ q
    → purge_front now w.queue w ≡ judge now k q w (subscript k w.lookup)
unfolding purge_front
purge_front_lem now k q w e = ap (λ l. purge_front now l w) e
