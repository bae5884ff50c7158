-- ===== src/ParanoidPirate/Workers.antt =====
-- The list of available workers: robust-reliable-queuing/workers.hpp and workers.cpp.
-- A reading of `system_clock::now()` is an argument, in seconds.
pub mod Identities
pub mod Invariant
pub mod Judged
pub mod Purge
pub mod Calls
pub mod Line
pub mod Sweep
use zguide_examples.Prelude.{
  ℕ, zero, suc, ◌+◌, Bool, true, false, not, none, some, List, [], ◌∷◌, ◌++◌,
}
use zguide_examples.Prelude.Tests.{ltb, if◌then◌else◌}
use zguide_examples.Prelude.Lists.{length}
use zguide_examples.Prelude.Bytes.{Bytes, same}
use zguide_examples.Prelude.Dict.{Dict, find?, put, has}
use zguide_examples.Prelude.Dict
use zguide_examples.Prelude.Result.{Result, ok, fault, empty_front, ◌>>=◌, ◌>>◌, assert}

pub record Workers : Type 0 where
  pub ttl : ℕ
  pub queue : List Bytes
  pub lookup : Dict ℕ

unfoldable pub new : ℕ → Workers
new ttl = record { ttl = ttl; queue = []; lookup = [] }

-- `deque::empty`
abbrev pub is_nil {ℓ} : {A : Type ℓ} → List A → Bool
is_nil [] = true
is_nil (_ ∷ _) = false

unfoldable pub empty : Workers → Bool
empty w = is_nil w.queue

-- `find_if` and `queue_.erase(it)`: the first match goes.
unfoldable pub remove : Bytes → List Bytes → List Bytes
remove k [] = []
remove k (j ∷ q) = let rest = remove k q in if same j k then q else j ∷ rest

unfoldable pub erase : Bytes → Workers → Workers
erase identity w = record w {
  lookup = Dict.erase identity w.lookup;
  queue = remove identity w.queue;
}

unfoldable pub push : ℕ → Bytes → Workers → Result Workers
push now identity w = do
  assert (not (has identity w.lookup))
  ok (record w { lookup = put identity (now + w.ttl) w.lookup; queue = w.queue ++ identity ∷ [] })

unfoldable pub try_push : ℕ → Bytes → Workers → Result (Workers × Bool)
unfolding push
try_push now identity w =
    if has identity w.lookup then ok (w, false) else do w' ← push now identity w; ok (w', true)

unfoldable pub refresh : ℕ → Bytes → Workers → Result Workers
refresh now identity w = do
  assert (has identity w.lookup)
  ok (record w { lookup = put identity (now + w.ttl) w.lookup })

abbrev pub front_of : List Bytes → Result Bytes
front_of [] = fault empty_front
front_of (k ∷ _) = ok k

unfoldable pub front : Workers → Result Bytes
front w = front_of w.queue

pop_from : List Bytes → Workers → Workers
pop_from [] w = w
pop_from (k ∷ q) w = record w { lookup = Dict.erase k w.lookup; queue = q }

unfoldable pub pop : Workers → Workers
unfolding pop_from
pop w = pop_from w.queue w

-- `lookup_[k]`: a key that is absent is entered first, with the epoch as its time.
pub subscript : Bytes → Dict ℕ → ℕ × Dict ℕ
subscript k m = elim (find? k m) [ some t ↦ (t, m) | none ↦ (0, put k 0 m) ]

pub judge : ℕ → Bytes → List Bytes → Workers → ℕ × Dict ℕ → Workers
judge now k q w (expiry, lookup) =
    if ltb expiry now
    then record w { lookup = Dict.erase k lookup; queue = q }
    else record w { lookup = lookup; queue = q ++ k ∷ [] }

-- One round: the front worker is dropped if it has expired, and else goes to the back.
pub purge_front : ℕ → List Bytes → Workers → Workers
unfolding judge
purge_front now [] w = w
purge_front now (k ∷ q) w = judge now k q w (subscript k w.lookup)

-- `for (i = 0; i < queue_.size(); ++i)`: the bound is read again before each round. The rounds
-- left are at most the size less `i`, which is the fuel.
purge_loop : (ℕ → ℕ) → ℕ → ℕ → Workers → Workers
unfolding purge_front subscript
purge_loop clock zero i w = w
purge_loop clock (suc fuel) i w =
    let rest = purge_loop clock fuel (suc i) (purge_front (clock i) w.queue w) in
    if ltb i (length w.queue) then rest else w

-- `clock i` is the reading of the round `i`.
unfoldable pub purge : (ℕ → ℕ) → Workers → Workers
unfolding purge_loop
purge clock w = purge_loop clock (length w.queue) 0 w
