-- ===== src/SimplePirate/System/Pool.antt =====
-- spqueue.cpp and spworker.cpp: the workers as a bag, whoever holds them, and the moves as what happens to
-- that bag.
use zguide_examples.Prelude.{ℕ, ◌+◌, ◌≤◌, ◌≡◌, sym, ap, ◌∙◌, List, [], ◌∷◌, ◌++◌, arith, inl, inr}
use zguide_examples.Prelude.Bag.{
  times, times-append, Bag, of_list, times_in, add, same_bag, times_in-add,
}
use zguide_examples.Prelude.Bytes.{Bytes, same, same_iff}
use zguide_examples.SimplePirate.{ready}
use zguide_examples.SimplePirate.System.{
  System, workers_of, held, Moves, Reaches, joins, asks, works, crashes, answers, start, then_moves,
  empty_system, Bool-cases, Letter,
}
use zguide_examples.SimplePirate.System.Orderly.{
  times-snoc, on_frontend-eq-ok, on_backend-eq-ok, work-letters_sent, taken,
}

-- All the workers of a system, wherever they are.
abbrev pub pool_of : System → Bag
pool_of s = of_list (s.queue ++ (workers_of s.requests ++ workers_of s.replies))

pub data Change : Type 0 where
  came left : Bytes → Change
  kept : Change

-- A worker that is not in the pool comes, one that is in it leaves, or nothing changes.
abbrev pub Changes : Change → Bag → Bag → Type 0
Changes (came k) b c = (times_in k b ≡ 0) × (c ≡ add k b)
Changes (left k) b c = b ≡ add k c
Changes kept b c = c ≡ b

pub data Follows : List Change → Bag → Bag → Type 0 where
  at_start : (b : Bag) → Follows [] b b
  followed :
      {cs : List Change} {b c d : Bag} (x : Change)
      → Follows cs b c
      → Changes x c d
      → Follows (cs ++ x ∷ []) b d

-- What a move is to the pool.
abbrev pub change_of : {s t : System} → Moves s t → Change
change_of (joins s k h f) = came k
change_of (asks s c body queue sent e) = kept
change_of (works s b a l c o n d e w) = kept
change_of (crashes s b a l e) = left l.worker
change_of (answers s b a l queue sent e r) = kept

abbrev pub changes_of : {s t : System} → Reaches s t → List Change
changes_of start = []
changes_of (then_moves r m) = changes_of r ++ change_of m ∷ []

times-pool :
    (k : Bytes) (s : System)
    → times k (s.queue ++ (workers_of s.requests ++ workers_of s.replies)) ≡ held k s
times-pool k s = omega (
  arith,
  times-append k s.queue (workers_of s.requests ++ workers_of s.replies),
  times-append k (workers_of s.requests) (workers_of s.replies),
)

same_pool : (s t : System) → ((k : Bytes) → held k s ≡ held k t) → pool_of s ≡ pool_of t
same_pool s t h = same_bag λ k. times-pool k s ∙ h k ∙ sym (times-pool k t)

added_pool :
    (k : Bytes) (s t : System)
    → ((j : Bytes) → held j t ≡ times j (k ∷ []) + held j s)
    → pool_of t ≡ add k (pool_of s)
unfolding add
added_pool k s t h = same_bag λ j. omega (arith, h j, times-pool j s, times-pool j t)

Moves-Changes : {s t : System} (m : Moves s t) → Changes (change_of m) (pool_of s) (pool_of t)
unfolding times_in
Moves-Changes {t = t} (joins s k h f) = (
  times-pool k s ∙ f,
  added_pool k s t
      λ j. omega (arith, times-snoc j s.replies (record { worker = k; client = ready; body = [] })),
)
Moves-Changes {t = t} (asks s c body queue sent e) =
    let (k, q, letters) = on_frontend-eq-ok c body s.queue queue sent e in
    let l : Letter = record { worker = k; client = c; body = body } in
    same_pool t s λ j. rw letters (omega (arith, times-snoc j s.requests l, ap (times j) q))
Moves-Changes {t = t} (works s b a l c o n d e w) = same_pool t s λ j.
    rw (work-letters_sent c o n l d w)
      (omega (arith, times-snoc j s.replies l, taken j s.requests b a l e))
Moves-Changes {t = t} (crashes s b a l e) =
    added_pool l.worker t s λ j. omega (arith, taken j s.requests b a l e)
Moves-Changes {t = t} (answers s b a l queue sent e r) =
    let q = on_backend-eq-ok l s.queue queue sent r in
    same_pool t s λ j.
      omega
        (arith, taken j s.replies b a l e, ap (times j) q, times-append j s.queue (l.worker ∷ []))

Reaches-Follows : {s t : System} (r : Reaches s t) → Follows (changes_of r) (pool_of s) (pool_of t)
Reaches-Follows {s = s} start = at_start (pool_of s)
Reaches-Follows (then_moves r m) = followed (change_of m) (Reaches-Follows r) (Moves-Changes m)

-- How often an identity came, and left.
abbrev pub comings : Bytes → List Change → ℕ
comings k [] = 0
comings k (came j ∷ cs) = times k (j ∷ []) + comings k cs
comings k (left j ∷ cs) = comings k cs
comings k (kept ∷ cs) = comings k cs

abbrev pub leavings : Bytes → List Change → ℕ
leavings k [] = 0
leavings k (came j ∷ cs) = leavings k cs
leavings k (left j ∷ cs) = times k (j ∷ []) + leavings k cs
leavings k (kept ∷ cs) = leavings k cs

comings-snoc :
    (k : Bytes) (cs : List Change) (x : Change)
    → comings k (cs ++ x ∷ []) ≡ comings k cs + comings k (x ∷ [])
comings-snoc k [] x = omega arith
comings-snoc k (came j ∷ cs) x = omega (arith, comings-snoc k cs x)
comings-snoc k (left j ∷ cs) x = comings-snoc k cs x
comings-snoc k (kept ∷ cs) x = comings-snoc k cs x

leavings-snoc :
    (k : Bytes) (cs : List Change) (x : Change)
    → leavings k (cs ++ x ∷ []) ≡ leavings k cs + leavings k (x ∷ [])
leavings-snoc k [] x = omega arith
leavings-snoc k (came j ∷ cs) x = leavings-snoc k cs x
leavings-snoc k (left j ∷ cs) x = omega (arith, leavings-snoc k cs x)
leavings-snoc k (kept ∷ cs) x = leavings-snoc k cs x

-- What one change is to an identity.
Changes-balanced :
    (k : Bytes) (x : Change) (b c : Bag)
    → Changes x b c
    → times_in k c + leavings k (x ∷ []) ≡ times_in k b + comings k (x ∷ [])
Changes-balanced k (came j) b c h = omega (arith, ap (times_in k) h.1, times_in-add k j b)
Changes-balanced k (left j) b c h = omega (arith, ap (times_in k) h, times_in-add k j c)
Changes-balanced k kept b c h = omega (arith, ap (times_in k) h)

Changes-once :
    (x : Change) (b c : Bag)
    → Changes x b c
    → ((k : Bytes) → times_in k b ≤ 1)
    → (k : Bytes) → times_in k c ≤ 1
Changes-once (came j) b c h once k =
    omega (arith, one_more, ap (times_in k) h.1, times_in-add k j b)
  where
    one_more : times k (j ∷ []) + times_in k b ≤ 1
    one_more = elim (Bool-cases (same k j)) [
      | inl e ↦
          let new : times_in k b ≡ 0 = ap (λ i. times_in i b) ((same_iff k j).0 e) ∙ h.0 in
          rw e (omega (arith, new))
      | inr e ↦ rw e (omega (arith, once k))
    ]
Changes-once (left j) b c h once k = omega (arith, once k, ap (times_in k) h, times_in-add k j c)
Changes-once kept b c h once k = omega (arith, once k, ap (times_in k) h)

Follows-balanced :
    (k : Bytes) {cs : List Change} {b c : Bag}
    → Follows cs b c
    → times_in k c + leavings k cs ≡ times_in k b + comings k cs
Follows-balanced k (at_start b) = omega arith
Follows-balanced k (followed {cs = cs} {b = b} {c = c} {d = d} x f h) = omega (
  arith,
  Follows-balanced k f,
  Changes-balanced k x c d h,
  comings-snoc k cs x,
  leavings-snoc k cs x,
)

Follows-once :
    {cs : List Change} {b c : Bag}
    → Follows cs b c
    → ((k : Bytes) → times_in k b ≤ 1)
    → (k : Bytes) → times_in k c ≤ 1
Follows-once (at_start b) once = once
Follows-once (followed {c = c} {d = d} x f h) once = Changes-once x c d h (Follows-once f once)

-- However the messages interleave: the bag of all workers, in the queue or on a message, changes only
-- when a worker joins, which is not in it, or crashes, which is in it. So an identity is in it as
-- often as it has joined and not crashed since, and never twice.
pub pool_reached :
    {s : System} (r : Reaches empty_system s)
    → Follows (changes_of r) (of_list []) (pool_of s)
      × ((k : Bytes)
          → (times_in k (pool_of s) + leavings k (changes_of r) ≡ comings k (changes_of r))
            × (times_in k (pool_of s) ≤ 1))
unfolding times_in
pool_reached r =
    let f = Reaches-Follows r in
    (f, λ k. (omega (arith, Follows-balanced k f), Follows-once f (λ j. omega arith) k))
