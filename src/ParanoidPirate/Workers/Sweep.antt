-- ===== src/ParanoidPirate/Workers/Sweep.antt =====
-- `purge` of workers.cpp as a sweep over the line of workers with their deadlines.
use zguide_examples.Prelude.{
  ℕ, zero, suc, ◌≡◌, refl, ap, ◌∙◌, inl, inr, some, List, [], ◌∷◌, ◌++◌, arith,
}
use mathlib.Core.Path.{subst}
use zguide_examples.Prelude.Tests.{ltb, if◌then◌else◌, Bool-cases}
use zguide_examples.Prelude.Lists.{length}
use zguide_examples.Prelude.Bytes.{Bytes}
use zguide_examples.Prelude.Dict.{Dict, find?, has-find?}
use zguide_examples.ParanoidPirate.Workers.Identities.{Distinct}
use zguide_examples.ParanoidPirate.Workers.Invariant.{
  IsValid, purge_front-IsValid, front_known, subscript_known,
}
use zguide_examples.ParanoidPirate.Workers.Line.{Line, line, dated, dated-append, dated-erase}
use zguide_examples.ParanoidPirate.Workers.{
  Workers, purge, purge_loop, purge_front, judge, subscript, pop, pop_from,
}

-- The first is dropped if its deadline is past, and else goes behind the others.
abbrev pub sweep_front : ℕ → Line → Line
sweep_front now [] = []
sweep_front now ((k, t) ∷ l) = if ltb t now then l else l ++ (k, t) ∷ []

unfoldable pub sweep_loop : (ℕ → ℕ) → ℕ → ℕ → Line → Line
sweep_loop clock zero i l = l
sweep_loop clock (suc fuel) i l =
    let rest = sweep_loop clock fuel (suc i) (sweep_front (clock i) l) in
    if ltb i (length l) then rest else l

unfoldable pub sweep : (ℕ → ℕ) → Line → Line
unfolding sweep_loop
sweep clock l = sweep_loop clock (length l) 0 l

length-dated : (m : Dict ℕ) (q : List Bytes) → length (dated m q) ≡ length q
unfolding dated
length-dated m [] = refl
length-dated m (k ∷ q) = ap suc (length-dated m q)

length-line : (w : Workers) → length (line w) ≡ length w.queue
unfolding line
length-line w = length-dated w.lookup w.queue

-- The front worker of a consistent list is in the table.
line-judge :
    (now : ℕ) (k : Bytes) (q : List Bytes) (w : Workers) (t : ℕ)
    → find? k w.lookup ≡ some t
    → Distinct (k ∷ q)
    → line (judge now k q w (subscript k w.lookup)) ≡ sweep_front now (dated w.lookup (k ∷ q))
unfolding line dated judge
line-judge now k q w t e d = rw (subscript_known k w.lookup e) (elim (Bool-cases (ltb t now)) [
  | inl past ↦ rw e (rw past (dated-erase k w.lookup q d.0))
  | inr due ↦ rw e (rw due (dated-append w.lookup q (k ∷ []) ∙ rw e refl))
])

line-purge_front :
    (now : ℕ) (q : List Bytes) (w : Workers)
    → w.queue ≡ q
    → IsValid w
    → line (purge_front now q w) ≡ sweep_front now (dated w.lookup q)
unfolding purge_front line dated
line-purge_front now [] w e v = rw e refl
line-purge_front now (k ∷ q) w e v =
    let (t, found) = has-find? k w.lookup (front_known k q w e v) in
    line-judge now k q w t found (subst Distinct e v.distinct)

line-purge_loop :
    (clock : ℕ → ℕ) (fuel i : ℕ) (w : Workers)
    → IsValid w
    → line (purge_loop clock fuel i w) ≡ sweep_loop clock fuel i (line w)
unfolding purge_loop sweep_loop line
line-purge_loop clock zero i w v = refl
line-purge_loop clock (suc fuel) i w v =
    let size : length (dated w.lookup w.queue) ≡ length w.queue = length-line w in
    let front = line-purge_front (clock i) w.queue w refl v in
    let later =
      line-purge_loop clock fuel (suc i) (purge_front (clock i) w.queue w)
        (purge_front-IsValid (clock i) w.queue w refl v) in
    rw size (elim (Bool-cases (ltb i (length w.queue))) [
      | inl more ↦ rw more (later ∙ ap (sweep_loop clock fuel (suc i)) front)
      | inr done ↦ rw done refl
    ])

-- `purge` of a consistent list of workers does to their line what a sweep does: the round looks at
-- the first, drops it if its deadline is past and else puts it behind the others, as often as the
-- number of the round is below the length of what is left.
pub line-purge :
    (clock : ℕ → ℕ) (w : Workers) → IsValid w → line (purge clock w) ≡ sweep clock (line w)
unfolding purge sweep
line-purge clock w v = rw (length-line w) (line-purge_loop clock (length w.queue) 0 w v)

pop_from_term : (q : List Bytes) (w : Workers) → (pop_from q w).ttl ≡ w.ttl
unfolding pop_from
pop_from_term [] w = refl
pop_from_term (k ∷ q) w = refl

pub pop_term : (w : Workers) → (pop w).ttl ≡ w.ttl
unfolding pop
pop_term w = pop_from_term w.queue w

purge_front_term : (now : ℕ) (q : List Bytes) (w : Workers) → (purge_front now q w).ttl ≡ w.ttl
unfolding purge_front judge
purge_front_term now [] w = refl
purge_front_term now (k ∷ q) w = ground arith

purge_loop_term :
    (clock : ℕ → ℕ) (fuel i : ℕ) (w : Workers) → (purge_loop clock fuel i w).ttl ≡ w.ttl
unfolding purge_loop
purge_loop_term clock zero i w = refl
purge_loop_term clock (suc fuel) i w =
    let later = purge_loop_term clock fuel (suc i) (purge_front (clock i) w.queue w) in
    elim (Bool-cases (ltb i (length w.queue))) [
      | inl more ↦ rw more (later ∙ purge_front_term (clock i) w.queue w)
      | inr done ↦ rw done refl
    ]

pub purge_term : (clock : ℕ → ℕ) (w : Workers) → (purge clock w).ttl ≡ w.ttl
unfolding purge
purge_term clock w = purge_loop_term clock (length w.queue) 0 w
