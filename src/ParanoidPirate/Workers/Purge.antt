-- ===== src/ParanoidPirate/Workers/Purge.antt =====
-- What `purge` of workers.cpp drops, keeps and never looks at.
use zguide_examples.Prelude.{
  ℕ, zero, suc, ◌+◌, ◌/◌, ◌≡◌, ◌≤◌, refl, inl, inr, ap, sym, Bool, true, false, List, [], ◌∷◌, ◌++◌,
  append_assoc, append-nil, arith, ◌∙◌,
}
use mathlib.Core.Path.{subst}
use zguide_examples.Prelude.Tests.{ltb, if◌then◌else◌, Bool-cases, ltb→lt, ltb-false, ltb-false→le}
use zguide_examples.Prelude.Lists.{length, length-append, All, All-prefix}
use zguide_examples.Prelude.Bytes.{Bytes}
use zguide_examples.Prelude.Dict.{Dict}
use zguide_examples.ParanoidPirate.Workers.Identities.{Distinct}
use zguide_examples.ParanoidPirate.Workers.{Workers, subscript, judge, purge_loop, purge}
use zguide_examples.ParanoidPirate.Workers.Judged.{
  expired, Agree, judged-Agree, judged_queue, purge_front_lem,
}

module _ (dead : Bytes → Bool) where
  pub survivors : List Bytes → List Bytes
  survivors [] = []
  survivors (k ∷ q) = let rest = survivors q in if dead k then rest else k ∷ rest

  pub losses : List Bytes → ℕ
  losses [] = 0
  losses (k ∷ q) = let rest = losses q in if dead k then suc rest else rest

-- The workers are split where the rounds end: those before are judged, those behind are not.
-- `d` workers were dropped before.
pub record Purged (dead : Bytes → Bool) (d : ℕ) (queue kept final : List Bytes) : Type 0 where
  pub visited : List Bytes
  pub rest : List Bytes
  pub parts : queue ≡ visited ++ rest
  pub result : final ≡ rest ++ (kept ++ survivors dead visited)
  pub enough : length rest ≤ d + losses dead visited
  pub no_more : d + losses dead visited ≤ length rest + 1

unvisited :
    (dead : Bytes → Bool) (d : ℕ) (queue kept : List Bytes)
    → length queue ≤ d
    → d ≤ length queue + 1
    → Purged dead d queue kept (queue ++ kept)
unfolding survivors losses
unvisited dead d queue kept h k = record {
  visited = [];
  rest = queue;
  parts = refl;
  result = rw (append-nil kept);
  enough = omega arith;
  no_more = omega arith;
}

visit_dead :
    (dead : Bytes → Bool) (d : ℕ) (k : Bytes) (queue kept final : List Bytes)
    → dead k ≡ true
    → Purged dead (suc d) queue kept final
    → Purged dead d (k ∷ queue) kept final
unfolding survivors losses
visit_dead dead d k queue kept final e p = record {
  visited = k ∷ p.visited;
  rest = p.rest;
  parts = ap (λ l. k ∷ l) p.parts;
  result = rw e p.result;
  enough = rw e (omega (arith, p.enough));
  no_more = rw e (omega (arith, p.no_more));
}

visit_alive :
    (dead : Bytes → Bool) (d : ℕ) (k : Bytes) (queue kept final : List Bytes)
    → dead k ≡ false
    → Purged dead d queue (kept ++ k ∷ []) final
    → Purged dead d (k ∷ queue) kept final
unfolding survivors losses
visit_alive dead d k queue kept final e p = record {
  visited = k ∷ p.visited;
  rest = p.rest;
  parts = ap (λ l. k ∷ l) p.parts;
  result = rw e (simp append_assoc at p.result);
  enough = rw e p.enough;
  no_more = rw e p.no_more;
}

loop_Purged :
    (dead : Bytes → Bool) (now fuel i d : ℕ) (todo kept : List Bytes) (w : Workers)
    → w.queue ≡ todo ++ kept
    → i ≡ length kept + d
    → length todo + length kept ≤ fuel + i
    → d ≤ length todo + 1
    → Distinct todo
    → Agree dead now w.lookup todo
    → Purged dead d todo kept (purge_loop (λ _. now) fuel i w).queue
unfolding purge_loop Agree
loop_Purged dead now zero i d todo kept w e ei ef ed ds a =
    rw e (unvisited dead d todo kept (omega arith) (omega arith))
loop_Purged dead now (suc fuel) i d [] kept w e ei ef ed ds a =
    rw (ltb-false i (length w.queue) (omega (arith, ap length e)))
      (rw e (unvisited dead d [] kept (omega arith) (omega arith)))
loop_Purged dead now (suc fuel) i d (k ∷ q) kept w e ei ef ed ds a =
    let w' = judge now k (q ++ kept) w (subscript k w.lookup) in
    let agree' = judged-Agree dead now k (q ++ kept) q w ds.0 a.1 in
    elim (Bool-cases (ltb i (length w.queue))) [
      | inr done ↦ rw done (
          rw e (
            unvisited dead d (k ∷ q) kept
              (omega (arith, ltb-false→le i _ done, ap length e, length-append (k ∷ q) kept))
              (omega arith)))
      | inl more ↦
          let room : d ≤ length q =
            omega (arith, ltb→lt i _ more, ap length e, length-append (k ∷ q) kept) in
          rw more (
            rw (purge_front_lem now k (q ++ kept) w e) (elim (Bool-cases (dead k)) [
              | inl h ↦ visit_dead dead d k q kept _ h (
                  loop_Purged dead now fuel (suc i) (suc d) q kept w'
                    (judged_queue now k (q ++ kept) w ∙ rw (a.0, h)) (omega arith) (omega arith)
                    (omega arith) ds.1 agree')
              | inr h ↦ visit_alive dead d k q kept _ h (
                  loop_Purged dead now fuel (suc i) d q (kept ++ k ∷ []) w'
                    (judged_queue now k (q ++ kept) w ∙ rw (a.0, h) (append_assoc q kept (k ∷ [])))
                    (omega (arith, length-append kept (k ∷ [])))
                    (omega (arith, length-append kept (k ∷ []))) (omega arith) ds.1 agree')
            ]))
    ]

refl-Agree : (now : ℕ) (m : Dict ℕ) (q : List Bytes) → Agree (expired now m) now m q
unfolding Agree
refl-Agree now m [] = tt
refl-Agree now m (k ∷ q) = (refl, refl-Agree now m q)

survivors_none :
    (dead : Bytes → Bool) (q : List Bytes)
    → All (λ k. dead k ≡ false) q
    → (survivors dead q ≡ q) × (losses dead q ≡ 0)
unfolding survivors losses
survivors_none dead [] a = (refl, refl)
survivors_none dead (k ∷ q) a = ground (arith, survivors_none dead q a.1)

survivors-All :
    (dead : Bytes → Bool) (q : List Bytes)
    → All (λ k. dead k ≡ true) q
    → (survivors dead q ≡ []) × (losses dead q ≡ length q)
unfolding survivors losses
survivors-All dead [] a = (refl, refl)
survivors-All dead (k ∷ q) a = ground (arith, survivors-All dead q a.1)

-- With the clock at rest at `now` and no worker twice in the queue, `purge` judges the workers
-- from the front up to a point: of those it keeps in order the ones whose deadline has not passed,
-- behind the workers that it never looked at, whose order stays too. As many workers stay unjudged
-- as it dropped, or one fewer.
pub purge-Purged :
    (now : ℕ) (w : Workers)
    → Distinct w.queue
    → Purged (expired now w.lookup) 0 w.queue [] (purge (λ _. now) w).queue
unfolding purge
purge-Purged now w d =
    loop_Purged (expired now w.lookup) now (length w.queue) 0 0 w.queue [] w
      (sym (append-nil w.queue)) (omega arith) (omega arith) (omega arith) d
      (refl-Agree now w.lookup w.queue)

-- Where no deadline has passed, `purge` turns the queue round once and leaves it as it was.
pub purge_fresh :
    (now : ℕ) (w : Workers)
    → Distinct w.queue
    → All (λ k. expired now w.lookup k ≡ false) w.queue
    → (purge (λ _. now) w).queue ≡ w.queue
purge_fresh now w d a = go (purge-Purged now w d)
  where
    go :
        Purged (expired now w.lookup) 0 w.queue [] (purge (λ _. now) w).queue
        → (purge (λ _. now) w).queue ≡ w.queue
    go p =
        let (same_list, none_lost) =
          survivors_none (expired now w.lookup) p.visited
            (All-prefix _ p.visited p.rest (subst (All _) p.parts a)) in
        let e : p.rest ≡ [] = ground (arith, p.enough) in
        p.result ∙ rw same_list (rw e (sym (p.parts ∙ rw e (append-nil p.visited))))

-- With the clock at rest and no worker twice in the queue, where every deadline has passed,
-- `purge` still leaves half of the workers, rounded down, in the queue.
pub purge-expired :
    (now : ℕ) (w : Workers)
    → Distinct w.queue
    → All (λ k. expired now w.lookup k ≡ true) w.queue
    → length (purge (λ _. now) w).queue ≡ length w.queue / 2
purge-expired now w d a = go (purge-Purged now w d)
  where
    go :
        Purged (expired now w.lookup) 0 w.queue [] (purge (λ _. now) w).queue
        → length (purge (λ _. now) w).queue ≡ length w.queue / 2
    go p =
        let (none_left, all_lost) =
          survivors-All (expired now w.lookup) p.visited
            (All-prefix _ p.visited p.rest (subst (All _) p.parts a)) in
        let left : (purge (λ _. now) w).queue ≡ p.rest =
          p.result ∙ rw none_left (append-nil p.rest) in
        omega (
          arith,
          ap length p.parts,
          ap length left,
          length-append p.visited p.rest,
          p.enough,
          p.no_more,
        )
