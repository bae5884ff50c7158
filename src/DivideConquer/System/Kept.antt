-- ===== src/DivideConquer/System/Kept.antt =====
-- taskvent.cpp, taskwork.cpp and tasksink.cpp: no task is lost or done twice.
use mathlib.Core.Path.{subst}
use zguide_examples.Prelude.{
  ℕ, zero, suc, ◌+◌, ◌^◌, ◌≤◌, ◌<◌, ◌≡◌, refl, ap, sym, ◌∙◌, Bool, true, false, List, [], ◌∷◌, ◌++◌,
  arith, some,
}
use zguide_examples.Prelude.Lists.{length, length-append, All}
use zguide_examples.Prelude.Bytes.{Bytes, codes}
use zguide_examples.Prelude.Result.{ok, ok_injective}
use zguide_examples.Freelance.Sequence.{strtol}
use zguide_examples.DivideConquer.{
  tasks, ventilate, sleeps, sends, work, collect, sum, task_message-read, ventilate_task,
}
use zguide_examples.DivideConquer.System.{
  Task, System, Moves, ventilates, works, begins, receives, controls, ends, Reaches, start,
  then_moves,
}

abbrev pub cost : List Task → ℕ
cost [] = 0
cost (t ∷ waiting) = (strtol t.message).0 + cost waiting

abbrev pub began_count : Bool → ℕ
began_count true = 1
began_count false = 0

-- Every task is in one place, and every unit of the cost too.
pub record IsKept (workloads : List ℕ) (s : System) : Type 0 where
  pub small : All (λ n. n ≤ 100) s.unsent
  pub counted :
      length s.unsent
        + length s.waiting
        + length s.under_way
        + length s.received
        + began_count s.began
      ≡ tasks + 1
  pub room : length s.received ≤ tasks
  pub costed : s.total + sum s.unsent ≡ sum workloads
  pub spent : s.slept + cost s.waiting + sum s.unsent ≡ sum workloads
  pub last :
      (m : Bytes)
      → s.control ≡ some m
      → (s.began ≡ true) × (tasks ≤ length s.received) × (m ≡ codes "KILL")

-- One element of many.
module _ {A : Type 0} where
  pub length-between : (p q : List A) (x : A) → length (p ++ x ∷ q) ≡ suc (length (p ++ q))
  length-between [] q x = refl
  length-between (y ∷ p) q x = ap suc (length-between p q x)

cost-between :
    (p q : List Task) (t : Task) → cost (p ++ t ∷ q) ≡ (strtol t.message).0 + cost (p ++ q)
cost-between [] q t = refl
cost-between (u ∷ p) q t = omega (arith, cost-between p q t)

cost-snoc : (p : List Task) (t : Task) → cost (p ++ t ∷ []) ≡ cost p + (strtol t.message).0
cost-snoc [] t = omega arith
cost-snoc (u ∷ p) t = omega (arith, cost-snoc p t)

collect-eq-ok :
    (n : ℕ) (results : List Bytes) (m : Bytes)
    → collect n results ≡ ok m
    → (n ≤ length results) × (m ≡ codes "KILL")
unfolding collect
collect-eq-ok zero results m e = (omega arith, cc)
collect-eq-ok (suc n) [] m e = absurd (cc)
collect-eq-ok (suc n) (r ∷ results) m e =
    let (enough, kill) = collect-eq-ok n results m e in (omega (arith, enough), kill)

-- What the ventilator sends for one workload.
ventilate-one :
    (workload total total' : ℕ) (message : Bytes)
    → workload ≤ 100
    → total + workload < 2 ^ 32
    → ventilate (workload ∷ []) total ≡ ok (total', message ∷ [])
    → (total' ≡ total + workload) × ((strtol message).0 ≡ workload)
unfolding ventilate
ventilate-one workload total total' message h b e =
    let (m, sent, read) = task_message-read workload h in
    let whole : (total + workload, m ∷ []) ≡ (total', message ∷ []) =
      ok_injective
        (sym (ventilate_task workload total (total + workload) [] m [] sent b refl) ∙ e) in
    let same_message : m ∷ [] ≡ message ∷ [] = ap (λ r. r.1) whole in
    let same : m ≡ message = cc same_message in
    (sym (ap (λ r. r.0) whole), ap (λ t. (strtol t).0) (sym same) ∙ read)

work-one :
    (message result : Bytes) (ms : ℕ)
    → work ((some message, false) ∷ []) ≡ sleeps ms ∷ sends result ∷ []
    → ms ≡ (strtol message).0
unfolding work
work-one message result ms e = cc

module _ {workloads : List ℕ} (b : sum workloads < 2 ^ 32) where
  Moves-IsKept : {s t : System} → Moves s t → IsKept workloads s → IsKept workloads t
  Moves-IsKept (ventilates s k w total ws m e v) h =
      let small = subst (All (λ n. n ≤ 100)) e h.small in
      let (t, read) =
        ventilate-one w s.total total m small.0 (omega (arith, h.costed, ap sum e)) v in
      record {
        small = small.1;
        counted = omega (
          arith,
          h.counted,
          ap length e,
          length-append s.waiting (record { worker = k; message = m } ∷ []),
        );
        room = h.room;
        costed = omega (arith, h.costed, ap sum e, t);
        spent = omega (
          arith,
          h.spent,
          ap sum e,
          read,
          cost-snoc s.waiting (record { worker = k; message = m }),
        );
        last = h.last;
      }
  Moves-IsKept (works s p q t ms r e w) h = record {
    small = h.small;
    counted =
        omega
          (arith, h.counted, ap length e, length-between p q t, length-append s.under_way (r ∷ []));
    room = h.room;
    costed = h.costed;
    spent = omega (arith, h.spent, ap cost e, cost-between p q t, work-one t.message r ms w);
    last = h.last;
  }
  Moves-IsKept (begins s p q m n e) h = record {
    small = h.small;
    counted = omega (arith, h.counted, ap length e, length-between p q m, ap began_count n);
    room = h.room;
    costed = h.costed;
    spent = h.spent;
    last = λ k c. absurd (cc (n, (h.last k c).0));
  }
  Moves-IsKept (receives s p q m y l e) h = record {
    small = h.small;
    counted =
        omega
          (arith, h.counted, ap length e, length-between p q m, length-append s.received (m ∷ []));
    room = omega (arith, l, length-append s.received (m ∷ []));
    costed = h.costed;
    spent = h.spent;
    last = λ k c. absurd (omega (arith, l, (h.last k c).1));
  }
  Moves-IsKept (controls s m y n c) h =
      let (enough, kill) = collect-eq-ok tasks s.received m c in
      record {
        small = h.small;
        counted = h.counted;
        room = h.room;
        costed = h.costed;
        spent = h.spent;
        last = λ k e. let same : m ≡ k = cc in (y, enough, sym same ∙ kill);
      }
  Moves-IsKept (ends s m c) h = record {
    small = h.small;
    counted = h.counted;
    room = h.room;
    costed = h.costed;
    spent = h.spent;
    last = h.last;
  }

  pub Reaches-IsKept : {s t : System} → Reaches s t → IsKept workloads s → IsKept workloads t
  Reaches-IsKept start h = h
  Reaches-IsKept (then_moves r m) h = Moves-IsKept m (Reaches-IsKept r h)
