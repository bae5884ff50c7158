-- ===== src/Brokers/Paranoid.antt =====
-- ppqueue.cpp as one of the brokers, by whole rounds of its loop: behind the message that a round
-- brings come the heartbeats that are due and the purge. The readings of the clock in the n-th round
-- are `inputs n`; its messages are put in by `joins` and `serves`.
use zguide_examples.Prelude.{
  ℕ, suc, ◌+◌, ◌≤◌, ◌≡◌, refl, ap, sym, ◌∙◌, true, false, some, none, List, [], ◌∷◌, ◌++◌,
  append-nil, append_assoc, map, arith, inl, inr,
}
use mathlib.Core.Path.{subst}
use zguide_examples.Prelude.Tests.{Bool-cases, lt→ltb, ltb}
use zguide_examples.Prelude.Lists.{All, All-append, length, length-append}
use zguide_examples.Prelude.Bytes.{Bytes, same}
use zguide_examples.Prelude.Result.{Result, ok, fault, ◌>>=◌, ok_injective, starved}
use zguide_examples.ParanoidPirate.Workers.{Workers, is_nil}
use zguide_examples.ParanoidPirate.Workers
use zguide_examples.ParanoidPirate.Workers.Identities.{member}
use zguide_examples.ParanoidPirate.Workers.Judged.{deadline}
use zguide_examples.Prelude.Dict.{find?}
use zguide_examples.ParanoidPirate.Workers.Line.{Line, line, listed, without, listed-dated, dated}
use zguide_examples.ParanoidPirate.Workers.Invariant.{IsValid, new-IsValid}
use zguide_examples.ParanoidPirate.Workers.Sweep.{sweep, sweep_loop}
use zguide_examples.ParanoidPirate.Queue.Safety.{step-IsValid}
use zguide_examples.Brokers.{Broker, Request, frames_of}
use zguide_examples.ParanoidPirate.Queue
use zguide_examples.ParanoidPirate.Queue.Roster.{Roster, Post, look_after, round}
use zguide_examples.ParanoidPirate.Queue.Roster.Refined.{post_of, shown_post, step_refines}
use zguide_examples.ParanoidPirate.Queue.Roster.Operations.{map-line, map-dated, roster_of}

-- The state, and the number of the round.
pub record Rounds : Type 0 where
  pub state : Queue.State
  pub number : ℕ

-- No worker has a deadline before `limit`.
abbrev pub IsFresh : ℕ → Line → Type 0
IsFresh limit l = All (λ p. limit ≤ p.1) l

-- A purge that comes before all deadlines turns the line once.
sweep_loop-fresh :
    (clock : ℕ → ℕ) (limit i : ℕ) (p r : Line)
    → ((n : ℕ) → clock n ≤ limit)
    → IsFresh limit p
    → i ≡ length r
    → sweep_loop clock (length p) i (p ++ r) ≡ r ++ p
unfolding sweep_loop
sweep_loop-fresh clock limit i [] r c f e = sym (append-nil r)
sweep_loop-fresh clock limit i ((k, t) ∷ p) r c f e =
    let more : ltb i (suc (length (p ++ r))) ≡ true =
      lt→ltb i _ (omega (arith, length-append p r)) in
    let kept : ltb t (clock i) ≡ false = ground (arith, c i, f.0) in
    let turned : (p ++ r) ++ (k, t) ∷ [] ≡ p ++ (r ++ (k, t) ∷ []) = append_assoc p r _ in
    let later =
      sweep_loop-fresh clock limit (suc i) p (r ++ (k, t) ∷ []) c f.1
        (omega (arith, length-append r ((k, t) ∷ []))) in
    rw more (rw kept (rw turned (later ∙ append_assoc r ((k, t) ∷ []) p)))

pub sweep_fresh :
    (clock : ℕ → ℕ) (limit : ℕ) (l : Line)
    → ((n : ℕ) → clock n ≤ limit)
    → IsFresh limit l
    → sweep clock l ≡ l
unfolding sweep
sweep_fresh clock limit l c f =
    subst (λ m. sweep_loop clock (length l) 0 m ≡ l) (append-nil l)
      (sweep_loop-fresh clock limit 0 l [] c f refl)

look_after_fresh :
    (input : Queue.Input) (at limit : ℕ) (r : Roster)
    → ((n : ℕ) → input.purged_at n ≤ limit)
    → IsFresh limit r.line
    → (look_after input at r).0.roster ≡ r
look_after_fresh input at limit r c f = elim (Bool-cases (is_nil r.line)) [
  | inl e ↦ rw e refl
  | inr e ↦ rw e (rw (sweep_fresh input.purged_at limit r.line c f) refl)
]

-- Where the round over the line succeeds, the process does the same.
shown-ok :
    (m : Result (Queue.State × List Queue.Sent)) (p : Post) (sent : List Queue.Sent)
    → shown_post m ≡ ok (p, sent)
    → (s : Queue.State) × (m ≡ ok (s, sent)) × (post_of s ≡ p)
shown-ok (ok (s, out)) p sent e =
    (s, ap (λ o. ok (s, o)) (ap (λ q. q.1) (ok_injective e)), ap (λ q. q.0) (ok_injective e))
shown-ok Result.stop p sent e = cc
shown-ok (fault f) p sent e = cc

-- The message to the worker comes before any heartbeat of the round.
abbrev pub paranoid_named : List Queue.Sent → Result Bytes
paranoid_named (Queue.to_backend (k ∷ _) ∷ _) = ok k
paranoid_named _ = fault starved

-- A round that brings READY of a worker, and one that brings a request.
abbrev pub paranoid_joins : (ℕ → Queue.Input) → Bytes → Rounds → Result Rounds
paranoid_joins inputs k q = do
  (s, sent) ←
      Queue.step
        (record (inputs q.number) { backend = some (k ∷ Queue.ready ∷ []); frontend = none })
        q.state
  ok (record { state = s; number = suc q.number })

abbrev pub paranoid_serves : (ℕ → Queue.Input) → Request → Rounds → Result (Rounds × Bytes)
paranoid_serves inputs r q = do
  (s, sent) ←
      Queue.step (record (inputs q.number) { backend = none; frontend = some (frames_of r) })
        q.state
  k ← paranoid_named sent
  ok (record { state = s; number = suc q.number }, k)

-- All READYs are read at `start` or later, and all purges come within the term of a worker from then.
abbrev pub IsWithin : ℕ → (ℕ → Queue.Input) → Type 0
IsWithin start inputs =
    (n : ℕ) → (start ≤ (inputs n).seen_at) × ((i : ℕ) → (inputs n).purged_at i ≤ start + Queue.ttl)

pub record IsServing (start : ℕ) (w : Workers) : Type 0 where
  pub valid : IsValid w
  pub term : w.ttl ≡ Queue.ttl
  pub fresh : IsFresh (start + Queue.ttl) (line w)

without_absent : (k : Bytes) (l : Line) → listed k l ≡ false → without k l ≡ l
without_absent k [] h = refl
without_absent k ((j, t) ∷ l) h =
    let other : same j k ≡ false = ground arith in
    rw other (ap (λ r. (j, t) ∷ r) (without_absent k l (ground arith)))

map_same : (q : List Bytes) → map (λ k. k) q ≡ q
map_same [] = refl
map_same (k ∷ q) = ap (λ r. k ∷ r) (map_same q)

names-append : (l m : Line) → map (λ p. p.0) (l ++ m) ≡ map (λ p. p.0) l ++ map (λ p. p.0) m
names-append [] m = refl
names-append (p ∷ l) m = ap (λ q. p.0 ∷ q) (names-append l m)

queue-line : (w : Workers) → map (λ p. p.0) (line w) ≡ w.queue
queue-line w = map-line (λ k. k) w ∙ map_same w.queue

listed-line : (k : Bytes) (w : Workers) → listed k (line w) ≡ member k w.queue
unfolding line
listed-line k w = listed-dated k w.lookup w.queue

-- The line begins as the queue does.
line-queue :
    (w : Workers) (k : Bytes) (rest : List Bytes)
    → w.queue ≡ k ∷ rest
    → (t : ℕ) × (l : Line) × (line w ≡ (k, t) ∷ l) × (map (λ p. p.0) l ≡ rest)
unfolding line dated
line-queue w k rest e =
    let m = w.lookup in
    (deadline (find? k m), dated m rest, rw e refl, map-dated (λ j. j) m rest ∙ map_same rest)

-- What the line of the process shows after a round that the clock keeps within the term.
after_round :
    (start : ℕ) (input : Queue.Input) (s : Queue.State) (r : Roster) (sent : List Queue.Sent)
    → ((i : ℕ) → input.purged_at i ≤ start + Queue.ttl)
    → IsServing start s.workers
    → r.term ≡ Queue.ttl
    → IsFresh (start + Queue.ttl) r.line
    → round input (post_of s) ≡ ok ((look_after input s.heartbeat_at r).0, sent)
    → (s' : Queue.State) × (Queue.step input s ≡ ok (s', sent))
      × IsServing start s'.workers
      × (s'.workers.queue ≡ map (λ p. p.0) r.line)
unfolding post_of roster_of
after_round start input s r sent c v t f e =
    let (s', done, shows) =
      shown-ok (Queue.step input s) (look_after input s.heartbeat_at r).0 sent
        (step_refines input s v.valid ∙ e) in
    let same_roster : roster_of s'.workers ≡ r =
      ap (λ p. p.roster) shows ∙ look_after_fresh input s.heartbeat_at (start + Queue.ttl) r c f in
    let same_line : line s'.workers ≡ r.line = ap (λ r. r.line) same_roster in
    (
      s',
      done,
      record {
        valid = step-IsValid input s v.valid done;
        term = ap (λ r. r.term) same_roster ∙ t;
        fresh = rw same_line f;
      },
      sym (queue-line s'.workers) ∙ ap (map (λ p. p.0)) same_line,
    )

pub init-IsServing : (start at : ℕ) → IsServing start (Queue.init at).workers
unfolding Queue.init Workers.new line dated
init-IsServing start at = record { valid = new-IsValid Queue.ttl; term = refl; fresh = tt }

pub paranoid_joins-waiting :
    (start : ℕ) (inputs : ℕ → Queue.Input) (k : Bytes) (q : Rounds)
    → IsWithin start inputs × IsServing start q.state.workers
    → member k q.state.workers.queue ≡ false
    → (q' : Rounds) × (paranoid_joins inputs k q ≡ ok q')
      × (IsWithin start inputs × IsServing start q'.state.workers)
      × (q'.state.workers.queue ≡ q.state.workers.queue ++ k ∷ [])
unfolding round post_of roster_of same
paranoid_joins-waiting start inputs k q (c, v) m =
    let input : Queue.Input = record (inputs q.number) {
      backend = some (k ∷ Queue.ready ∷ []);
      frontend = none;
    } in
    let w = q.state.workers in
    let l = line w in
    let r : Roster = record {
      term = w.ttl;
      line = without k l ++ (k, input.seen_at + w.ttl) ∷ [];
    } in
    let same_line : without k l ≡ l = without_absent k l (listed-line k w ∙ m) in
    let fresh : IsFresh (start + Queue.ttl) r.line =
      rw same_line (All-append _ l _ v.fresh (rw v.term (omega (arith, (c q.number).0)), tt)) in
    let (s', done, v', e) =
      after_round start input q.state r (look_after input q.state.heartbeat_at r).1 (c q.number).1 v
        v.term fresh refl in
    (
      record { state = s'; number = suc q.number },
      rw done refl,
      (c, v'),
      e ∙ rw same_line (names-append l _ ∙ ap (λ q. q ++ k ∷ []) (queue-line w)),
    )

pub paranoid_serves-waiting :
    (start : ℕ) (inputs : ℕ → Queue.Input) (request : Request) (k : Bytes) (rest : List Bytes)
    (q : Rounds)
    → IsWithin start inputs × IsServing start q.state.workers
    → q.state.workers.queue ≡ k ∷ rest
    → (q' : Rounds) × (paranoid_serves inputs request q ≡ ok (q', k))
      × (IsWithin start inputs × IsServing start q'.state.workers)
      × (q'.state.workers.queue ≡ rest)
unfolding round post_of roster_of
paranoid_serves-waiting start inputs request k rest q (c, v) e =
    let input : Queue.Input = record (inputs q.number) {
      backend = none;
      frontend = some (frames_of request);
    } in
    let w = q.state.workers in
    let (t, l, e₁, names) = line-queue w k rest e in
    let r : Roster = record { term = w.ttl; line = l } in
    let fresh : IsFresh (start + Queue.ttl) l =
      (subst (IsFresh (start + Queue.ttl)) e₁ v.fresh).1 in
    let (s', done, v', e₂) =
      after_round start input q.state r
        (Queue.to_backend (k ∷ frames_of request) ∷ (look_after input q.state.heartbeat_at r).1)
        (c q.number).1 v v.term fresh (rw e₁ refl) in
    (record { state = s'; number = suc q.number }, rw done refl, (c, v'), e₂ ∙ names)

unfoldable pub paranoid : ℕ → (ℕ → Queue.Input) → ℕ → Broker Rounds
paranoid start inputs capacity = record {
  capacity = capacity;
  IsServing = λ q. IsWithin start inputs × IsServing start q.state.workers;
  waiting = λ q. q.state.workers.queue;
  joins = paranoid_joins inputs;
  serves = paranoid_serves inputs;
  joins-waiting = λ k q s a h. paranoid_joins-waiting start inputs k q s;
  serves-waiting = paranoid_serves-waiting start inputs;
}
