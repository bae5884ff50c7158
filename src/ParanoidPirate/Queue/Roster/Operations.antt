-- ===== src/ParanoidPirate/Queue/Roster/Operations.antt =====
-- The operations of workers.cpp, as the roster sees them.
use zguide_examples.Prelude.{ℕ, ◌≡◌, refl, ap, sym, ◌∙◌, inl, inr, false, List, [], ◌∷◌, map}
use zguide_examples.Prelude.Tests.{if◌then◌else◌, Bool-cases}
use zguide_examples.Prelude.Bytes.{Bytes, same_refl}
use zguide_examples.Prelude.Dict.{has, has-erase, Dict}
use zguide_examples.Prelude.Result.{Ensures, stop, Result, ok, fault, assert_failed, ◌>>=◌}
use zguide_examples.ParanoidPirate.Workers.{Workers}
use zguide_examples.ParanoidPirate.Workers
use zguide_examples.ParanoidPirate.Workers.Invariant.{IsValid, erase-IsValid}
use zguide_examples.ParanoidPirate.Workers.Line.{
  Line, line, listed, without, line_refined, listed-dated, line_of, dated,
}
use zguide_examples.ParanoidPirate.Workers.Sweep.{sweep, pop_term, purge_term, line-purge}
use zguide_examples.ParanoidPirate.Queue.{keep_workers}
use zguide_examples.ParanoidPirate.Queue.Roster.{
  Roster, joined, excused, behind_first, sweep, is_nil,
}

unfoldable pub roster_of : Workers → Roster
roster_of w = record { term = w.ttl; line = line w }

abbrev pub seen : Result Workers → Result Roster
seen m = m >>= λ w. ok (roster_of w)

has-listed : (k : Bytes) (w : Workers) → IsValid w → listed k (line w) ≡ has k w.lookup
unfolding line
has-listed k w v = listed-dated k w.lookup w.queue ∙ sym (v.agree k)

-- What an operation makes of the line, and the term that it leaves, make the roster.
seen_lem :
    (m : Result Workers) (t : ℕ)
    → Ensures (λ w. w.ttl ≡ t) m
    → seen m ≡ (line_of m >>= λ l. ok (record { term = t; line = l }))
unfolding roster_of
seen_lem (ok w) t h = rw h refl
seen_lem stop t h = refl
seen_lem (fault e) t h = refl

push_term :
    (now : ℕ) (k : Bytes) (w : Workers) → Ensures (λ w'. w'.ttl ≡ w.ttl) (Workers.push now k w)
unfolding Workers.push
push_term now k w = elim (Bool-cases (has k w.lookup)) [ inl e ↦ rw e tt | inr e ↦ rw e refl ]

refresh_term :
    (now : ℕ) (k : Bytes) (w : Workers) → Ensures (λ w'. w'.ttl ≡ w.ttl) (Workers.refresh now k w)
unfolding Workers.refresh
refresh_term now k w = elim (Bool-cases (has k w.lookup)) [ inl e ↦ rw e refl | inr e ↦ rw e tt ]

pub seen-push :
    (now : ℕ) (k : Bytes) (w : Workers)
    → IsValid w
    → seen (Workers.push now k w)
      ≡ (if listed k (line w) then fault assert_failed else ok (joined now k (roster_of w)))
unfolding roster_of
seen-push now k w v =
    seen_lem (Workers.push now k w) w.ttl (push_term now k w)
    ∙ rw (line_refined now k w v).1
        (elim (Bool-cases (listed k (line w))) [ inl e ↦ rw e refl | inr e ↦ rw e refl ])

pub seen-refresh :
    (now : ℕ) (k : Bytes) (w : Workers)
    → IsValid w
    → seen (Workers.refresh now k w)
      ≡ (if listed k (line w) then ok (excused now k (roster_of w)) else fault assert_failed)
unfolding roster_of
seen-refresh now k w v =
    seen_lem (Workers.refresh now k w) w.ttl (refresh_term now k w)
    ∙ rw (line_refined now k w v).2
        (elim (Bool-cases (listed k (line w))) [ inl e ↦ rw e refl | inr e ↦ rw e refl ])

-- A worker that is taken out first can always be put in.
pub seen-rejoin :
    (now : ℕ) (k : Bytes) (w : Workers)
    → IsValid w
    → seen (Workers.push now k (Workers.erase k w))
      ≡ ok (joined now k (record (roster_of w) { line = without k (line w) }))
unfolding roster_of Workers.erase
seen-rejoin now k w v =
    let u = Workers.erase k w in
    let absent : listed k (line u) ≡ false =
      has-listed k u (erase-IsValid k w v) ∙ rw (has-erase k k w.lookup) (rw (same_refl k) refl) in
    let out : line u ≡ without k (line w) = (line_refined now k w v).0 in
    seen-push now k u (erase-IsValid k w v) ∙ rw absent (rw out refl)

pub seen-try_push :
    (now : ℕ) (k : Bytes) (w : Workers)
    → IsValid w
    → seen (keep_workers (Workers.try_push now k w))
      ≡ ok (if listed k (line w) then roster_of w else joined now k (roster_of w))
unfolding Workers.try_push Workers.push
seen-try_push now k w v =
    let new = seen-push now k w v in
    rw (has-listed k w v) (elim (Bool-cases (has k w.lookup)) [
      | inl e ↦ rw e refl
      | inr e ↦ rw e (rw e at (rw (has-listed k w v) at new))
    ])

roster_eq :
    {t u : ℕ} {l m : Line}
    → t ≡ u
    → l ≡ m
    → Path Roster (record { term = t; line = l }) (record { term = u; line = m })
roster_eq e f = rw e (rw f refl)

pub roster_of-pop :
    (w : Workers)
    → IsValid w
    → roster_of (Workers.pop w) ≡ record (roster_of w) { line = behind_first (line w) }
unfolding roster_of
roster_of-pop w v = roster_eq (pop_term w) (line_refined 0 [] w v).4

pub roster_of-purge :
    (clock : ℕ → ℕ) (w : Workers)
    → IsValid w
    → roster_of (Workers.purge clock w) ≡ record (roster_of w) { line = sweep clock (line w) }
unfolding roster_of
roster_of-purge clock w v = roster_eq (purge_term clock w) (line-purge clock w v)

is_nil-dated : (m : Dict ℕ) (q : List Bytes) → is_nil (dated m q) ≡ is_nil q
unfolding dated
is_nil-dated m [] = refl
is_nil-dated m (k ∷ q) = refl

pub is_nil-line : (w : Workers) → is_nil (line w) ≡ Workers.empty w
unfolding line Workers.empty
is_nil-line w = is_nil-dated w.lookup w.queue

pub map-dated {ℓ} :
    {A : Type ℓ} (f : Bytes → A) (m : Dict ℕ) (q : List Bytes)
    → map (λ p. f p.0) (dated m q) ≡ map f q
unfolding dated
map-dated f m [] = refl
map-dated f m (k ∷ q) = ap (λ l. f k ∷ l) (map-dated f m q)

-- The identities of the line are those of the queue, in order.
pub map-line {ℓ} :
    {A : Type ℓ} (f : Bytes → A) (w : Workers) → map (λ p. f p.0) (line w) ≡ map f w.queue
unfolding line
map-line f w = map-dated f w.lookup w.queue
