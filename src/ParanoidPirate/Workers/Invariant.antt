-- ===== src/ParanoidPirate/Workers/Invariant.antt =====
-- The queue and the expiry table hold the same workers, each once.
use zguide_examples.Prelude.{
  ℕ, zero, suc, ◌+◌, ◌≡◌, refl, inl, inr, ap, Bool, true, false, some, List, [], ◌∷◌, ◌++◌, arith,
}
use mathlib.Core.Path.{subst}
use zguide_examples.Prelude.Tests.{ltb, if◌then◌else◌, Bool-cases}
use zguide_examples.Prelude.Lists.{length}
use zguide_examples.Prelude.Bytes.{keys, Bytes, same, same_refl}
use zguide_examples.Prelude.Dict.{Dict, find?, put, has, has-put, has-erase, has-find?}
use zguide_examples.Prelude.Dict
use zguide_examples.Prelude.Result.{ok, ok_injective}
use zguide_examples.ParanoidPirate.Workers.Identities.{
  member, Distinct, member-append, Distinct-snoc,
}
use zguide_examples.ParanoidPirate.Workers.{
  Workers, new, remove, erase, push, try_push, refresh, pop_from, pop, subscript, purge_front,
  purge_loop, purge,
}

pub record IsValid (w : Workers) : Type 0 where
  pub distinct : Distinct w.queue
  pub agree : (k : Bytes) → has k w.lookup ≡ member k w.queue

pub new-IsValid : (ttl : ℕ) → IsValid (new ttl)
unfolding new has member
new-IsValid ttl = record { distinct = tt; agree = λ k. refl }

member-remove :
    (k j : Bytes) (q : List Bytes)
    → Distinct q
    → member j (remove k q) ≡ (if same k j then false else member j q)
unfolding member remove
member-remove k j [] d = ground arith
member-remove k j (i ∷ q) d = grind (keys, member-remove k j q d.1)

Distinct-remove : (k : Bytes) (q : List Bytes) → Distinct q → Distinct (remove k q)
unfolding remove
Distinct-remove k [] d = tt
Distinct-remove k (i ∷ q) d = ground (arith, member-remove k i q d.1, Distinct-remove k q d.1)

pub erase-IsValid : (k : Bytes) (w : Workers) → IsValid w → IsValid (erase k w)
unfolding erase
erase-IsValid k w v = record {
  distinct = Distinct-remove k w.queue v.distinct;
  agree =
      λ j. ground (arith, has-erase k j w.lookup, member-remove k j w.queue v.distinct, v.agree j);
}

-- A new worker goes to the back.
entered-IsValid :
    (k : Bytes) (t : ℕ) (w : Workers)
    → IsValid w
    → has k w.lookup ≡ false
    → IsValid (record w { lookup = put k t w.lookup; queue = w.queue ++ k ∷ [] })
unfolding member
entered-IsValid k t w v h = record {
  distinct = Distinct-snoc w.queue k v.distinct (ground (arith, v.agree k));
  agree = λ j. ground (arith, has-put k j t w.lookup, member-append j w.queue (k ∷ []), v.agree j);
}

pub push-IsValid :
    (now : ℕ) (k : Bytes) (w : Workers) {w' : Workers}
    → IsValid w
    → push now k w ≡ ok w'
    → IsValid w'
unfolding push
push-IsValid now k w v e = elim (Bool-cases (has k w.lookup)) [
  | inl h ↦ absurd (ground arith)
  | inr h ↦ subst IsValid (ok_injective (rw h at e)) (entered-IsValid k (now + w.ttl) w v h)
]

pub try_push-IsValid :
    (now : ℕ) (k : Bytes) (w : Workers) {w' : Workers} {added : Bool}
    → IsValid w
    → try_push now k w ≡ ok (w', added)
    → IsValid w'
unfolding try_push
try_push-IsValid now k w v e = elim (Bool-cases (has k w.lookup)) [
  | inl h ↦ subst IsValid (ap (λ p. p.0) (ok_injective (rw h at e))) v
  | inr h ↦
      subst IsValid (ap (λ p. p.0) (ok_injective (rw h at e)))
        (entered-IsValid k (now + w.ttl) w v h)
]

pub refresh-IsValid :
    (now : ℕ) (k : Bytes) (w : Workers) {w' : Workers}
    → IsValid w
    → refresh now k w ≡ ok w'
    → IsValid w'
unfolding refresh
refresh-IsValid now k w v e = elim (Bool-cases (has k w.lookup)) [
  | inl h ↦ subst IsValid (ok_injective (rw h at e)) (record {
    distinct = v.distinct;
    agree = λ j. grind (keys, has-put k j (now + w.ttl) w.lookup, v.agree j, v.agree k);
  })
  | inr h ↦ absurd (ground arith)
]

-- A queued worker has a deadline.
pub front_known :
    (k : Bytes) (q : List Bytes) (w : Workers) → w.queue ≡ k ∷ q → IsValid w → has k w.lookup ≡ true
unfolding member
front_known k q w e v = ground (arith, v.agree k, ap (member k) e, same_refl k)

-- The front worker goes, from both.
popped-IsValid :
    (k : Bytes) (q : List Bytes) (w : Workers)
    → w.queue ≡ k ∷ q
    → IsValid w
    → IsValid (record w { lookup = Dict.erase k w.lookup; queue = q })
unfolding member
popped-IsValid k q w e v = record {
  distinct = (subst Distinct e v.distinct).1;
  agree = λ j. grind (keys, has-erase k j w.lookup, v.agree j, (subst Distinct e v.distinct).0);
}

pop_from-IsValid : (q : List Bytes) (w : Workers) → w.queue ≡ q → IsValid w → IsValid (pop_from q w)
unfolding pop_from
pop_from-IsValid [] w e v = v
pop_from-IsValid (k ∷ q) w e v = popped-IsValid k q w e v

pub pop-IsValid : (w : Workers) → IsValid w → IsValid (pop w)
unfolding pop
pop-IsValid w v = pop_from-IsValid w.queue w refl v

-- The front worker goes to the back.
rotated-IsValid :
    (k : Bytes) (q : List Bytes) (w : Workers)
    → w.queue ≡ k ∷ q
    → IsValid w
    → IsValid (record w { queue = q ++ k ∷ [] })
unfolding member
rotated-IsValid k q w e v =
    let d = subst Distinct e v.distinct in
    record {
      distinct = Distinct-snoc q k d.1 d.0;
      agree = λ j. ground (arith, v.agree j, member-append j q (k ∷ []), ap (member j) e);
    }

pub subscript_known : (k : Bytes) {t : ℕ} (m : Dict ℕ) → find? k m ≡ some t → subscript k m ≡ (t, m)
unfolding subscript
subscript_known k m e = ground arith

pub purge_front-IsValid :
    (now : ℕ) (q : List Bytes) (w : Workers)
    → w.queue ≡ q
    → IsValid w
    → IsValid (purge_front now q w)
unfolding purge_front
purge_front-IsValid now [] w e v = v
purge_front-IsValid now (k ∷ q) w e v =
    let (t, found) = has-find? k w.lookup (front_known k q w e v) in
    elim (Bool-cases (ltb t now)) [
      | inl dead ↦ rw (subscript_known k w.lookup found) (rw dead (popped-IsValid k q w e v))
      | inr alive ↦ rw (subscript_known k w.lookup found) (rw alive (rotated-IsValid k q w e v))
    ]

purge_loop-IsValid :
    (clock : ℕ → ℕ) (fuel i : ℕ) (w : Workers) → IsValid w → IsValid (purge_loop clock fuel i w)
unfolding purge_loop
purge_loop-IsValid clock zero i w v = v
purge_loop-IsValid clock (suc fuel) i w v = elim (Bool-cases (ltb i (length w.queue))) [
  | inl more ↦ rw more (
      purge_loop-IsValid clock fuel (suc i) (purge_front (clock i) w.queue w)
        (purge_front-IsValid (clock i) w.queue w refl v))
  | inr done ↦ rw done v
]

pub purge-IsValid : (clock : ℕ → ℕ) (w : Workers) → IsValid w → IsValid (purge clock w)
unfolding purge
purge-IsValid clock w v = purge_loop-IsValid clock (length w.queue) 0 w v
