-- ===== src/ParanoidPirate/Workers/Line.antt =====
-- What workers.cpp promises: a line of workers, each with its deadline. The queue and the expiry
-- table carry it out.
use zguide_examples.Prelude.{
  ℕ, ◌+◌, ◌≡◌, refl, ap, ◌∙◌, inl, inr, Bool, true, false, ◌||◌, List, [], ◌∷◌, ◌++◌, arith, sym,
}
use zguide_examples.Prelude.Tests.{if◌then◌else◌, Bool-cases}
use zguide_examples.Prelude.Bytes.{keys, Bytes, same, same_iff, same_refl}
use zguide_examples.Prelude.Dict.{Dict, find?, put, has, find?-put, find?-erase}
use zguide_examples.Prelude.Dict
use zguide_examples.Prelude.Result.{Result, ok, fault, assert_failed, empty_front, ◌>>=◌}
use zguide_examples.ParanoidPirate.Workers.Identities.{member, Distinct}
use zguide_examples.ParanoidPirate.Workers.Invariant.{IsValid}
use zguide_examples.ParanoidPirate.Workers.Judged.{deadline}
use zguide_examples.ParanoidPirate.Workers.{
  Workers, remove, erase, push, refresh, front, pop, front_of, pop_from,
}

abbrev pub Line : Type 0
Line = List (Bytes × ℕ)

abbrev pub listed : Bytes → Line → Bool
listed k [] = false
listed k ((j, t) ∷ l) = same j k || listed k l

abbrev pub without : Bytes → Line → Line
without k [] = []
without k ((j, t) ∷ l) = let rest = without k l in if same j k then l else (j, t) ∷ rest

abbrev pub renewed : Bytes → ℕ → Line → Line
renewed k t [] = []
renewed k t ((j, s) ∷ l) = (j, if same k j then t else s) ∷ renewed k t l

abbrev pub behind_first : Line → Line
behind_first [] = []
behind_first (p ∷ l) = l

abbrev pub first : Line → Result Bytes
first [] = fault empty_front
first ((k, t) ∷ l) = ok k

-- The line that a queue and a table stand for.
unfoldable pub dated : Dict ℕ → List Bytes → Line
dated m [] = []
dated m (k ∷ q) = (k, deadline (find? k m)) ∷ dated m q

unfoldable pub line : Workers → Line
unfolding dated
line w = dated w.lookup w.queue

pub listed-dated : (k : Bytes) (m : Dict ℕ) (q : List Bytes) → listed k (dated m q) ≡ member k q
unfolding dated member
listed-dated k m [] = refl
listed-dated k m (j ∷ q) = ap (λ b. same j k || b) (listed-dated k m q)

pub dated-append : (m : Dict ℕ) (q r : List Bytes) → dated m (q ++ r) ≡ dated m q ++ dated m r
unfolding dated
dated-append m [] r = refl
dated-append m (k ∷ q) r = ap (λ l. (k, deadline (find? k m)) ∷ l) (dated-append m q r)

-- Only the deadlines of the queued workers count.
pub dated_same :
    (m n : Dict ℕ) (q : List Bytes)
    → ((j : Bytes) → member j q ≡ true → find? j m ≡ find? j n)
    → dated m q ≡ dated n q
unfolding dated member
dated_same m n [] h = refl
dated_same m n (k ∷ q) h =
    rw (h k (ground (arith, same_refl k)))
      (ap (λ l. (k, deadline (find? k n)) ∷ l) (dated_same m n q (λ j e. h j (ground (arith, e)))))

dated-put :
    (k : Bytes) (t : ℕ) (m : Dict ℕ) (q : List Bytes)
    → dated (put k t m) q ≡ renewed k t (dated m q)
unfolding dated
dated-put k t m [] = refl
dated-put k t m (j ∷ q) =
    rw (find?-put k j t m)
      (rw (dated-put k t m q) (elim (Bool-cases (same k j)) [ inl e ↦ rw e | inr e ↦ rw e ]))

renewed_other : (k : Bytes) (t : ℕ) (l : Line) → listed k l ≡ false → renewed k t l ≡ l
renewed_other k t [] h = refl
renewed_other k t ((j, s) ∷ l) h =
    let other : same k j ≡ false = grind keys in
    rw other (ap (λ r. (j, s) ∷ r) (renewed_other k t l (ground arith)))

pub dated-erase :
    (k : Bytes) (m : Dict ℕ) (q : List Bytes)
    → member k q ≡ false
    → dated (Dict.erase k m) q ≡ dated m q
dated-erase k m q h = dated_same (Dict.erase k m) m q (λ j e. elim (Bool-cases (same k j)) [
  | inl f ↦ absurd (ground (arith, ap (λ i. member i q) ((same_iff k j).0 f)))
  | inr f ↦ rw (find?-erase k j m) (rw f)
])

dated-remove :
    (k : Bytes) (m : Dict ℕ) (q : List Bytes)
    → Distinct q
    → dated (Dict.erase k m) (remove k q) ≡ without k (dated m q)
unfolding dated remove
dated-remove k m [] d = refl
dated-remove k m (j ∷ q) d = elim (Bool-cases (same j k)) [
  | inl e ↦ rw e (dated-erase k m q (rw (sym ((same_iff j k).0 e)) d.0))
  | inr e ↦
      let other : same k j ≡ false = grind keys in
      rw e (
        rw (find?-erase k j m)
          (rw other (ap (λ l. (j, deadline (find? j m)) ∷ l) (dated-remove k m q d.1))))
]

-- The line after an operation, or its fault.
abbrev pub line_of : Result Workers → Result Line
line_of r = r >>= λ w. ok (line w)

line-push :
    (now : ℕ) (k : Bytes) (w : Workers)
    → IsValid w
    → line_of (push now k w)
      ≡ (if listed k (line w) then fault assert_failed else ok (line w ++ (k, now + w.ttl) ∷ []))
unfolding push line
line-push now k w v = elim (Bool-cases (has k w.lookup)) [
  | inl e ↦
      let there : listed k (dated w.lookup w.queue) ≡ true =
        listed-dated k w.lookup w.queue ∙ sym (v.agree k) ∙ e in
      rw e (rw there)
  | inr e ↦
      let absent : listed k (dated w.lookup w.queue) ≡ false =
        listed-dated k w.lookup w.queue ∙ sym (v.agree k) ∙ e in
      let old : dated (put k (now + w.ttl) w.lookup) w.queue ≡ dated w.lookup w.queue =
        dated-put k (now + w.ttl) w.lookup w.queue
        ∙ renewed_other k (now + w.ttl) (dated w.lookup w.queue) absent in
      rw e (
        rw absent (
          ap ok (
            dated-append (put k (now + w.ttl) w.lookup) w.queue (k ∷ [])
            ∙ rw old (rw (find?-put k k (now + w.ttl) w.lookup) (rw (same_refl k))))))
]

line-refresh :
    (now : ℕ) (k : Bytes) (w : Workers)
    → IsValid w
    → line_of (refresh now k w)
      ≡ (if listed k (line w) then ok (renewed k (now + w.ttl) (line w)) else fault assert_failed)
unfolding refresh line
line-refresh now k w v =
    rw (listed-dated k w.lookup w.queue ∙ sym (v.agree k)) (elim (Bool-cases (has k w.lookup)) [
      | inl e ↦ rw e (ap ok (dated-put k (now + w.ttl) w.lookup w.queue))
      | inr e ↦ rw e
    ])

line-pop_from :
    (q : List Bytes) (w : Workers)
    → w.queue ≡ q
    → Distinct q
    → line (pop_from q w) ≡ behind_first (dated w.lookup q)
unfolding pop_from line
line-pop_from [] w e d = rw e
line-pop_from (k ∷ q) w e d = dated-erase k w.lookup q d.0

first-dated : (m : Dict ℕ) (q : List Bytes) → front_of q ≡ first (dated m q)
unfolding dated
first-dated m [] = refl
first-dated m (k ∷ q) = refl

-- Each operation does to the line that a consistent queue and table stand for what is expected of
-- it: `erase` takes the worker out, `push` puts a worker that is not listed at the end, with a whole
-- term before it, `refresh` renews the deadline of a listed one and moves none, `front` names the
-- first, and `pop` takes it out.
pub line_refined :
    (now : ℕ) (k : Bytes) (w : Workers)
    → IsValid w
    → (line (erase k w) ≡ without k (line w))
      × (line_of (push now k w) ≡ (
          if listed k (line w) then fault assert_failed else ok (line w ++ (k, now + w.ttl) ∷ [])))
      × (line_of (refresh now k w) ≡ (
          if listed k (line w) then ok (renewed k (now + w.ttl) (line w)) else fault assert_failed))
      × (front w ≡ first (line w))
      × (line (pop w) ≡ behind_first (line w))
unfolding erase line front pop
line_refined now k w v = (
  dated-remove k w.lookup w.queue v.distinct,
  line-push now k w v,
  line-refresh now k w v,
  first-dated w.lookup w.queue,
  line-pop_from w.queue w refl v.distinct,
)
