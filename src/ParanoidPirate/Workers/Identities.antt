-- ===== src/ParanoidPirate/Workers/Identities.antt =====
-- Lists of identities without repetition, as the queue of workers.cpp keeps them.
use zguide_examples.Prelude.{◌≡◌, refl, Bool, false, ◌||◌, List, [], ◌∷◌, ◌++◌, arith}
use zguide_examples.Prelude.Bytes.{keys, Bytes, same}

unfoldable pub member : Bytes → List Bytes → Bool
member k [] = false
member k (j ∷ q) = same j k || member k q

abbrev pub Distinct : List Bytes → Type 0
Distinct [] = Unit
Distinct (k ∷ q) = (member k q ≡ false) × Distinct q

pub member-append : (k : Bytes) (p q : List Bytes) → member k (p ++ q) ≡ (member k p || member k q)
unfolding member
member-append k [] q = refl
member-append k (j ∷ p) q = ground (arith, member-append k p q)

pub Distinct-snoc :
    (q : List Bytes) (k : Bytes) → Distinct q → member k q ≡ false → Distinct (q ++ k ∷ [])
unfolding member
Distinct-snoc [] k d h = (refl, tt)
Distinct-snoc (j ∷ q) k d h = grind (keys, member-append j q (k ∷ []), Distinct-snoc q k d.1)
