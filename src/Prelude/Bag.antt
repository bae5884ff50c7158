-- ===== src/Prelude/Bag.antt =====
-- Lists of identities up to their order.
use mathlib.Core.Quot
use mathlib.Core.Quot.{Quot, Quot-set}
use zguide_examples.Prelude.{ℕ, ◌+◌, ◌≡◌, List, [], ◌∷◌, ◌++◌, arith, ap}
use zguide_examples.Prelude.Tests.{if◌then◌else◌}
use zguide_examples.Prelude.Bytes.{Bytes, same}

abbrev pub times : Bytes → List Bytes → ℕ
times k [] = 0
times k (j ∷ q) = (if same k j then 1 else 0) + times k q

pub times-append : (k : Bytes) (p q : List Bytes) → times k (p ++ q) ≡ times k p + times k q
times-append k [] q = omega arith
times-append k (j ∷ p) q = omega (arith, times-append k p q)

abbrev pub SameItems : List Bytes → List Bytes → Type 0
SameItems p q = (k : Bytes) → times k p ≡ times k q

abbrev pub Bag : Type 0
Bag = Quot SameItems

abbrev pub of_list : List Bytes → Bag
of_list = Quot.mk

-- How often an identity is in a bag.
unfoldable pub times_in : Bytes → Bag → ℕ
times_in k = Quot.lift (hlevel) (times k) λ p q h. h k

unfoldable pub add : Bytes → Bag → Bag
add k = Quot.lift Quot-set (λ p. of_list (k ∷ p)) λ p q h. Quot.sound λ j. omega (arith, h j)

pub same_bag : {p q : List Bytes} → SameItems p q → of_list p ≡ of_list q
same_bag h = Quot.sound h

-- What is equal as a bag holds each identity as often.
pub exact : {p q : List Bytes} → of_list p ≡ of_list q → SameItems p q
unfolding times_in
exact e k = ap (times_in k) e

pub times_in-add : (k j : Bytes) (b : Bag) → times_in k (add j b) ≡ times k (j ∷ []) + times_in k b
unfolding times_in add
times_in-add k j = Quot.ind (λ _. hlevel) (λ p. omega arith)
