-- ===== src/Prelude/Result.antt =====
-- What a step of a program ends in: a value, the end of its loop, or a fault.
use mathlib.Core.Path.{◌≡◌, refl, subst}
use mathlib.Core.Logic.{◌⊎◌, inl, inr}
use mathlib.Core.Bool.{Bool, true, false}
use mathlib.Core.List.{List, [], ◌∷◌}
use mathlib.Core.Option.{Option, none, some}

-- `assert_failed`: `abort()`. `empty_front`: `front()` or `pop_front()` of an empty container.
-- `empty_send`: `end() - 1` of an empty message. `overflow`: an access past the end of an array.
-- `dangling`: a pointer to no object. `zero_division`: an integer division by zero.
-- `thrown`: an exception that nothing catches. `starved`: `recv` waits for a frame that is not sent.
-- `unset`: a read of a variable that nothing has written.
pub data Fault : Type 0 where
  assert_failed empty_front empty_send overflow dangling zero_division thrown starved unset : Fault

-- `stop`: the loop is left by `break`.
pub data Result {ℓ} (A : Type ℓ) : Type ℓ where
  ok : A → Result A
  stop : Result A
  fault : Fault → Result A

infixl 5 ◌>>=◌ ◌>>◌
abbrev pub ◌>>=◌ {κ μ} : {X : Type κ} {Y : Type μ} → Result X → (X → Result Y) → Result Y
fault e >>= next = fault e
stop >>= next = stop
ok x >>= next = next x

-- For a first part that is only a check.
abbrev pub ◌>>◌ {κ} : {Y : Type κ} → Result (Unit {0}) → Result Y → Result Y
check >> rest = check >>= λ _. rest

abbrev pub assert : Bool → Result (Unit {0})
assert true = ok tt
assert false = fault assert_failed

-- `front()` and then `pop_front()`.
abbrev pub take_front {ℓ} : {A : Type ℓ} → List A → Result (A × List A)
take_front [] = fault empty_front
take_front (x ∷ xs) = ok (x, xs)

-- A chain that succeeds: so did its first part.
pub >>=-eq-ok {κ μ} :
    {X : Type κ} {Y : Type μ} (r : Result X) (next : X → Result Y) {y : Y}
    → (r >>= next) ≡ ok y
    → (x : X) × (r ≡ ok x) × (next x ≡ ok y)
>>=-eq-ok (fault e) next h = cc
>>=-eq-ok stop next h = cc
>>=-eq-ok (ok x) next h = (x, refl, h)

-- Inversion of a bind that faults: the first part did, or the second.
pub Result-cases {ℓ} :
    {A : Type ℓ} (m : Result A)
    → ((a : A) × (m ≡ ok a)) ⊎ (m ≡ stop) ⊎ ((e : Fault) × (m ≡ fault e))
Result-cases (ok a) = inl (a, refl)
Result-cases stop = inr (inl refl)
Result-cases (fault e) = inr (inr (e, refl))

pub ok_injective {ℓ} : {A : Type ℓ} {a b : A} → ok a ≡ ok b → a ≡ b
ok_injective e = cc

-- A postcondition of what succeeds.
abbrev pub Ensures {ℓ κ} : {A : Type ℓ} → (A → Type κ) → Result A → Type κ
Ensures P (ok a) = P a
Ensures P stop = Unit
Ensures P (fault e) = Unit

pub Ensures-bind {ℓ κ μ} :
    {A : Type ℓ} {B : Type κ} (P : B → Type μ) (m : Result A) (f : A → Result B)
    → ((a : A) → m ≡ ok a → Ensures P (f a))
    → Ensures P (m >>= f)
Ensures-bind P (ok a) f h = h a refl
Ensures-bind P stop f h = tt
Ensures-bind P (fault e) f h = tt

pub Ensures-ok {ℓ κ} :
    {A : Type ℓ} (P : A → Type κ) (m : Result A) {a : A} → Ensures P m → m ≡ ok a → P a
Ensures-ok P (ok b) h e = subst P (ok_injective e) h
Ensures-ok P stop h e = absurd (cc)
Ensures-ok P (fault x) h e = absurd (cc)

pub Ensures-intro {ℓ κ} :
    {A : Type ℓ} (P : A → Type κ) (m : Result A) → ((a : A) → m ≡ ok a → P a) → Ensures P m
Ensures-intro P (ok b) h = h b refl
Ensures-intro P stop h = tt
Ensures-intro P (fault x) h = tt

pub >>=-eq-fault {ℓ κ} :
    {A : Type ℓ} {B : Type κ} (m : Result A) (f : A → Result B) {e : Fault}
    → (m >>= f) ≡ fault e
    → (m ≡ fault e) ⊎ ((a : A) × (m ≡ ok a) × (f a ≡ fault e))
>>=-eq-fault (ok a) f h = inr (a, refl, h)
>>=-eq-fault stop f h = absurd (cc)
>>=-eq-fault (fault x) f h = inl (cc)

-- A postcondition of what succeeds, and one of the faults.
abbrev pub Yields {ℓ κ} : {A : Type ℓ} → (A → Type κ) → (Fault → Type κ) → Result A → Type κ
Yields P Q (ok a) = P a
Yields P Q stop = Unit
Yields P Q (fault e) = Q e

abbrev pub or_fault {ℓ} : {A : Type ℓ} → Fault → Option A → Result A
or_fault e (some a) = ok a
or_fault e none = fault e

-- The rule for a chain.
pub Yields-then {ℓ κ μ} :
    {A : Type ℓ} {B : Type κ} (P : A → Type μ) (P' : B → Type μ) (Q : Fault → Type μ) (m : Result A)
    (f : A → Result B)
    → Yields P Q m
    → ((a : A) → P a → Yields P' Q (f a))
    → Yields P' Q (m >>= f)
Yields-then P P' Q (ok a) f h k = k a h
Yields-then P P' Q stop f h k = tt
Yields-then P P' Q (fault e) f h k = h

pub Yields-mono {ℓ κ} :
    {A : Type ℓ} (P P' : A → Type κ) (Q : Fault → Type κ) (m : Result A)
    → ((a : A) → P a → P' a)
    → Yields P Q m
    → Yields P' Q m
Yields-mono P P' Q (ok a) f h = f a h
Yields-mono P P' Q stop f h = tt
Yields-mono P P' Q (fault e) f h = h
