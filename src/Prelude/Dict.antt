-- ===== src/Prelude/Dict.antt =====
-- `std::unordered_map` keyed by byte strings, as an association list.
use mathlib.Core.Path.{◌≡◌, refl}
use mathlib.Core.Logic.{inl, inr}
use mathlib.Core.Bool.{Bool, true, false, ◌||◌}
use mathlib.Core.Option.{Option, none, some}
use mathlib.Core.List.{List, [], ◌∷◌}
use native.Mathlib.Omega.{arith}
use zguide_examples.Prelude.Tests.{if◌then◌else◌, Bool-cases}
use zguide_examples.Prelude.Bytes.{Bytes, same, keys}

abbrev pub Dict : Type 0 → Type 0
Dict V = List (Bytes × V)

module _ {V : Type 0} where
  unfoldable pub find? : Bytes → Dict V → Option V
  find? k [] = none
  find? k ((j, v) ∷ m) = if same j k then some v else find? k m

  -- `m[k] = v`
  unfoldable pub put : Bytes → V → Dict V → Dict V
  put k v [] = (k, v) ∷ []
  put k v ((j, w) ∷ m) = if same j k then (k, v) ∷ m else (j, w) ∷ put k v m

  -- `m.erase(k)`
  unfoldable pub erase : Bytes → Dict V → Dict V
  erase k [] = []
  erase k ((j, v) ∷ m) = let rest = erase k m in if same j k then rest else (j, v) ∷ rest

  -- `m.count(k)`
  unfoldable pub has : Bytes → Dict V → Bool
  has k [] = false
  has k ((j, v) ∷ m) = same j k || has k m

  pub find?-put :
      (k j : Bytes) (v : V) (m : Dict V)
      → find? j (put k v m) ≡ (if same k j then some v else find? j m)
  unfolding find? put
  find?-put k j v [] = refl
  find?-put k j v ((i, w) ∷ m) = grind (keys, find?-put k j v m)

  pub find?-erase :
      (k j : Bytes) (m : Dict V) → find? j (erase k m) ≡ (if same k j then none else find? j m)
  unfolding find? erase
  find?-erase k j [] = ground arith
  find?-erase k j ((i, w) ∷ m) = grind (keys, find?-erase k j m)

  pub has-put : (k j : Bytes) (v : V) (m : Dict V) → has j (put k v m) ≡ (same k j || has j m)
  unfolding has put
  has-put k j v [] = refl
  has-put k j v ((i, w) ∷ m) = grind (keys, has-put k j v m)

  pub has-erase :
      (k j : Bytes) (m : Dict V) → has j (erase k m) ≡ (if same k j then false else has j m)
  unfolding has erase
  has-erase k j [] = ground arith
  has-erase k j ((i, w) ∷ m) = grind (keys, has-erase k j m)

  pub has-find? : (k : Bytes) (m : Dict V) → has k m ≡ true → (v : V) × (find? k m ≡ some v)
  unfolding has find?
  has-find? k [] h = cc
  has-find? k ((j, v) ∷ m) h = elim (Bool-cases (same j k)) [
    | inl e ↦ (v, rw e)
    | inr e ↦ rw e (has-find? k m (ground arith))
  ]
