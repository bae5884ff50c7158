-- ===== src/Tests/TinyOptions.antt =====
-- A small library for the parameter of the command lines: pairs of a name and a text.
use zguide_examples.Prelude.{
  ℕ, ◌≡◌, refl, ap, sym, ◌∙◌, ◌*◌, ◌+◌, ◌-◌, true, Option, none, some, List, [], ◌∷◌, ◌++◌, inl,
  inr, arith,
}
use zguide_examples.Prelude.Tests.{Bool-cases, Option-cases}
use zguide_examples.Prelude.Bytes.{Bytes, same, same_iff}
use zguide_examples.Prelude.Lists.{All}
use mathlib.Core.Path.{subst}
use zguide_examples.Prelude.Dict.{Dict, find?}
use zguide_examples.Weather.{pos}
use zguide_examples.CommandLine.{
  Kind, switch, text, number, texts, Value, on, text_value, number_value, texts_value, is_of,
  Presence, optional, required, defaulted, Spec, default_here, default_of, kind_of, or_default,
  has_required, ProgramOptions,
}

-- A number by its digits.
unfoldable pub digits : ℕ → Bytes → ℕ
digits n [] = n
digits n (c ∷ s) = digits (10 * n + (c - 48)) s

convert : Kind → Bytes → Value
convert switch s = on
convert text s = text_value s
convert number s = number_value (pos (digits 0 s))
convert texts s = texts_value (s ∷ [])

convert-is_of : (k : Kind) (s : Bytes) → is_of k (convert k s) ≡ true
unfolding convert
convert-is_of switch s = refl
convert-is_of text s = refl
convert-is_of number s = refl
convert-is_of texts s = refl

-- Pairs of a name and a text; a name without one is of no use.
unfoldable pub tiny_run : List Spec → List Bytes → Option (Dict Value)
unfolding convert
tiny_run specs [] = some []
tiny_run specs (name ∷ []) = none
tiny_run specs (name ∷ s ∷ args) = elim (tiny_run specs args) [
  | none ↦ none
  | some parsed ↦ some ((name, convert (kind_of name specs) s) ∷ parsed)
]

some_injective : {A : Type 0} {a b : A} → some a ≡ some b → a ≡ b
some_injective e = cc

abbrev pub IsTyped : List Spec → Dict Value → Type 0
IsTyped specs = All (λ (e : Bytes × Value). is_of (kind_of e.0 specs) e.1 ≡ true)

pub find?-IsTyped :
    (specs : List Spec) (parsed : Dict Value) (name : Bytes) (v : Value)
    → IsTyped specs parsed
    → find? name parsed ≡ some v
    → is_of (kind_of name specs) v ≡ true
unfolding find?
find?-IsTyped specs [] name v t found = absurd (cc)
find?-IsTyped specs ((j, w) ∷ parsed) name v t found = elim (Bool-cases (same j name)) [
  | inl e ↦
      let here : w ≡ v = ground (arith, found, e) in
      let named : j ≡ name = (same_iff j name).0 e in rw (← named) (rw (← here) t.0)
  | inr e ↦ find?-IsTyped specs parsed name v t.1 (ground (arith, found, e))
]

pub tiny_run-IsTyped :
    (specs : List Spec) (args : List Bytes) (parsed : Dict Value)
    → tiny_run specs args ≡ some parsed
    → IsTyped specs parsed
unfolding tiny_run
tiny_run-IsTyped specs [] parsed ran = subst (IsTyped specs) (some_injective ran) tt
tiny_run-IsTyped specs (a ∷ []) parsed ran = absurd (cc)
tiny_run-IsTyped specs (a ∷ s ∷ args) parsed ran = elim (Option-cases (tiny_run specs args)) [
  | inl e ↦ absurd (ground (arith, e))
  | inr (p, e) ↦
      let whole : some ((a, convert (kind_of a specs) s) ∷ p) ≡ some parsed =
        sym (rw e refl) ∙ ran in
      subst (IsTyped specs) (some_injective whole)
        (convert-is_of (kind_of a specs) s, tiny_run-IsTyped specs args p e)
]

add_default : Bytes → Presence → Dict Value → Dict Value
add_default name (defaulted v) others = (name, v) ∷ others
add_default name optional others = others
add_default name required others = others

unfoldable pub defaults : List Spec → Dict Value
unfolding add_default
defaults [] = []
defaults (s ∷ specs) = add_default s.name s.presence (defaults specs)

find?-add_default :
    (j name : Bytes) (p : Presence) (others : Dict Value)
    → find? name (add_default j p others) ≡ default_here (same j name) p (find? name others)
unfolding add_default find?
find?-add_default j name optional others = refl
find?-add_default j name required others = refl
find?-add_default j name (defaulted v) others = elim (Bool-cases (same j name)) [
  | inl e ↦ rw e refl
  | inr e ↦ rw e refl
]

pub find?-defaults :
    (specs : List Spec) (name : Bytes) → find? name (defaults specs) ≡ default_of name specs
unfolding defaults find?
find?-defaults [] name = refl
find?-defaults (s ∷ specs) name =
    find?-add_default s.name name s.presence (defaults specs)
    ∙ ap (default_here (same s.name name) s.presence) (find?-defaults specs name)

pub find?-append :
    (parsed others : Dict Value) (name : Bytes)
    → find? name (parsed ++ others) ≡ or_default (find? name parsed) (find? name others)
unfolding find?
find?-append [] others name = refl
find?-append ((j, v) ∷ parsed) others name = elim (Bool-cases (same j name)) [
  | inl e ↦ rw e refl
  | inr e ↦ rw e (find?-append parsed others name)
]

abbrev pub tiny : ProgramOptions
tiny = record {
  run = tiny_run;
  store = λ specs parsed. parsed ++ defaults specs;
  notify = has_required;
  run-is_of = λ specs args parsed name v ran.
      find?-IsTyped specs parsed name v (tiny_run-IsTyped specs args parsed ran);
  find?-store = λ specs parsed name.
      find?-append parsed (defaults specs) name
      ∙ ap (or_default (find? name parsed)) (find?-defaults specs name);
  notify_lem = λ specs vm. refl;
}
