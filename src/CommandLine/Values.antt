-- ===== src/CommandLine/Values.antt =====
-- What a program finds in its variables: the value on the command line, or the default.
use zguide_examples.Prelude.{
  ◌≡◌, refl, ap, sym, ◌∙◌, Bool, true, false, Option, none, some, List, inl, inr,
}
use zguide_examples.Prelude.Tests.{if◌then◌else◌, Option-cases, Bool-cases}
use zguide_examples.Prelude.Bytes.{Bytes}
use zguide_examples.Prelude.Dict.{Dict, find?}
use zguide_examples.Prelude.Result.{Result, ok, fault, thrown}
use zguide_examples.Weather.{ℤ}
use zguide_examples.CommandLine.{
  Kind, text, number, Value, on, text_value, number_value, texts_value, is_of, Spec, default_of,
  kind_of, or_default, is_some, as_text, as_number, as_texts, counted, has_required, ProgramOptions,
  text_of, number_of, texts_of, Outcome, usage, help, notify_first, help_first, [], caught,
  outcome_of, running, failed, outcome_with, uncaught_of,
}

abbrev pub given_number : ℤ → Option Value → ℤ
given_number n (some (number_value z)) = z
given_number n _ = n

abbrev pub given_text : Bytes → Option Value → Bytes
given_text s (some (text_value t)) = t
given_text s _ = s

abbrev pub given_texts : Option Value → List Bytes
given_texts (some (texts_value l)) = l
given_texts _ = []

abbrev pub number_given : Bytes → ℤ → Dict Value → ℤ
number_given name n parsed = given_number n (find? name parsed)

abbrev pub text_given : Bytes → Bytes → Dict Value → Bytes
text_given name s parsed = given_text s (find? name parsed)

abbrev pub texts_given : Bytes → Dict Value → List Bytes
texts_given name parsed = given_texts (find? name parsed)

-- Each value is of the kind of its option.
abbrev pub IsOf : Kind → Option Value → Type 0
IsOf k o = (v : Value) → o ≡ some v → is_of k v ≡ true

as_number-default :
    (o : Option Value) (n : ℤ)
    → IsOf number o
    → as_number (or_default o (some (number_value n))) ≡ ok (given_number n o)
as_number-default none n h = refl
as_number-default (some on) n h = absurd (cc (h on refl))
as_number-default (some (text_value s)) n h = absurd (cc (h (text_value s) refl))
as_number-default (some (number_value z)) n h = refl
as_number-default (some (texts_value l)) n h = absurd (cc (h (texts_value l) refl))

as_text-default :
    (o : Option Value) (s : Bytes)
    → IsOf text o
    → as_text (or_default o (some (text_value s))) ≡ ok (given_text s o)
as_text-default none s h = refl
as_text-default (some on) s h = absurd (cc (h on refl))
as_text-default (some (text_value t)) s h = refl
as_text-default (some (number_value z)) s h = absurd (cc (h (number_value z) refl))
as_text-default (some (texts_value l)) s h = absurd (cc (h (texts_value l) refl))

as_texts-none : (o : Option Value) → as_texts (or_default o none) ≡ ok (given_texts o)
as_texts-none none = refl
as_texts-none (some on) = refl
as_texts-none (some (text_value t)) = refl
as_texts-none (some (number_value z)) = refl
as_texts-none (some (texts_value l)) = refl

-- Without a default, for what is there.
or_default-some : (o d : Option Value) → is_some o ≡ true → or_default o none ≡ or_default o d
or_default-some none d h = absurd (cc)
or_default-some (some v) d h = refl

is_some-or_default : (o : Option Value) → is_some (or_default o none) ≡ is_some o
is_some-or_default none = refl
is_some-or_default (some v) = refl

module _ (po : ProgramOptions) (specs : List Spec) (args : List Bytes) {parsed : Dict Value}
    (ran : po.run specs args ≡ some parsed) where
  pub find?-IsOf : (name : Bytes) (k : Kind) → kind_of name specs ≡ k → IsOf k (find? name parsed)
  find?-IsOf name k e v found =
      ap (λ k'. is_of k' v) (sym e) ∙ po.run-is_of specs args parsed name v ran found

  pub stored :
      (name : Bytes) (d : Option Value)
      → default_of name specs ≡ d
      → find? name (po.store specs parsed) ≡ or_default (find? name parsed) d
  stored name d e = po.find?-store specs parsed name ∙ ap (or_default (find? name parsed)) e

  pub number_of-store :
      (name : Bytes) (n : ℤ)
      → kind_of name specs ≡ number
      → default_of name specs ≡ some (number_value n)
      → number_of name (po.store specs parsed) ≡ ok (number_given name n parsed)
  number_of-store name n k d =
      ap as_number (stored name (some (number_value n)) d)
      ∙ as_number-default (find? name parsed) n (find?-IsOf name number k)

  pub text_of-store :
      (name s : Bytes)
      → kind_of name specs ≡ text
      → default_of name specs ≡ some (text_value s)
      → text_of name (po.store specs parsed) ≡ ok (text_given name s parsed)
  text_of-store name s k d =
      ap as_text (stored name (some (text_value s)) d)
      ∙ as_text-default (find? name parsed) s (find?-IsOf name text k)

  -- An option that is required, and is there.
  pub number_of-required :
      (name : Bytes) (n : ℤ)
      → kind_of name specs ≡ number
      → default_of name specs ≡ none
      → counted name parsed ≡ true
      → number_of name (po.store specs parsed) ≡ ok (number_given name n parsed)
  number_of-required name n k d c =
      ap as_number
        (stored name none d ∙ or_default-some (find? name parsed) (some (number_value n)) c)
      ∙ as_number-default (find? name parsed) n (find?-IsOf name number k)

  pub text_of-required :
      (name s : Bytes)
      → kind_of name specs ≡ text
      → default_of name specs ≡ none
      → counted name parsed ≡ true
      → text_of name (po.store specs parsed) ≡ ok (text_given name s parsed)
  text_of-required name s k d c =
      ap as_text (stored name none d ∙ or_default-some (find? name parsed) (some (text_value s)) c)
      ∙ as_text-default (find? name parsed) s (find?-IsOf name text k)

  pub texts_of-store :
      (name : Bytes)
      → default_of name specs ≡ none
      → texts_of name (po.store specs parsed) ≡ ok (texts_given name parsed)
  texts_of-store name d = ap as_texts (stored name none d) ∙ as_texts-none (find? name parsed)

  pub counted-store :
      (name : Bytes)
      → default_of name specs ≡ none
      → counted name (po.store specs parsed) ≡ counted name parsed
  counted-store name d = ap is_some (stored name none d) ∙ is_some-or_default (find? name parsed)

caught-if :
    {A : Type 0} (b : Bool) (a : A)
    → caught (if b then ok usage else ok (running a)) ≡ ok (if b then usage else running a)
caught-if true a = refl
caught-if false a = refl

caught-uncaught_of :
    {A : Type 0} (o : Option (Dict Value)) (set : Dict Value → A)
    → caught (uncaught_of o set) ≡ ok (outcome_of o set)
caught-uncaught_of none set = refl
caught-uncaught_of (some parsed) set = caught-if (counted help parsed) (set parsed)

caught-if_failed :
    {A : Type 0} (b : Bool) (o : Outcome A)
    → o ≡ failed
    → caught (if b then ok usage else fault thrown) ≡ ok (if b then usage else o)
caught-if_failed true o e = refl
caught-if_failed false o e = ap ok (sym e)

module _ {A : Type 0} (po : ProgramOptions) (specs : List Spec) (set_up : Dict Value → Result A)
    (set : Dict Value → A) (args : List Bytes) (d : default_of help specs ≡ none) where
  -- A program without required options, once all its variables are known to be set.
  module _ (r : (vm : Dict Value) → has_required specs vm ≡ true)
      (sets : (parsed : Dict Value)
        → po.run specs args ≡ some parsed
        → set_up (po.store specs parsed) ≡ ok (set parsed)) where
    pub notify_first-uncaught_of :
        notify_first po specs set_up args ≡ uncaught_of (po.run specs args) set
    unfolding notify_first
    notify_first-uncaught_of = elim (Option-cases (po.run specs args)) [
      | inl e ↦ rw e refl
      | inr (parsed, e) ↦ rw e (
          rw (po.notify_lem specs (po.store specs parsed)) (
            rw (r (po.store specs parsed))
              (rw (counted-store po specs args e help d) (rw (sets parsed e) refl))))
    ]

    pub notify_first-outcome_of :
        caught (notify_first po specs set_up args) ≡ ok (outcome_of (po.run specs args) set)
    notify_first-outcome_of =
        ap caught notify_first-uncaught_of ∙ caught-uncaught_of (po.run specs args) set

  -- One with required options: the help is asked for before these are missed.
  pub help_first-outcome_with :
      ((parsed : Dict Value)
        → po.run specs args ≡ some parsed
        → has_required specs (po.store specs parsed) ≡ has_required specs parsed)
      → ((parsed : Dict Value)
          → po.run specs args ≡ some parsed
          → has_required specs parsed ≡ true
          → set_up (po.store specs parsed) ≡ ok (set parsed))
      → caught (help_first po specs set_up args) ≡ ok (outcome_with specs (po.run specs args) set)
  unfolding help_first
  help_first-outcome_with r sets = elim (Option-cases (po.run specs args)) [
    | inl e ↦ rw e refl
    | inr (parsed, e) ↦ rw e (
        rw (po.notify_lem specs (po.store specs parsed)) (
          rw (r parsed e) (
            rw (counted-store po specs args e help d)
              (elim (Bool-cases (has_required specs parsed)) [
                | inl there ↦
                    rw there
                      (rw (sets parsed e there) (caught-if (counted help parsed) (set parsed)))
                | inr missing ↦ rw missing (caught-if_failed (counted help parsed) failed refl)
              ]))))
  ]
