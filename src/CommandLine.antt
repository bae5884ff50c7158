-- ===== src/CommandLine.antt =====
-- The command lines of the programs: what each `main` does with boost::program_options before its loop.
-- The library is not part of the repository: it is the parameter `ProgramOptions`, with what its
-- documentation says of `store` and `notify`.
pub mod Values
pub mod Tasks
pub mod Hello
pub mod SharedQueue
pub mod Updates
pub mod Readers
pub mod Wiring
pub mod Required
pub mod Freelance
pub mod Arguments
use zguide_examples.Prelude.{
  ℕ, ◌≡◌, Bool, true, false, ◌&&◌, Option, none, some, List, [], ◌∷◌, ◌++◌,
}
use zguide_examples.Prelude.Tests.{if◌then◌else◌}
use zguide_examples.Prelude.Bytes.{Bytes, codes, same}
use zguide_examples.Prelude.Dict.{Dict, find?}
use zguide_examples.Prelude.Result.{Result, ok, stop, fault, thrown, unset, ◌>>=◌, or_fault}
use zguide_examples.Weather.{ℤ, pos, decimal}

-- The type of an option: none, `string`, `int`, `vector<string>`.
pub data Kind : Type 0 where
  switch text number texts : Kind

-- A value of an option, as the library has converted it.
pub data Value : Type 0 where
  on : Value
  text_value : Bytes → Value
  number_value : ℤ → Value
  texts_value : List Bytes → Value

abbrev pub is_of : Kind → Value → Bool
is_of switch on = true
is_of text (text_value _) = true
is_of number (number_value _) = true
is_of texts (texts_value _) = true
is_of _ _ = false

-- `default_value(...)`, `required()`, or neither.
pub data Presence : Type 0 where
  optional required : Presence
  defaulted : Value → Presence

-- An option of an `options_description`.
pub record Spec : Type 0 where
  pub name : Bytes
  pub letter : Option ℕ
  pub kind : Kind
  pub presence : Presence

-- The default of a presence, if the option is the one asked for.
abbrev pub default_here : Bool → Presence → Option Value → Option Value
default_here true (defaulted v) other = some v
default_here false (defaulted v) other = other
default_here b optional other = other
default_here b required other = other

abbrev pub default_of : Bytes → List Spec → Option Value
default_of name [] = none
default_of name (s ∷ specs) = default_here (same s.name name) s.presence (default_of name specs)

abbrev pub kind_of : Bytes → List Spec → Kind
kind_of name [] = switch
kind_of name (s ∷ specs) = if same s.name name then s.kind else kind_of name specs

abbrev pub or_default : Option Value → Option Value → Option Value
or_default (some v) d = some v
or_default none d = d

abbrev pub is_some : Option Value → Bool
is_some (some _) = true
is_some none = false

-- `vm.count(name)`
abbrev pub counted : Bytes → Dict Value → Bool
counted name vm = is_some (find? name vm)

-- Whether all the options that are required have a value.
abbrev pub has_required : List Spec → Dict Value → Bool
has_required [] vm = true
has_required (s ∷ specs) vm = elim s.presence [
  | required ↦ counted s.name vm && has_required specs vm
  | _ ↦ has_required specs vm
]

-- `run` gives the options that stand on the command line, with their values converted, or throws
-- (`none`); `store` puts these in the map, and the defaults of the others; `notify` writes the variables,
-- or throws (`false`) if a required option is missing.
pub record ProgramOptions : Type 0 where
  pub run : List Spec → List Bytes → Option (Dict Value)
  pub store : List Spec → Dict Value → Dict Value
  pub notify : List Spec → Dict Value → Bool
  pub run-is_of :
      (specs : List Spec) (args : List Bytes) (parsed : Dict Value) (name : Bytes) (v : Value)
      → run specs args ≡ some parsed
      → find? name parsed ≡ some v
      → is_of (kind_of name specs) v ≡ true
  pub find?-store :
      (specs : List Spec) (parsed : Dict Value) (name : Bytes)
      → find? name (store specs parsed) ≡ or_default (find? name parsed) (default_of name specs)
  pub notify_lem : (specs : List Spec) (vm : Dict Value) → notify specs vm ≡ has_required specs vm

-- The variables that `notify` has written. A vector is empty until it is written.
abbrev pub as_text : Option Value → Result Bytes
as_text (some (text_value s)) = ok s
as_text _ = fault unset

abbrev pub as_number : Option Value → Result ℤ
as_number (some (number_value n)) = ok n
as_number _ = fault unset

abbrev pub as_texts : Option Value → Result (List Bytes)
as_texts (some (texts_value l)) = ok l
as_texts _ = ok []

abbrev pub text_of : Bytes → Dict Value → Result Bytes
text_of name vm = as_text (find? name vm)

abbrev pub number_of : Bytes → Dict Value → Result ℤ
number_of name vm = as_number (find? name vm)

abbrev pub texts_of : Bytes → Dict Value → Result (List Bytes)
texts_of name vm = as_texts (find? name vm)

-- What `main` comes to: its usage, an exit with 1 behind a `catch`, or its loop with what it has set up.
pub data Outcome (A : Type 0) : Type 0 where
  usage failed : Outcome A
  running : A → Outcome A

abbrev pub help : Bytes
help = codes "help"

abbrev pub help_option : Spec
help_option = record { name = help; letter = none; kind = switch; presence = optional }

-- `po::value<int>(...)->default_value(n)`, and so on.
abbrev pub number_option : Bytes → Option ℕ → ℕ → Spec
number_option name letter n = record {
  name = name;
  letter = letter;
  kind = number;
  presence = defaulted (number_value (pos n));
}

abbrev pub text_option : Bytes → Option ℕ → Bytes → Spec
text_option name letter s = record {
  name = name;
  letter = letter;
  kind = text;
  presence = defaulted (text_value s);
}

abbrev pub required_option : Bytes → Kind → Spec
required_option name kind = record { name = name; letter = none; kind = kind; presence = required }

module _ {A : Type 0} where
  -- `try { ... } catch (exception& e) { ...; return 1; }`
  abbrev pub caught : Result (Outcome A) → Result (Outcome A)
  caught (fault thrown) = ok failed
  caught r = r

  abbrev pub set_up_from : (Dict Value → Result A) → Dict Value → Result (Outcome A)
  set_up_from set_up vm = do a ← set_up vm; ok (running a)

  -- `store`, `notify`, and then the test for the help.
  unfoldable pub notify_first :
      ProgramOptions → List Spec → (Dict Value → Result A) → List Bytes → Result (Outcome A)
  notify_first po specs set_up args = do
    parsed ← or_fault thrown (po.run specs args)
    let vm = po.store specs parsed
    let started = if counted help vm then ok usage else set_up_from set_up vm
    if po.notify specs vm then started else fault thrown

  -- `store`, the test for the help, and then `notify`.
  unfoldable pub help_first :
      ProgramOptions → List Spec → (Dict Value → Result A) → List Bytes → Result (Outcome A)
  help_first po specs set_up args = do
    parsed ← or_fault thrown (po.run specs args)
    let vm = po.store specs parsed
    let started = if po.notify specs vm then set_up_from set_up vm else fault thrown
    if counted help vm then ok usage else started

-- What a program comes to, by what `run` gives and what it sets up from that.
abbrev pub outcome_of : {A : Type 0} → Option (Dict Value) → (Dict Value → A) → Outcome A
outcome_of none set_up = failed
outcome_of (some parsed) set_up = if counted help parsed then usage else running (set_up parsed)

-- The same, for a program without a `catch`.
abbrev pub uncaught_of : {A : Type 0} → Option (Dict Value) → (Dict Value → A) → Result (Outcome A)
uncaught_of none set_up = fault thrown
uncaught_of (some parsed) set_up =
    if counted help parsed then ok usage else ok (running (set_up parsed))

-- The same, for a program that asks for options.
abbrev pub outcome_with :
    {A : Type 0} → List Spec → Option (Dict Value) → (Dict Value → A) → Outcome A
outcome_with specs none set_up = failed
outcome_with specs (some parsed) set_up =
    if counted help parsed
    then usage
    else if has_required specs parsed
    then running (set_up parsed)
    else failed

-- What is done with a socket before the loop.
pub data Endpoint : Type 0 where
  binds connects : Bytes → Endpoint

-- `"tcp://" << addr << ":" << port`
abbrev pub tcp : Bytes → ℤ → Bytes
tcp addr port = codes "tcp://" ++ (addr ++ (codes ":" ++ decimal port))
