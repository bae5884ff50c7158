-- ===== src/CommandLine/Updates/Forecast.antt =====
-- wuserver.cpp and wuclient.cpp joined: the average that a client prints for the filter on its command line.
use zguide_examples.Prelude.{
  ℕ, ◌<◌, ◌≤◌, ◌≡◌, refl, sym, ap, ◌∙◌, inl, inr, false, Option, some, List, [], ◌∷◌, ◌++◌, map,
  append_assoc, arith,
}
use zguide_examples.Prelude.Tests.{◌==◌, Bool-cases}
use zguide_examples.Prelude.Lists.{
  length, take, filter, All, take-map, length-take, take-All, filter-All,
}
use zguide_examples.Prelude.Bytes.{Bytes, codes}
use zguide_examples.Prelude.Dict.{Dict}
use zguide_examples.Prelude.Result.{ok}
use zguide_examples.Freelance.Sequence.{to_string}
use zguide_examples.Text.Hex.{padded}
use zguide_examples.LastValue.Topics.{is_prefix}
use zguide_examples.Weather.{ℤ, pos, publish, update_text, quotient, average}
use zguide_examples.Weather.Update.{IsTemperature, take_all, length-update_text}
use zguide_examples.Weather.Average.{Draw, IsDraw, published, sum_from, average-published}
use zguide_examples.CommandLine.{
  Value, ProgramOptions, running, help, counted, connects, tcp, Endpoint,
}
use zguide_examples.CommandLine.Values.{text_given, number_given}
use zguide_examples.CommandLine.Updates.{wuclient, wuclient_options, wuclient_lem}
use zguide_examples.CommandLine.Readers.Filter.{is_prefix-same, length-code, same-code}

-- What a SUB socket delivers of what it receives.
abbrev pub delivered : Bytes → List Bytes → List Bytes
delivered topic messages = filter (is_prefix topic) messages

-- The loop of the client reads a hundred updates.
abbrev pub update_count : ℕ
update_count = 100

unfoldable pub printed_average : Bytes → List Bytes → Option ℤ
printed_average topic messages = average (take update_count (delivered topic messages))

-- The draws for a code.
abbrev pub draws_for : ℕ → List Draw → List Draw
draws_for n draws = filter (λ d. n == d.code) draws

published-whole :
    (d : Draw)
    → IsDraw d
    → published d ≡ update_text d.code d.temperature d.relhumidity ++ (0 ∷ d.behind)
unfolding publish
published-whole d v =
    ap (λ s. s ++ (0 ∷ d.behind))
      (take_all 19 _ (
        omega (
          arith,
          length-update_text d.code d.relhumidity d.temperature v.coded v.temperate v.humid,
        )))

is_prefix-published :
    (n : ℕ) (d : Draw)
    → n < 1000
    → IsDraw d
    → is_prefix (padded 3 (to_string n)) (published d) ≡ (n == d.code)
unfolding update_text
is_prefix-published n d h v =
    let code = padded 3 (to_string n) in
    let humidity : Bytes = 32 ∷ to_string d.relhumidity in
    ap (is_prefix code)
      (published-whole d v ∙ append_assoc (padded 3 (to_string d.code)) _ (0 ∷ d.behind))
    ∙ is_prefix-same code (padded 3 (to_string d.code)) _
        (length-code n h ∙ sym (length-code d.code v.coded))
    ∙ same-code n d.code h v.coded

delivered-published :
    (n : ℕ) (draws : List Draw)
    → n < 1000
    → All IsDraw draws
    → delivered (padded 3 (to_string n)) (map published draws) ≡ map published (draws_for n draws)
delivered-published n [] h a = refl
delivered-published n (d ∷ draws) h (v, a) = elim (Bool-cases (n == d.code)) [
  | inl e ↦
      rw (is_prefix-published n d h v, e)
        (ap (λ l. published d ∷ l) (delivered-published n draws h a))
  | inr e ↦ rw (is_prefix-published n d h v, e) (delivered-published n draws h a)
]

-- A client whose filter is the three digits of a code, by its command line or because none is given and
-- the code is 1, connected to a server that has drawn a hundred updates for that code or more among
-- any others: the average that it prints is the sum of the temperatures of the first hundred for that
-- code, divided by a hundred and rounded towards zero, and lies between the smallest and the largest
-- temperature that the server draws.
pub forecast_average :
    (po : ProgramOptions) (args : List Bytes) {parsed : Dict Value} (n : ℕ) (draws : List Draw)
    → po.run wuclient_options args ≡ some parsed
    → counted help parsed ≡ false
    → text_given (codes "filter") (codes "001") parsed ≡ padded 3 (to_string n)
    → n < 1000
    → All IsDraw draws
    → update_count ≤ length (draws_for n draws)
    → (endpoints : List Endpoint) × (topic : Bytes) × (t : ℤ) × (wuclient po args
        ≡ ok (running (endpoints, topic)))
      × (printed_average topic (map published draws) ≡ some t)
      × (t ≡ quotient (sum_from (pos 0) (take update_count (draws_for n draws))) update_count)
      × IsTemperature t
unfolding printed_average
forecast_average po args {parsed = parsed} n draws ran h f b a enough =
    let chosen = take update_count (draws_for n draws) in
    let many = length-take update_count (draws_for n draws) enough in
    let (t, printed, total, range) =
      average-published chosen
        (take-All IsDraw update_count _ (filter-All IsDraw (λ d. n == d.code) draws a))
        (omega (arith, many)) in
    let arrived : take update_count (delivered (padded 3 (to_string n)) (map published draws))
        ≡ map published chosen =
      ap (take update_count) (delivered-published n draws b a)
      ∙ take-map update_count published (draws_for n draws) in
    (
      connects (
            tcp (text_given (codes "server") (codes "localhost") parsed)
              (number_given (codes "port") (pos 5556) parsed))
          ∷ [],
      padded 3 (to_string n),
      t,
      wuclient_lem po args ∙ rw ran (rw h (rw f refl)),
      rw arrived printed,
      total ∙ ap (quotient (sum_from (pos 0) chosen)) many,
      range,
    )
