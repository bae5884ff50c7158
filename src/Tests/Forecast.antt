-- ===== src/Tests/Forecast.antt =====
-- A client of the weather server at a concrete input.
use zguide_examples.Prelude.{◌≡◌, refl, some, List, [], ◌∷◌, arith, ℕ}
use zguide_examples.Prelude.Bytes.{Bytes, same}
use zguide_examples.Prelude.Lists.{All}
use zguide_examples.Prelude.Dict.{find?}
use zguide_examples.Prelude.Result.{ok}
use zguide_examples.Weather.{pos}
use zguide_examples.Freelance.Sequence.{to_string}
use zguide_examples.Text.Hex.{padded}
use zguide_examples.Prelude.{map}
use zguide_examples.Prelude.Lists.{replicate}
use zguide_examples.Prelude.{zero, suc}
use zguide_examples.Weather.{negsuc, quotient, ℤ}
use zguide_examples.Weather.Update.{IsTemperature}
use zguide_examples.Weather.Average.{Draw, IsDraw, published, sum_from}
use zguide_examples.CommandLine.{Endpoint}
use zguide_examples.CommandLine.Updates.{wuclient}
use zguide_examples.CommandLine.Updates.Forecast.{printed_average, forecast_average}
use zguide_examples.Tests.TinyOptions.{tiny, tiny_run}
use zguide_examples.CommandLine.{running}

abbrev snow : Draw
snow = record { code = 1; temperature = negsuc 4; relhumidity = 50; behind = [] }

abbrev elsewhere : Draw
elsewhere = record { code = 10; temperature = pos 90; relhumidity = 0; behind = 7 ∷ [] }

snow-IsDraw : (n : ℕ) → All IsDraw (replicate n snow)
snow-IsDraw zero = tt
snow-IsDraw (suc n) =
    (record { coded = omega arith; temperate = omega arith; humid = omega arith }, snow-IsDraw n)

abbrev winter : List Draw
winter = elsewhere ∷ replicate 100 snow

winter-IsDraw : All IsDraw winter
winter-IsDraw =
    (record { coded = omega arith; temperate = omega arith; humid = omega arith }, snow-IsDraw 100)

-- With no filter on the command line.
forecast_average_example :
    (endpoints : List Endpoint) × (topic : Bytes) × (t : ℤ) × (wuclient tiny []
      ≡ ok (running (endpoints, topic)))
    × (printed_average topic (map published winter) ≡ some t)
    × (t ≡ quotient (sum_from (pos 0) (replicate 100 snow)) 100)
    × IsTemperature t
unfolding tiny_run find? same padded to_string
forecast_average_example =
    forecast_average tiny [] 1 winter refl refl refl (omega arith) winter-IsDraw (omega arith)
