-- ===== src/LastValue.antt =====
-- Last value caching: last-value-caching/lvcache.cpp, pathopub.cpp and pathosub.cpp.
pub mod Cached
pub mod Topics
pub mod Saved
use zguide_examples.Prelude.{
  ℕ, zero, suc, ◌+◌, ◌-◌, Bool, true, false, Option, none, some, List, [], ◌∷◌, ◌++◌,
}
use zguide_examples.Prelude.Tests.{leb, ◌==◌, if◌then◌else◌}
use zguide_examples.Prelude.Lists.{length, replicate}
use zguide_examples.Prelude.Bytes.{Bytes, codes, same}
use zguide_examples.Prelude.Dict.{Dict, find?, put}
use zguide_examples.Prelude.Result.{Result, ok, fault, overflow, ◌>>=◌, take_front}
use zguide_examples.Zmq.Frames.{Message}
use zguide_examples.Freelance.Sequence.{to_string}

abbrev pub Cache : Type 0
Cache = Dict Bytes

-- New topic data: the messages are those that go to the subscribers.
unfoldable pub on_update : Bytes → Bytes → Cache → Cache × List Message
on_update topic content cache = (put topic content cache, (topic ∷ content ∷ []) ∷ [])

-- `char sub_data[8] = {}; memcpy(sub_data, frame.data(), frame.size())`
unfoldable pub sub_data : Bytes → Result Bytes
sub_data frame =
    if leb (length frame) 8 then ok (frame ++ replicate (8 - length frame) 0) else fault overflow

-- The text up to the zero byte; past the end of the array there is none.
unfoldable pub c_string : Bytes → Result Bytes
c_string [] = fault overflow
c_string (c ∷ s) = let rest = c_string s >>= λ t. ok (c ∷ t) in if c == 0 then ok [] else rest

abbrev pub cached : Bytes → Option Bytes → List Message
cached topic (some content) = (topic ∷ content ∷ []) ∷ []
cached topic none = []

-- A subscription event: one byte, 0 or 1, and the topic.
unfoldable pub on_subscription : Bytes → Cache → Result (Cache × List Message)
on_subscription frame cache = do
  event ← sub_data frame
  (flag, rest) ← take_front event
  if flag == 0
      then ok (cache, [])
      else (do topic ← c_string rest; ok (cache, cached topic (find? topic cache)))

-- What `poll` finds in a round: an update, and a subscription, which `recv` may fail to read.
pub record Input : Type 0 where
  pub update : Option (Bytes × Bytes)
  pub subscription : Option (Option Bytes)

updated : Option (Bytes × Bytes) → Cache → Cache × List Message
unfolding on_update
updated none cache = (cache, [])
updated (some (topic, content)) cache = on_update topic content cache

subscribed : Option (Option Bytes) → Cache → Result (Cache × List Message × Bool)
unfolding on_subscription
subscribed none cache = ok (cache, [], false)
subscribed (some none) cache = ok (cache, [], true)
subscribed (some (some frame)) cache = do
  (cache', sent) ← on_subscription frame cache
  ok (cache', sent, false)

-- One round, and whether the loop is left.
unfoldable pub step : Input → Cache → Result (Cache × List Message × Bool)
unfolding updated subscribed
step input cache = do
  let (cache₁, forwarded) = updated input.update cache
  (cache₂, sent, over) ← subscribed input.subscription cache₁
  ok (cache₂, forwarded ++ sent, over)

-- The loop of `main`, for what comes in its rounds: the cache behind them, and all that is sent.
unfoldable pub run : List Input → Cache → Result (Cache × List Message)
run [] cache = ok (cache, [])
run (input ∷ inputs) cache = do
  (cache₁, sent, over) ← step input cache
  let rest = (do (cache₂, later) ← run inputs cache₁; ok (cache₂, sent ++ later))
  if over then ok (cache₁, sent) else rest

-- pathopub.cpp: `publish`, and the loop that announces `count` topics from `first` on.
unfoldable pub publish : ℕ → Bytes → Bytes × Bytes
publish topic_nbr content = (to_string topic_nbr, content)

abbrev pub first_content : Bytes
first_content = codes "Save Roger!"

abbrev pub second_content : Bytes
second_content = codes "Off with his head!"

unfoldable pub announce : ℕ → ℕ → List (Bytes × Bytes)
announce first zero = []
announce first (suc count) = publish first first_content ∷ announce (suc first) count

-- Topics that are drawn.
unfoldable pub behead : List ℕ → List (Bytes × Bytes)
behead [] = []
behead (topic_nbr ∷ draws) = publish topic_nbr second_content ∷ behead draws

-- What the publisher sends: all the topics in order, and then those that are drawn.
unfoldable pub published : List ℕ → List (Bytes × Bytes)
unfolding announce behead
published draws = announce 1 1000 ++ behead draws

-- pathosub.cpp: the contents printed, up to a topic that is not the one subscribed to.
unfoldable pub listen : Bytes → List (Bytes × Bytes) → List Bytes
listen sub_topic [] = []
listen sub_topic ((topic, content) ∷ messages) =
    let rest = listen sub_topic messages in if same topic sub_topic then content ∷ rest else []
