-- ===== src/Espresso.antt =====
-- Publishing through a proxy that is listened to: pub-sub-tracing-espresso-pattern/espresso.cpp. A SUB
-- socket gets the messages whose first frame begins with a text that it has subscribed to, as the
-- messaging library documents it.
pub mod Envelopes
use zguide_examples.Prelude.{
  ℕ, zero, suc, ◌+◌, ◌≤◌, ◌<◌, ◌≡◌, refl, Bool, true, false, ◌||◌, Option, none, some, inl, inr,
  List, [], ◌∷◌, ◌++◌, map, arith, ap, ◌∙◌,
}
use zguide_examples.Prelude.Tests.{ltb, leb, ◌==◌, if◌then◌else◌, Bool-cases}
use zguide_examples.Prelude.Lists.{length}
use zguide_examples.Prelude.Bytes.{Bytes, codes}
use zguide_examples.Freelance.Sequence.{to_string}

-- What the publisher sends under a number and a letter.
abbrev pub content : ℕ → ℕ → Bytes
content counter letter = letter ∷ 45 ∷ to_string counter

-- The loop of the publisher, by the letters drawn; the counter is raised before it is written.
unfoldable pub publisher_thread : ℕ → List ℕ → List Bytes
publisher_thread counter [] = []
publisher_thread counter (letter ∷ letters) =
    content (suc counter) letter ∷ publisher_thread (suc counter) letters

abbrev pub begins : Bytes → Bytes → Bool
begins [] s = true
begins (a ∷ prefix) [] = false
begins (a ∷ prefix) (b ∷ s) = if a == b then begins prefix s else false

abbrev pub subscribed : List Bytes → Bytes → Bool
subscribed [] s = false
subscribed (prefix ∷ prefixes) s = begins prefix s || subscribed prefixes s

abbrev pub subscriptions : List Bytes
subscriptions = codes "A" ∷ codes "B" ∷ []

-- What the socket of the subscriber gets of what is published.
unfoldable pub delivered : List Bytes → List Bytes → List Bytes
delivered prefixes [] = []
delivered prefixes (message ∷ messages) =
    let rest = delivered prefixes messages in
    if subscribed prefixes message then message ∷ rest else rest

abbrev pub count_max : ℕ
count_max = 5

-- The loop of the subscriber; `recv` gives a message, or fails. How many were counted, whether the
-- loop is over, and the messages that are not read.
unfoldable pub subscriber_thread : ℕ → ℕ → List (Option Bytes) → ℕ × Bool × List (Option Bytes)
subscriber_thread zero count arriving = (count, true, arriving)
subscriber_thread (suc left) count [] = (count, false, [])
subscriber_thread (suc left) count (none ∷ arriving) = (count, true, arriving)
subscriber_thread (suc left) count (some message ∷ arriving) =
    subscriber_thread left (suc count) arriving

-- The loop of the listener: the lines that it prints, up to a `recv` that fails.
unfoldable pub listener_thread : List (Option Bytes) → List Bytes
listener_thread [] = []
listener_thread (none ∷ _) = []
listener_thread (some frame ∷ arriving) =
    (codes "espresso: listener: " ++ frame) ∷ listener_thread arriving

abbrev pub arriving : List Bytes → List (Option Bytes)
arriving messages = map some messages

-- How many of the letters are A or B.
abbrev pub wanted : List ℕ → ℕ
wanted [] = 0
wanted (letter ∷ letters) = (if 65 == letter || 66 == letter then 1 else 0) + wanted letters

delivered-publisher_thread :
    (counter : ℕ) (letters : List ℕ)
    → length (delivered subscriptions (publisher_thread counter letters)) ≡ wanted letters
unfolding delivered publisher_thread
delivered-publisher_thread counter [] = refl
delivered-publisher_thread counter (letter ∷ letters) =
    let later = delivered-publisher_thread (suc counter) letters in
    elim (Bool-cases (65 == letter)) [
      | inl e ↦ rw e (omega (arith, later))
      | inr e ↦ rw e (elim (Bool-cases (66 == letter)) [
        | inl f ↦ rw f (omega (arith, later))
        | inr f ↦ rw f (omega (arith, later))
      ])
    ]

abbrev pub smaller : ℕ → ℕ → ℕ
smaller m n = if ltb m n then m else n

subscriber_thread-arriving :
    (left count : ℕ) (messages : List Bytes)
    → (subscriber_thread left count (arriving messages)).0 ≡ count + smaller (length messages) left
unfolding subscriber_thread
subscriber_thread-arriving zero count messages = ground arith
subscriber_thread-arriving (suc left) count [] = ground arith
subscriber_thread-arriving (suc left) count (m ∷ messages) =
    ground (arith, subscriber_thread-arriving left (suc count) messages)

listener_thread-arriving :
    (messages : List Bytes)
    → listener_thread (arriving messages)
      ≡ map (λ frame. codes "espresso: listener: " ++ frame) messages
unfolding listener_thread
listener_thread-arriving [] = refl
listener_thread-arriving (m ∷ messages) =
    ap (λ l. (codes "espresso: listener: " ++ m) ∷ l) (listener_thread-arriving messages)

-- The subscriber counts the messages that the publisher sends under the letters A and B, up to five,
-- and the listener prints all messages, in order.
pub espresso_counts :
    (letters : List ℕ)
    → ((subscriber_thread count_max 0
          (arriving (delivered subscriptions (publisher_thread 0 letters)))).0
        ≡ smaller (wanted letters) count_max)
      × (listener_thread (arriving (publisher_thread 0 letters))
          ≡ map (λ frame. codes "espresso: listener: " ++ frame) (publisher_thread 0 letters))
espresso_counts letters =
    let messages = publisher_thread 0 letters in
    let reached = delivered subscriptions messages in
    let counted : (subscriber_thread count_max 0 (arriving reached)).0
        ≡ smaller (length reached) count_max =
      subscriber_thread-arriving count_max 0 reached ∙ omega arith in
    (
      counted ∙ ap (λ n. smaller n count_max) (delivered-publisher_thread 0 letters),
      listener_thread-arriving messages,
    )
