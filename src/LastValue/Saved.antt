-- ===== src/LastValue/Saved.antt =====
-- The publisher, the cache and a subscriber that comes late: pathopub.cpp, lvcache.cpp and
-- pathosub.cpp of last-value-caching.
use zguide_examples.Prelude.{
  ℕ, ◌≤◌, ◌≡◌, refl, true, none, some, List, [], ◌∷◌, ◌++◌, map, ◌||◌, ◌∙◌,
}
use zguide_examples.Prelude.Tests.{◌==◌, if◌then◌else◌}
use zguide_examples.Prelude.{Option, Bool, false, ◌||◌, inl, inr, ap, append-nil, arith}
use zguide_examples.Prelude.Tests.{Bool-cases}
use zguide_examples.Prelude.Lists.{All}
use zguide_examples.Prelude.Bytes.{Bytes, same, same_refl}
use zguide_examples.Prelude.Dict.{put}
use zguide_examples.Prelude.Result.{ok}
use zguide_examples.Zmq.Frames.{Message}
use zguide_examples.Freelance.Sequence.{to_string}
use zguide_examples.Freelance.Sequence.Text.{to_string-length, to_string-IsText}
use zguide_examples.LastValue.Cached.{filled, latest, subscription-latest}
use zguide_examples.LastValue.Topics.{same-to_string, latest-announce}
use zguide_examples.LastValue.{
  Cache, Input, run, step, published, on_update, same, listen, Bool, Bytes, false, Message,
  to_string, second_content, first_content, behead, announce, publish, cached, on_subscription,
}

-- A round in which a message of the publisher comes, and one in which somebody subscribes.
abbrev pub brings : Bytes × Bytes → Input
brings update = record { update = some update; subscription = none }

abbrev pub subscribes : Bytes → Input
subscribes topic = record { update = none; subscription = some (some (1 ∷ topic)) }

abbrev pub frames_of : Bytes × Bytes → Message
frames_of update = update.0 ∷ update.1 ∷ []

run-brings :
    (updates : List (Bytes × Bytes)) (topic : Bytes) (cache cache' : Cache) (sent : List Message)
    → on_subscription (1 ∷ topic) (filled updates cache) ≡ ok (cache', sent)
    → run (map brings updates ++ subscribes topic ∷ []) cache
      ≡ ok (cache', map frames_of updates ++ sent)
unfolding run step on_update filled
run-brings [] topic cache cache' sent h = rw h (rw (append-nil sent) refl)
run-brings ((t, content) ∷ updates) topic cache cache' sent h =
    rw (run-brings updates topic (put t content cache) cache' sent h) refl

latest-append :
    (topic : Bytes) (xs ys : List (Bytes × Bytes)) (before : Option Bytes)
    → latest topic (xs ++ ys) before ≡ latest topic ys (latest topic xs before)
unfolding latest
latest-append topic [] ys before = refl
latest-append topic ((t, content) ∷ xs) ys before =
    latest-append topic xs ys (if same t topic then some content else before)

-- Whether a topic is drawn.
unfoldable pub is_drawn : ℕ → List ℕ → Bool
is_drawn t [] = false
is_drawn t (n ∷ draws) = n == t || is_drawn t draws

-- The content that a topic has after some draws.
abbrev pub fate : ℕ → List ℕ → Bytes
fate t draws = if is_drawn t draws then second_content else first_content

if_same : (b : Bool) (s : Bytes) → (if b then s else s) ≡ s
if_same true s = refl
if_same false s = refl

latest-behead :
    (t : ℕ) (draws : List ℕ) (before : Bytes)
    → t ≤ 1000
    → All (λ n. n ≤ 1000) draws
    → latest (to_string t) (behead draws) (some before)
      ≡ some (if is_drawn t draws then second_content else before)
unfolding latest behead publish is_drawn
latest-behead t [] before h a = refl
latest-behead t (n ∷ draws) before h a =
    rw (same-to_string n t a.0 h, latest)
      (elim (Bool-cases (n == t)) [
        | inl e ↦
            rw (e, ◌==◌)
              (latest-behead t draws second_content h a.1
                ∙ ap some (if_same (is_drawn t draws) second_content))
        | inr e ↦ rw (e, ◌==◌) (latest-behead t draws before h a.1)
      ])

-- After all the topics and any draws among them, whoever subscribes to one of the topics, 1 to 1000,
-- gets it from the cache at once, behind the messages that were passed on: beheaded if it was drawn
-- since, saved if it was not. That is what the subscriber prints.
pub late_delivered :
    (t : ℕ) (draws : List ℕ)
    → 1 ≤ t
    → t ≤ 1000
    → All (λ n. n ≤ 1000) draws
    → (run (map brings (published draws) ++ subscribes (to_string t) ∷ []) []
        ≡ ok (
          filled (published draws) [],
          map frames_of (published draws) ++ (to_string t ∷ fate t draws ∷ []) ∷ [],
        ))
      × (listen (to_string t) ((to_string t, fate t draws) ∷ []) ≡ fate t draws ∷ [])
unfolding published listen
late_delivered t draws h k a =
    let told : latest (to_string t) (published draws) none ≡ some (fate t draws) =
      latest-append (to_string t) (announce 1 1000) (behead draws) none
      ∙ ap (latest (to_string t) (behead draws)) (latest-announce t 1 1000 k h (omega arith))
      ∙ latest-behead t draws first_content k a in
    let answer =
      subscription-latest (to_string t) (published draws) (to_string-IsText t)
        (to_string-length t k)
      ∙ ap (λ o. ok (filled (published draws) [], cached (to_string t) o)) told in
    (
      run-brings (published draws) (to_string t) [] (filled (published draws) [])
          ((to_string t ∷ fate t draws ∷ []) ∷ []) answer,
      rw (same_refl (to_string t)) refl,
    )
