-- ===== src/LastValue/Cached.antt =====
-- lvcache.cpp: what a new subscriber gets.
use zguide_examples.Prelude.{
  ℕ, suc, ◌-◌, ◌≤◌, ◌≡◌, ◌≢◌, refl, ap, ◌∙◌, inl, inr, true, false, Option, none, some, List, [],
  ◌∷◌, ◌++◌, arith, append-nil,
}
use zguide_examples.Prelude.Tests.{leb, ◌==◌, if◌then◌else◌, Bool-cases}
use zguide_examples.Prelude.Lists.{length, replicate, All}
use zguide_examples.Prelude.Bytes.{Bytes, same}
use zguide_examples.Prelude.Dict.{find?, put, find?-put}
use zguide_examples.Prelude.Result.{ok, fault, overflow}
use zguide_examples.LastValue.{Cache, on_update, sub_data, c_string, cached, on_subscription}

-- The cache after some updates.
unfoldable pub filled : List (Bytes × Bytes) → Cache → Cache
filled [] cache = cache
filled ((topic, content) ∷ updates) cache = filled updates (on_update topic content cache).0

-- The content that was published last under a topic, in a list of updates.
unfoldable pub latest : Bytes → List (Bytes × Bytes) → Option Bytes → Option Bytes
latest topic [] before = before
latest topic ((t, content) ∷ updates) before =
    latest topic updates (if same t topic then some content else before)

find?-filled :
    (topic : Bytes) (updates : List (Bytes × Bytes)) (cache : Cache)
    → find? topic (filled updates cache) ≡ latest topic updates (find? topic cache)
unfolding filled latest on_update
find?-filled topic [] cache = refl
find?-filled topic ((t, content) ∷ updates) cache =
    find?-filled topic updates (put t content cache)
    ∙ ap (latest topic updates) (find?-put t topic content cache)

abbrev pub IsText : Bytes → Type 0
IsText = All (λ c. c ≢ 0)

c_string-append : (s : Bytes) (n : ℕ) → IsText s → c_string (s ++ replicate (suc n) 0) ≡ ok s
unfolding c_string
c_string-append [] n t = refl
c_string-append (c ∷ s) n t =
    let visible : (c == 0) ≡ false = ground (arith, t.0) in
    rw visible (rw (c_string-append s n t.1))

c_string-unended : (s : Bytes) → IsText s → c_string s ≡ fault overflow
unfolding c_string
c_string-unended [] t = refl
c_string-unended (c ∷ s) t =
    let visible : (c == 0) ≡ false = ground (arith, t.0) in rw visible (rw (c_string-unended s t.1))

-- Whoever subscribes to a topic of at most six bytes, none of them zero, gets at once what was
-- last published under it, and nothing if there was nothing; the cache stays.
pub subscription-latest :
    (topic : Bytes) (updates : List (Bytes × Bytes))
    → IsText topic
    → length topic ≤ 6
    → on_subscription (1 ∷ topic) (filled updates [])
      ≡ ok (filled updates [], cached topic (latest topic updates none))
unfolding on_subscription sub_data find?
subscription-latest topic updates t h =
    let fits : leb (suc (length topic)) 8 ≡ true = ground arith in
    let pad : 8 - suc (length topic) ≡ suc (6 - length topic) = omega arith in
    let text : c_string (topic ++ replicate (8 - suc (length topic)) 0) ≡ ok topic =
      rw pad (c_string-append topic (6 - length topic) t) in
    rw fits (rw text (rw (find?-filled topic updates [])))

-- A subscription to a topic of seven bytes or more, none of them zero, reads or writes past the
-- array of the event.
pub subscription_long :
    (topic : Bytes) (cache : Cache)
    → IsText topic
    → 7 ≤ length topic
    → on_subscription (1 ∷ topic) cache ≡ fault overflow
unfolding on_subscription sub_data
subscription_long topic cache t h = elim (Bool-cases (leb (suc (length topic)) 8)) [
  | inl fits ↦
      let pad : 8 - suc (length topic) ≡ 0 = ground arith in
      let text : c_string (topic ++ replicate (8 - suc (length topic)) 0) ≡ fault overflow =
        rw pad (rw (append-nil topic) (c_string-unended topic t)) in
      rw fits (rw text)
  | inr long ↦ rw long
]
