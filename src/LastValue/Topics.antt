-- ===== src/LastValue/Topics.antt =====
-- pathopub.cpp and pathosub.cpp: topics named by numbers, with and without the cache.
use zguide_examples.Prelude.{
  ℕ, zero, suc, ◌+◌, ◌*◌, ◌≤◌, ◌<◌, ◌≡◌, refl, ap, ◌∙◌, inl, inr, Bool, true, false, none, some,
  List, [], ◌∷◌, ◌++◌, arith, ◌&&◌, sym,
}
use zguide_examples.Prelude.Tests.{◌==◌, Bool-cases, ==_iff}
use zguide_examples.Prelude.Lists.{length, length-append}
use zguide_examples.Prelude.Bytes.{Bytes, same, same_iff}
use zguide_examples.Prelude.Result.{ok}
use zguide_examples.Freelance.Sequence.{to_string}
use zguide_examples.Freelance.Sequence.RoundTrip.{to_string-digit_behind, to_string-injective}
use zguide_examples.Freelance.Sequence.Text.{to_string-length, to_string-IsText}
use zguide_examples.LastValue.{publish, announce, first_content, listen, on_subscription, cached}
use zguide_examples.LastValue.Cached.{filled, latest, subscription-latest}

-- A SUB socket delivers what begins with the text that it has subscribed to.
unfoldable pub is_prefix : Bytes → Bytes → Bool
is_prefix [] t = true
is_prefix (c ∷ s) [] = false
is_prefix (c ∷ s) (d ∷ t) = c == d && is_prefix s t

is_prefix-append : (s t : Bytes) → is_prefix s (s ++ t) ≡ true
unfolding is_prefix
is_prefix-append [] t = refl
is_prefix-append (c ∷ s) t = ground (arith, is_prefix-append s t)

longer_differs : (s : Bytes) (c : ℕ) → same (s ++ c ∷ []) s ≡ false
longer_differs s c = elim (Bool-cases (same (s ++ c ∷ []) s)) [
  | inl e ↦ absurd (omega (arith, ap length ((same_iff _ s).0 e), length-append s (c ∷ [])))
  | inr e ↦ e
]

-- The topic with one more digit passes the filter of the socket, and the subscriber leaves its loop
-- at it, with nothing printed.
pub listen-longer_topic :
    (n d : ℕ) (content : Bytes) (later : List (Bytes × Bytes))
    → 0 < n
    → d < 10
    → (is_prefix (to_string n) (to_string (n * 10 + d)) ≡ true)
      × (listen (to_string n) (publish (n * 10 + d) content ∷ later) ≡ [])
unfolding listen publish
listen-longer_topic n d content later p h =
    rw (to_string-digit_behind n d p h)
      (is_prefix-append (to_string n) ((48 + d) ∷ []), rw (longer_differs (to_string n) (48 + d)))

latest-keeps :
    (topic : Bytes) (first count : ℕ)
    → latest topic (announce first count) (some first_content) ≡ some first_content
unfolding latest announce publish
latest-keeps topic first zero = refl
latest-keeps topic first (suc count) = elim (Bool-cases (same (to_string first) topic)) [
  | inl e ↦ rw (e, latest) (latest-keeps topic (suc first) count)
  | inr e ↦ rw (e, latest) (latest-keeps topic (suc first) count)
]

pub same-to_string : (n t : ℕ) → n ≤ 1000 → t ≤ 1000 → same (to_string n) (to_string t) ≡ (n == t)
same-to_string n t h k = elim (Bool-cases (n == t)) [
  | inl e ↦
      rw (e, ◌==◌) ((same_iff (to_string n) (to_string t)).1 (ap to_string ((==_iff n t).0 e)))
  | inr e ↦ elim (Bool-cases (same (to_string n) (to_string t))) [
    | inl f ↦ absurd (
        ground (
          arith,
          e,
          (==_iff n t).1 (
              to_string-injective n t (omega arith) (omega arith)
                ((same_iff (to_string n) (to_string t)).0 f)),
        ))
    | inr f ↦ f ∙ sym e
  ]
]

pub latest-announce :
    (t first count : ℕ)
    → t ≤ 1000
    → first ≤ t
    → t < first + count
    → latest (to_string t) (announce first count) none ≡ some first_content
unfolding latest announce publish
latest-announce t first zero b h k = absurd (omega arith)
latest-announce t first (suc count) b h k =
    rw (same-to_string first t (omega arith) b, latest)
      (elim (Bool-cases (first == t)) [
        | inl e ↦ rw (e, ◌==◌) (latest-keeps (to_string t) (suc first) count)
        | inr e ↦
            rw (e, ◌==◌)
              (latest-announce t (suc first) count b (ground (arith, ==_iff first t)) (omega arith))
      ])

-- Once the publisher has announced its topics to the cache, 1 to 1000, whoever subscribes to one of
-- them gets its content at once.
pub roger_saved :
    (t : ℕ)
    → 1 ≤ t
    → t ≤ 1000
    → on_subscription (1 ∷ to_string t) (filled (announce 1 1000) [])
      ≡ ok (filled (announce 1 1000) [], (to_string t ∷ first_content ∷ []) ∷ [])
roger_saved t h k =
    subscription-latest (to_string t) (announce 1 1000) (to_string-IsText t) (to_string-length t k)
    ∙ ap (λ o. ok (filled (announce 1 1000) [], cached (to_string t) o))
        (latest-announce t 1 1000 k h (omega arith))
