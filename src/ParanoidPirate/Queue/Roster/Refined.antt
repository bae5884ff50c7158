-- ===== src/ParanoidPirate/Queue/Roster/Refined.antt =====
-- ppqueue.cpp: the process does what its roster does.
use zguide_examples.Prelude.{
  ℕ, ◌≡◌, refl, ap, ◌∙◌, inl, inr, Option, none, some, List, [], ◌∷◌, ◌++◌,
}
use zguide_examples.Prelude.Tests.{if◌then◌else◌, Bool-cases}
use zguide_examples.Prelude.Bytes.{Bytes, same}
use zguide_examples.Prelude.Result.{Result, ok, stop, fault, ◌>>=◌, Ensures-ok}
use zguide_examples.Zmq.Frames.{Message}
use zguide_examples.ParanoidPirate.Workers.{Workers}
use zguide_examples.ParanoidPirate.Workers
use zguide_examples.ParanoidPirate.Workers.Invariant.{IsValid}
use zguide_examples.ParanoidPirate.Workers.Line.{line, listed, line_refined}
use zguide_examples.ParanoidPirate.Queue.{
  State, Sent, Input, to_frontend, ready, heartbeat, send, keep_workers, control, from_worker,
  on_backend, on_frontend, polled, tend, step, beat, to_backend, run,
}
use zguide_examples.ParanoidPirate.Queue.Safety.{
  polled-Kept, polled_frontend-IsValid, step-IsValid, KeptBy,
}
use zguide_examples.ParanoidPirate.Queue.Roster.{
  Roster, Post, joined, hear, hear_backend, hear_frontend, heard, look_after, then_serve, round,
  rounds, behind_first,
}
use zguide_examples.ParanoidPirate.Queue.Roster.Operations.{
  roster_of, seen, seen-refresh, seen-rejoin, seen-try_push, roster_of-pop, roster_of-purge,
  is_nil-line, map-line,
}

unfoldable pub post_of : State → Post
post_of s = record { roster = roster_of s.workers; heartbeat_at = s.heartbeat_at }

abbrev pub show_workers : Workers × List Sent → Roster × List Sent
show_workers (w, sent) = (roster_of w, sent)

abbrev pub show_state : State × List Sent → Post × List Sent
show_state (s, sent) = (post_of s, sent)

-- What an outcome shows of the workers, next to what was sent.
abbrev pub shown : Result (Workers × List Sent) → Result (Roster × List Sent)
shown m = m >>= λ p. ok (show_workers p)

abbrev pub shown_post : Result (State × List Sent) → Result (Post × List Sent)
shown_post m = m >>= λ p. ok (show_state p)

-- A chain, seen through what each part shows.
bind_refined {ℓ₁ ℓ₂ ℓ₃ ℓ₄} :
    {X : Type ℓ₁} {Y : Type ℓ₂} {A : Type ℓ₃} {B : Type ℓ₄} (m : Result X) (show : X → Y)
    (f : X → Result A) (show' : A → B) (g : Y → Result B)
    → ((x : X) → m ≡ ok x → (f x >>= λ a. ok (show' a)) ≡ g (show x))
    → ((m >>= f) >>= λ a. ok (show' a)) ≡ ((m >>= λ x. ok (show x)) >>= g)
bind_refined (ok x) show f show' g h = h x refl
bind_refined stop show f show' g h = refl
bind_refined (fault e) show f show' g h = refl

shown-sending :
    (sent : List Sent) (m : Result Workers)
    → shown (m >>= λ w. ok (w, sent)) ≡ (seen m >>= λ r. ok (r, sent))
shown-sending sent m = bind_refined m roster_of _ _ _ (λ w e. refl)

shown-control :
    (now : ℕ) (k frame : Bytes) (w : Workers)
    → IsValid w
    → shown (from_worker now k (frame ∷ []) w) ≡ hear now k (frame ∷ []) (roster_of w)
unfolding from_worker control roster_of line
shown-control now k frame w v =
    shown-sending [] (control now k frame w) ∙ elim (Bool-cases (same frame ready)) [
      | inl e ↦ rw e (rw (seen-rejoin now k w v) refl)
      | inr e ↦ rw e (elim (Bool-cases (same frame heartbeat)) [
        | inl f ↦ rw f (
            rw (seen-refresh now k w v) (elim (Bool-cases (listed k (line w))) [
              | inl known ↦ rw known refl
              | inr unknown ↦ rw unknown refl
            ]))
        | inr f ↦ rw f refl
      ])
    ]

shown-reply :
    (now : ℕ) (k : Bytes) (frames : Message) (w : Workers)
    → IsValid w
    → shown (do
      sent ← send to_frontend frames
      w' ← keep_workers (Workers.try_push now k w)
      ok (w', sent))
      ≡ (do
        sent ← send to_frontend frames
        ok (if listed k (line w) then roster_of w else joined now k (roster_of w), sent))
shown-reply now k [] w v = refl
shown-reply now k (f ∷ fs) w v =
    let sent = to_frontend (f ∷ fs) ∷ [] in
    shown-sending sent (keep_workers (Workers.try_push now k w))
    ∙ ap (λ m. m >>= λ r. ok (r, sent)) (seen-try_push now k w v)

shown-backend :
    (now : ℕ) (o : Option Message) (w : Workers)
    → IsValid w
    → shown (polled (on_backend now) o w) ≡ heard (hear_backend now) o (roster_of w)
unfolding polled on_backend from_worker roster_of
shown-backend now none w v = refl
shown-backend now (some []) w v = refl
shown-backend now (some (k ∷ [])) w v = refl
shown-backend now (some (k ∷ frame ∷ [])) w v = shown-control now k frame w v
shown-backend now (some (k ∷ f ∷ g ∷ fs)) w v = shown-reply now k (f ∷ g ∷ fs) w v

shown-pick :
    (frames : Message) (w : Workers) (m : Result Bytes)
    → IsValid w
    → shown (do worker ← m; sent ← send to_backend (worker ∷ frames); ok (Workers.pop w, sent))
      ≡ (do
        k ← m
        ok (record (roster_of w) { line = behind_first (line w) }, to_backend (k ∷ frames) ∷ []))
shown-pick frames w (ok k) v = rw (roster_of-pop w v) refl
shown-pick frames w Result.stop v = refl
shown-pick frames w (fault e) v = refl

shown-frontend :
    (o : Option Message) (w : Workers)
    → IsValid w
    → shown (polled on_frontend o w) ≡ heard hear_frontend o (roster_of w)
unfolding polled on_frontend roster_of
shown-frontend none w v = refl
shown-frontend (some frames) w v =
    shown-pick frames w (Workers.front w) v ∙ rw (line_refined 0 [] w v).3 refl

shown-tend :
    (input : Input) (at : ℕ) (w : Workers)
    → IsValid w
    → Path
        (Post × List Sent)
        (post_of (tend input at w).0, (tend input at w).1)
        (look_after input at (roster_of w))
unfolding tend post_of roster_of Workers.empty
shown-tend input at w v = rw (is_nil-line w) (elim (Bool-cases (Workers.empty w)) [
  | inl e ↦ rw e refl
  | inr e ↦ rw e (rw (roster_of-purge input.purged_at w v) (rw (map-line beat w) refl))
])

rest : Input → ℕ → Workers × List Sent → Result (State × List Sent)
rest input at (w, replies) = do
  (w', requests) ← polled on_frontend input.frontend w
  let (s, beats) = tend input at w'
  ok (s, replies ++ requests ++ beats)

rest_refines :
    (input : Input) (at : ℕ) (w : Workers) (replies : List Sent)
    → IsValid w
    → shown_post (rest input at (w, replies)) ≡ then_serve input at (roster_of w, replies)
unfolding rest
rest_refines input at w replies v =
    bind_refined (polled on_frontend input.frontend w) show_workers _ show_state _ (λ r e.
      ap (λ p. ok (p.0, replies ++ r.1 ++ p.1))
        (shown-tend input at r.0
          (Ensures-ok (λ p. IsValid p.0) _ (polled_frontend-IsValid input.frontend w v) e)))
    ∙ ap
        (λ m.
          m >>= λ p. let (q, beats) = look_after input at p.0 in ok (q, replies ++ p.1 ++ beats))
        (shown-frontend input.frontend w v)

pub step_refines :
    (input : Input) (s : State)
    → IsValid s.workers
    → shown_post (step input s) ≡ round input (post_of s)
unfolding step round post_of rest
step_refines input s v =
    bind_refined (polled (on_backend input.seen_at) input.backend s.workers) show_workers
      (rest input s.heartbeat_at) show_state (then_serve input s.heartbeat_at)
      (λ r e.
        rest_refines input s.heartbeat_at r.0 r.1
          (Ensures-ok (KeptBy s.workers) _ (polled-Kept _ input.backend s.workers v) e).0)
    ∙ ap (λ m. m >>= then_serve input s.heartbeat_at)
        (shown-backend input.seen_at input.backend s.workers v)

-- Any number of rounds of the process from a consistent state, whatever they bring: they end as the
-- rounds over the line of workers end, in the same fault if any, with the same messages sent in the
-- same order, the same line of workers and deadlines, and the same time for the next heartbeat.
pub run_refines :
    (inputs : List Input) (s : State)
    → IsValid s.workers
    → shown_post (run inputs s) ≡ rounds inputs (post_of s)
unfolding run rounds
run_refines [] s v = refl
run_refines (i ∷ is) s v =
    bind_refined (step i s) show_state _ show_state _ (λ r e.
      bind_refined (run is r.0) show_state _ show_state (λ p. ok (p.0, r.1 ++ p.1)) (λ q f. refl)
      ∙ ap (λ m. m >>= λ p. ok (p.0, r.1 ++ p.1)) (run_refines is r.0 (step-IsValid i s v e)))
    ∙ ap (λ m. m >>= λ p. (do (p₂, sent) ← rounds is p.0; ok (p₂, p.1 ++ sent)))
        (step_refines i s v)
