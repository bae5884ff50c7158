-- ===== src/Interrupt.antt =====
-- A loop that a signal ends: handling-interrupt-signals/interrupt.cpp.
use zguide_examples.Prelude.{
  ℕ, suc, ◌≡◌, Bool, true, false, ◌||◌, List, [], ◌∷◌, ◌++◌, arith, append_assoc, append-nil,
}
use zguide_examples.Prelude.Tests.{if◌then◌else◌}
use zguide_examples.Prelude.Lists.{length, All}
use zguide_examples.Prelude.Bytes.{Bytes, codes}

-- What `recv` comes back with, after 100 milliseconds at most.
pub data Received : Type 0 where
  message timeout : Received
  error : Bytes → Received
  unknown : Received

-- A round of the loop: whether a signal has come by the test in its body, whether one comes between
-- that test and the one of the loop, and what `recv` does.
pub record Round : Type 0 where
  pub signalled : Bool
  pub late : Bool
  pub received : Received

abbrev pub complaint : Received → List Bytes
complaint message = []
complaint timeout = []
complaint (error what) = (codes "interrupt: A 0mq error occurred: " ++ what) ∷ []
complaint unknown = codes "interrupt: An unknown error occurred." ∷ []

abbrev pub interruption : Round → List Bytes
interruption r = if r.signalled then codes "interrupt: Interrupted by the user." ∷ [] else []

-- The loop of `main` and the line behind it. The rounds that it makes, and what it prints; the loop
-- waits for more if the rounds end before a signal comes.
unfoldable pub run : Bool → List Round → ℕ × List Bytes
run true rounds = (0, codes "interrupt: Shutting down..." ∷ [])
run false [] = (0, [])
run false (r ∷ rounds) =
    let (count, lines) = run (r.signalled || r.late) rounds in
    (suc count, complaint r.received ++ interruption r ++ lines)

-- What some rounds complain of.
abbrev pub complaints : List Round → List Bytes
complaints [] = []
complaints (r ∷ rounds) = complaint r.received ++ complaints rounds

quiet_not_signalled : (a b : Bool) → a || b ≡ false → a ≡ false
quiet_not_signalled a b e = grind arith

-- The loop ends with the first round in which a signal comes, whatever would come behind it; no
-- error ends it before, each is printed in its place, and the last line says that it shuts down. The
-- line that says that it was interrupted is missing if the signal comes behind the test for it.
pub run_interrupted :
    (quiet rest : List Round) (last : Round)
    → All (λ r. r.signalled || r.late ≡ false) quiet
    → last.signalled || last.late ≡ true
    → run false (quiet ++ last ∷ rest) ≡ (
      suc (length quiet),
      complaints quiet
          ++ complaint last.received
          ++ interruption last
          ++ codes "interrupt: Shutting down..." ∷ [],
    )
unfolding run
run_interrupted [] rest last a e = rw e (simp append_assoc)
run_interrupted (r ∷ quiet) rest last a e =
    rw (a.0, quiet_not_signalled r.signalled r.late a.0)
      (rw (run_interrupted quiet rest last a.1 e) (simp (append_assoc, append-nil)))
