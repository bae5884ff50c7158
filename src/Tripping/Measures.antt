-- ===== src/Tripping/Measures.antt =====
-- tripping.cpp: the two tests of the client, through the broker and the worker.
use zguide_examples.Prelude.{ℕ, ◌≡◌, refl, ap, sym, ◌∙◌, List, [], ◌∷◌, ◌++◌, map}
use zguide_examples.Prelude.Tests.{if◌then◌else◌}
use zguide_examples.Prelude.Bytes.{Bytes, same}
use zguide_examples.Prelude.Result.{Result, ok, ◌>>=◌}
use zguide_examples.Tripping.{
  Sent, to_frontend, client_id, run, asked, echoed, echoes, payloads, end_test, trip-answered,
}

-- The texts that the ROUTER delivers to the client: those behind its identity.
abbrev pub received : List Sent → List Bytes
received [] = []
received (to_frontend (identity ∷ text ∷ []) ∷ sent) =
    let later = received sent in if same identity client_id then text ∷ later else later
received (_ ∷ sent) = received sent

-- What the client gets back of the texts that it has sent.
abbrev pub answers : List Bytes → Result (List Bytes)
answers texts =
    (run (map asked texts) >>= λ requests. run (map echoed (echoes requests))) >>= λ replies.
    ok (received replies)

-- Each text is sent when the reply to the one before has come.
unfoldable pub sync_test : List Bytes → Result (List Bytes)
sync_test [] = ok []
sync_test (text ∷ texts) = do
  reply ← answers (text ∷ [])
  replies ← sync_test texts
  ok (reply ++ replies)

-- All texts are sent, and then all replies read.
unfoldable pub async_test : List Bytes → Result (List Bytes)
async_test texts = answers texts

abbrev pub sync_count : ℕ
sync_count = 10000

abbrev pub async_count : ℕ
async_count = 100000

-- The replies, and the calls per second that are printed behind them.
unfoldable pub run_sync_test : ℕ → Result (List Bytes × ℕ)
unfolding sync_test
run_sync_test ms = do
  replies ← sync_test (payloads 0 sync_count)
  rate ← end_test ms sync_count
  ok (replies, rate)

unfoldable pub run_async_test : ℕ → Result (List Bytes × ℕ)
unfolding async_test
run_async_test ms = do
  replies ← async_test (payloads 0 async_count)
  rate ← end_test ms async_count
  ok (replies, rate)

received-to_frontend :
    (texts : List Bytes) → received (map (λ v. to_frontend (client_id ∷ v ∷ [])) texts) ≡ texts
unfolding same
received-to_frontend [] = refl
received-to_frontend (text ∷ texts) = ap (λ l. text ∷ l) (received-to_frontend texts)

answers_all : (texts : List Bytes) → answers texts ≡ ok texts
answers_all texts = rw (trip-answered texts) (ap ok (received-to_frontend texts))

sync_test_all : (texts : List Bytes) → sync_test texts ≡ ok texts
unfolding sync_test
sync_test_all [] = refl
sync_test_all (text ∷ texts) = rw (answers_all (text ∷ [])) (rw (sync_test_all texts) refl)

-- Whatever texts are sent, if a ROUTER drops what is not for its one peer, the client gets the same
-- replies in the same order whether it waits for each reply before it sends the next text or sends all
-- texts first: the texts that it sent.
pub sync_test-async_test :
    (texts : List Bytes) → (sync_test texts ≡ async_test texts) × (async_test texts ≡ ok texts)
unfolding async_test
sync_test-async_test texts = (sync_test_all texts ∙ sym (answers_all texts), answers_all texts)
