-- ===== src/Tests/Sending.antt =====
-- `ForceSendTx` of pkg/test_utils/solana.go: a transaction is sent twice before its first signature is
-- reported, as processed and then as confirmed.
-- Two transactions are sent so side by side.
use tax_bro.Prelude.{◌≡◌, refl, length, All, true, List, [], ◌∷◌, some, String, eq_string, value}
use tax_bro.ForceSend.{
  Status, processed, confirmed, values, Client, zero_signature, looping, storing, watching, asking,
  Round, Sending, nothing_sent, Step, sends, watches, Runs, begin, go,
}
use tax_bro.ForceSend.Many.{
  first, later, RunsAll, begin_all, go_all, all_started, IsConfirmed, RunsAll-IsConfirmed,
}

abbrev client : String → Status → Client
client signature status = record {
  now = 1700000000000;
  get_latest_blockhash = value "hash";
  new_transaction = λ blockhash. value (signature ∷ []);
  send_transaction = λ sigs. value tt;
  get_signature_statuses = λ x. values (some status ∷ []);
}

abbrev round : Round
round = record { start_time = 1700000000000; blockhash = "hash" }

abbrev sent_once : Sending
sent_once = record nothing_sent {
  sender = looping round;
  signature = "s1";
  sent = ("s1" ∷ []) ∷ [];
}

-- A run, and the state behind one more step.
and_then : {s t : Sending} → Runs s t → (u : Sending) → Step t u → Runs s u
and_then r u step = go r step

first_round : Runs nothing_sent (record nothing_sent { sender = looping round })
unfolding tax_bro.ForceSend.sender_step
first_round = go begin (sends (client "s1" processed) refl)

once-Runs : Runs nothing_sent sent_once
unfolding tax_bro.ForceSend.sender_step tax_bro.ForceSend.send_round
once-Runs =
    and_then
      (and_then first_round
        (record nothing_sent { sender = storing round ("s1" ∷ []); sent = ("s1" ∷ []) ∷ [] })
        (sends (client "s1" processed) refl))
      sent_once (sends (client "s1" processed) refl)

abbrev sent_twice : Sending
sent_twice = record sent_once {
  sender = storing round ("s2" ∷ []);
  watcher = watching;
  sent = ("s1" ∷ []) ∷ ("s2" ∷ []) ∷ [];
  reported = ("s1", processed) ∷ [];
}

twice-Runs : Runs nothing_sent sent_twice
unfolding tax_bro.ForceSend.sender_step tax_bro.ForceSend.send_round tax_bro.ForceSend.watcher_step
twice-Runs =
    and_then
      (and_then
        (and_then once-Runs (record sent_once { watcher = asking "s1" })
          (watches (client "s1" processed) refl))
        (record sent_once { reported = ("s1", processed) ∷ [] })
        (watches (client "s1" processed) refl))
      sent_twice (sends (client "s2" processed) refl)

abbrev ended : Sending
ended = record sent_twice {
  sender = tax_bro.ForceSend.stopped;
  watcher = tax_bro.ForceSend.returned;
  cancelled = true;
  reported = ("s1", processed) ∷ ("s1", confirmed) ∷ [];
}

chained : {s t u : Sending} → Runs s t → Runs t u → Runs s u
chained r begin = r
chained r (go r' step) = go (chained r r') step

twice_to_ended : Runs sent_twice ended
unfolding tax_bro.ForceSend.sender_step tax_bro.ForceSend.watcher_step
twice_to_ended =
    and_then
      (and_then
        (and_then
          (and_then begin (record sent_twice { watcher = asking "s1" })
            (watches (client "s1" confirmed) refl))
          (record ended { sender = storing round ("s2" ∷ []) })
          (watches (client "s1" confirmed) refl))
        (record ended { sender = looping round }) (sends (client "s1" confirmed) refl))
      ended (sends (client "s1" confirmed) refl)

ended-Runs : Runs nothing_sent ended
ended-Runs = chained twice-Runs twice_to_ended

run_first :
    {calls others : List Sending} {s t : Sending}
    → Runs s t
    → RunsAll calls (s ∷ others)
    → RunsAll calls (t ∷ others)
run_first begin runs = runs
run_first (go run step) runs = go_all (run_first run runs) (first step)

run_second :
    {calls others : List Sending} {s t other : Sending}
    → Runs s t
    → RunsAll calls (other ∷ s ∷ others)
    → RunsAll calls (other ∷ t ∷ others)
run_second begin runs = runs
run_second (go run step) runs = go_all (run_second run runs) (later (first step))

abbrev two_txs : List String
two_txs = "transfer" ∷ "swap" ∷ []

-- The second call ends when the first has sent its transaction twice.
both-RunsAll : RunsAll (all_started two_txs) (ended ∷ ended ∷ [])
both-RunsAll = run_first twice_to_ended (run_second ended-Runs (run_first twice-Runs begin_all))

RunsAll-IsConfirmed_example :
    (length (ended ∷ ended ∷ []) ≡ length two_txs) × All IsConfirmed (ended ∷ ended ∷ [])
RunsAll-IsConfirmed_example =
    RunsAll-IsConfirmed two_txs both-RunsAll
      (record { sender = refl; watcher = refl }, (record { sender = refl; watcher = refl }, tt))
