-- ===== src/ForceSend.antt =====
-- `ForceSendTx` of pkg/test_utils/solana.go: one goroutine sends a transaction again and again, the
-- other asks for the status of its signature. The client and the clock are services, which answer
-- each step anew; each critical section of the mutex is one step.
pub mod Confirmed
pub mod Many
pub mod Returns
use tax_bro.Prelude.{
  ℕ, ◌+◌, ◌*◌, ◌^◌, ◌≡◌, Bool, true, false, List, [], ◌∷◌, ◌++◌, Option, none, some, String,
  eq_string, ◌==◌, ltb, if◌then◌else◌, Outcome, ok, fault, assertion, ◌>>=◌, must, Fallible,
}
use tax_bro.Rpc.{index}

-- rpc.ConfirmationStatusType
pub data Status : Type 0 where
  processed confirmed finalized : Status

-- What `GetSignatureStatuses` gives: `rpc.ErrNotFound`, another error, or the values.
pub data Answer : Type 0 where
  not_found failed : Answer
  values : List (Option Status) → Answer

-- `now` is `time.Now().UnixMilli()`. `new_transaction` gives the signatures of the transaction of the
-- instructions with a blockhash: the error of `Sign` is not looked at.
pub record Client : Type 0 where
  pub now : ℕ
  pub get_latest_blockhash : Fallible String
  pub new_transaction : String → Fallible (List String)
  pub send_transaction : List String → Fallible (Unit {0})
  pub get_signature_statuses : String → Answer

-- `solana.Signature{}`, as a text.
abbrev pub zero_signature : String
zero_signature = "1111111111111111111111111111111111111111111111111111111111111111"

-- The variables of the first goroutine.
pub record Round : Type 0 where
  pub start_time : ℕ
  pub blockhash : String

-- `looping`: before a round of its loop. `storing`: behind the sending, with the signatures.
pub data Sender : Type 0 where
  beginning : Sender
  looping : Round → Sender
  storing : Round → List String → Sender
  stopped : Sender

-- `asking`: with the signature that it has read.
pub data Watcher : Type 0 where
  watching : Watcher
  asking : String → Watcher
  returned : Watcher

-- The shared variables, what was sent so far, and what was reported.
pub record Sending : Type 0 where
  pub sender : Sender
  pub watcher : Watcher
  pub cancelled : Bool
  pub signature : String
  pub sent : List (List String)
  pub reported : List (String × Status)

abbrev pub nothing_sent : Sending
nothing_sent = record {
  sender = beginning;
  watcher = watching;
  cancelled = false;
  signature = zero_signature;
  sent = [];
  reported = [];
}

-- `startTime+int64(90*time.Second*time.Millisecond) > time.Now().UnixMilli()`: the product of the two
-- durations in nanoseconds is 9 * 10 ^ 16.
abbrev pub is_due : ℕ → ℕ → Bool
is_due start_time now = ltb now (start_time + 9 * 10 ^ 16)

-- The blockhash of a round.
unfoldable pub refreshed : Client → Round → Outcome Round
refreshed client r =
    if is_due r.start_time client.now
    then (do blockhash ← must client.get_latest_blockhash; ok (record r { blockhash = blockhash }))
    else ok r

-- A round up to the sending.
unfoldable pub send_round : Client → Round → Outcome (Round × List String)
unfolding refreshed
send_round client r = do
  r' ← refreshed client r
  sigs ← must (client.new_transaction r'.blockhash)
  _ ← must (client.send_transaction sigs)
  ok (r', sigs)

-- The first critical section.
abbrev pub stored_signature : String → List String → Outcome String
stored_signature signature sigs = if signature == zero_signature then index sigs 0 else ok signature

unfoldable pub sender_step : Client → Sender → Sending → Outcome Sending
sender_step client beginning s = do
  blockhash ← must client.get_latest_blockhash
  ok (record s { sender = looping (record { start_time = client.now; blockhash = blockhash }) })
sender_step client (looping r) s = if s.cancelled then ok (record s { sender = stopped }) else (do
  (r', sigs) ← send_round client r
  ok (record s { sender = storing r' sigs; sent = s.sent ++ sigs ∷ [] }))
sender_step client (storing r sigs) s = do
  signature ← stored_signature s.signature sigs
  ok (record s { sender = looping r; signature = signature })
sender_step client stopped s = ok s

-- What the second goroutine does with the first status.
abbrev pub status_step : String → Option Status → Sending → Sending
status_step signature none s = record s { watcher = watching }
status_step signature (some confirmed) s = record s {
  watcher = returned;
  cancelled = true;
  reported = s.reported ++ (signature, confirmed) ∷ [];
}
status_step signature (some status) s = record s {
  watcher = watching;
  reported = s.reported ++ (signature, status) ∷ [];
}

abbrev pub answer_step : String → Answer → Sending → Outcome Sending
answer_step signature not_found s = ok (record s { watcher = watching })
answer_step signature failed s = fault assertion
answer_step signature (values statuses) s = do
  status ← index statuses 0
  ok (status_step signature status s)

unfoldable pub watcher_step : Client → Watcher → Sending → Outcome Sending
watcher_step client watching s =
    ok (record s {
      watcher = if s.signature == zero_signature then watching else asking s.signature;
    })
watcher_step client (asking signature) s =
    answer_step signature (client.get_signature_statuses signature) s
watcher_step client returned s = ok s

pub data Step (s t : Sending) : Type 0 where
  sends : (client : Client) → sender_step client s.sender s ≡ ok t → Step s t
  watches : (client : Client) → watcher_step client s.watcher s ≡ ok t → Step s t

pub data Runs (s : Sending) : Sending → Type 0 where
  begin : Runs s s
  go : {t u : Sending} → Runs s t → Step t u → Runs s u

-- `wg.Wait()` returns when both goroutines have.
pub record IsDone (s : Sending) : Type 0 where
  pub sender : s.sender ≡ stopped
  pub watcher : s.watcher ≡ returned
