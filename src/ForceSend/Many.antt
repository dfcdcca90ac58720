-- ===== src/ForceSend/Many.antt =====
-- `ForceSendTxs` of pkg/test_utils/solana.go: one `ForceSendTx` for each transaction, side by side.
use tax_bro.Prelude.{suc, ◌≡◌, ◌≢◌, refl, ap, ◌∙◌, List, [], ◌∷◌, ◌++◌, map, All, String, length}
use tax_bro.ForceSend.{
  Status, confirmed, zero_signature, Sending, nothing_sent, Step, Runs, begin, go, IsDone,
}
use tax_bro.ForceSend.Confirmed.{first_of, IsDone-confirmed}

-- The calls when they start.
abbrev pub all_started {ℓ} : {A : Type ℓ} → List A → List Sending
all_started txs = map (λ ixs. nothing_sent) txs

-- One of the calls goes on.
pub data Goes : List Sending → List Sending → Type 0 where
  first : {s t : Sending} {others : List Sending} → Step s t → Goes (s ∷ others) (t ∷ others)
  later :
      {s : Sending} {others others' : List Sending}
      → Goes others others'
      → Goes (s ∷ others) (s ∷ others')

pub data RunsAll (calls : List Sending) : List Sending → Type 0 where
  begin_all : RunsAll calls calls
  go_all :
      {calls' calls'' : List Sending}
      → RunsAll calls calls'
      → Goes calls' calls''
      → RunsAll calls calls''

-- The first signature that was sent was reported as confirmed.
abbrev pub IsConfirmed : Sending → Type 0
IsConfirmed s =
    (front back : List (String × Status)) × (s.reported
      ≡ front ++ (first_of s.sent, confirmed) ∷ back)
    × (first_of s.sent ≢ zero_signature)

-- Each call is a run of its own.
all_started-Runs {ℓ} : {A : Type ℓ} (txs : List A) → All (Runs nothing_sent) (all_started txs)
all_started-Runs [] = tt
all_started-Runs (ixs ∷ txs) = (begin, all_started-Runs txs)

Goes-Runs :
    {calls calls' : List Sending}
    → Goes calls calls'
    → All (Runs nothing_sent) calls
    → All (Runs nothing_sent) calls'
Goes-Runs (first step) (run, runs) = (go run step, runs)
Goes-Runs (later goes) (run, runs) = (run, Goes-Runs goes runs)

Goes-length : {calls calls' : List Sending} → Goes calls calls' → length calls' ≡ length calls
Goes-length (first step) = refl
Goes-length (later goes) = ap suc (Goes-length goes)

RunsAll-Runs {ℓ} :
    {A : Type ℓ} (txs : List A) {calls : List Sending}
    → RunsAll (all_started txs) calls
    → All (Runs nothing_sent) calls
RunsAll-Runs txs begin_all = all_started-Runs txs
RunsAll-Runs txs (go_all runs goes) = Goes-Runs goes (RunsAll-Runs txs runs)

all_started-length {ℓ} : {A : Type ℓ} (txs : List A) → length (all_started txs) ≡ length txs
all_started-length [] = refl
all_started-length (ixs ∷ txs) = ap suc (all_started-length txs)

RunsAll-length {ℓ} :
    {A : Type ℓ} (txs : List A) {calls : List Sending}
    → RunsAll (all_started txs) calls
    → length calls ≡ length txs
RunsAll-length txs begin_all = all_started-length txs
RunsAll-length txs (go_all runs goes) = Goes-length goes ∙ RunsAll-length txs runs

all_done :
    (calls : List Sending)
    → All (Runs nothing_sent) calls
    → All IsDone calls
    → All IsConfirmed calls
all_done [] runs done = tt
all_done (s ∷ calls) runs done = (IsDone-confirmed runs.0 done.0, all_done calls runs.1 done.1)

-- However the goroutines of all transactions interleave, and whatever the client and the clock
-- answer them, the calls of all have ended only if there is one for each transaction, and of each
-- the first signature that it sent, which is not zero, was reported as confirmed.
pub RunsAll-IsConfirmed {ℓ} :
    {A : Type ℓ} (txs : List A) {calls : List Sending}
    → RunsAll (all_started txs) calls
    → All IsDone calls
    → (length calls ≡ length txs) × All IsConfirmed calls
RunsAll-IsConfirmed txs {calls} runs done =
    (RunsAll-length txs runs, all_done calls (RunsAll-Runs txs runs) done)
