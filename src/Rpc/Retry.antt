-- ===== src/Rpc/Retry.antt =====
-- `callRpcWithRetries` of pkg/wallet_sync/rpc.go. The call is a function of the attempt's number:
-- the client and the network answer each attempt as they will.
use tax_bro.Prelude.{
  ℕ, zero, suc, ◌+◌, ◌<◌, ◌≡◌, refl, ◌∙◌, Bool, true, leb, Outcome, ok, fault, out_of_fuel,
  Fallible, value, error, if◌then◌else◌, arith,
}
use tax_bro.Prelude.Int.{ℤ, pos, negsuc}

-- `i > int(retries)-1`
abbrev pub exhausted : ℤ → ℕ → Bool
exhausted (pos retries) i = leb retries i
exhausted (negsuc _) i = true

module _ {ℓ} {A : Type ℓ} (c : ℕ → Fallible A) (retries : ℤ) where
  -- The loop at the attempt of that number, with `i` as the code leaves it: no statement changes it.
  unfoldable pub retry_loop : ℕ → ℕ → ℕ → Outcome (Fallible A)
  retry_loop zero i attempt = fault out_of_fuel
  retry_loop (suc fuel) i attempt =
      let again = retry_loop fuel i (attempt + 1) in
      if exhausted retries i
      then ok error
      else elim (c attempt) [ value res ↦ ok (value res) | error ↦ again ]

  unfoldable pub call_rpc_with_retries : ℕ → Outcome (Fallible A)
  unfolding retry_loop
  call_rpc_with_retries fuel = retry_loop fuel 0 0

module _ {ℓ} {A : Type ℓ} (c : ℕ → Fallible A) where
  retry_loop-success :
      (retries wait fuel attempt : ℕ) (res : A)
      → wait < fuel
      → ((j : ℕ) → j < wait → c (attempt + j) ≡ error)
      → c (attempt + wait) ≡ value res
      → retry_loop c (pos (suc retries)) fuel 0 attempt ≡ ok (value res)
  unfolding retry_loop
  retry_loop-success retries wait zero attempt res h fails succeeds = absurd (omega arith)
  retry_loop-success retries zero (suc fuel) attempt res h fails succeeds =
      let here : attempt + 0 ≡ attempt = omega arith in ground (arith, rw here at succeeds)
  retry_loop-success retries (suc wait) (suc fuel) attempt res h fails succeeds =
      let here : attempt + 0 ≡ attempt = omega arith in
      let later : attempt + 1 + wait ≡ attempt + suc wait = omega arith in
      let first : c attempt ≡ error = rw here at (fails 0 (omega arith)) in
      ground (
        arith,
        retry_loop-success retries wait fuel (attempt + 1) res (omega arith)
            (λ j p.
              let e : attempt + 1 + j ≡ attempt + suc j = omega arith in
              rw e (fails (suc j) (omega arith)))
            (rw later succeeds),
      )

  -- With at least one retry allowed, the call returns the result of the first attempt that
  -- succeeds, whichever attempt that is.
  pub call_rpc_with_retries-success :
      (retries wait fuel : ℕ) (res : A)
      → 0 < retries
      → wait < fuel
      → ((j : ℕ) → j < wait → c j ≡ error)
      → c wait ≡ value res
      → call_rpc_with_retries c (pos retries) fuel ≡ ok (value res)
  unfolding call_rpc_with_retries
  call_rpc_with_retries-success zero wait fuel res p h fails succeeds = absurd (omega arith)
  call_rpc_with_retries-success (suc retries) wait fuel res p h fails succeeds =
      let from_start = λ (j : ℕ). let e : 0 + j ≡ j = omega arith in e in
      retry_loop-success retries wait fuel 0 res h (λ j p. rw (from_start j) (fails j p))
        (rw (from_start wait) succeeds)

  retry_loop-fails :
      (retries fuel attempt : ℕ)
      → ((j : ℕ) → c j ≡ error)
      → retry_loop c (pos (suc retries)) fuel 0 attempt ≡ fault out_of_fuel
  unfolding retry_loop
  retry_loop-fails retries zero attempt fails = refl
  retry_loop-fails retries (suc fuel) attempt fails =
      ground (arith, fails attempt, retry_loop-fails retries fuel (attempt + 1) fails)

  -- A call that always fails is never given up, however few retries are allowed: no number of
  -- rounds is enough for the loop to end. Only with no retry allowed it returns the error.
  pub call_rpc_with_retries-fails :
      (retries : ℤ) (fuel : ℕ)
      → 0 < fuel
      → ((j : ℕ) → c j ≡ error)
      → call_rpc_with_retries c retries fuel
        ≡ (if exhausted retries 0 then ok error else fault out_of_fuel)
  unfolding call_rpc_with_retries
  call_rpc_with_retries-fails (pos zero) zero p fails = absurd (omega arith)
  call_rpc_with_retries-fails (negsuc n) zero p fails = absurd (omega arith)
  call_rpc_with_retries-fails (pos zero) (suc fuel) p fails = refl
  call_rpc_with_retries-fails (pos (suc retries)) fuel p fails =
      retry_loop-fails retries fuel 0 fails ∙ ground arith
  call_rpc_with_retries-fails (negsuc n) (suc fuel) p fails = refl
