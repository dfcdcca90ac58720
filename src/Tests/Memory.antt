-- ===== src/Tests/Memory.antt =====
-- A database in memory, for the statements of pkg/wallet_sync/db.go and wallet_sync.go: it gives
-- each new row the next number, finds one stored account, and keeps a wallet's counts.
use tax_bro.Prelude.{
  value-injective, ℕ, suc, ◌≤◌, ◌≡◌, refl, sym, ap, List, [], ◌∷◌, String, length, Fallible, value,
  eq_string, arith, replicate,
}
use tax_bro.Prelude.Int.{ℤ, pos, negsuc}
use tax_bro.Db.{Store, Signature, Account}
use tax_bro.Db.Lawful.{values, addresses, IsLawful}
use tax_bro.Update.User.Counts.{Counts, IsCounting, IsSaving, SameCounts, at_wallet}

abbrev numbered_signatures : ℕ → List String → List Signature
numbered_signatures n [] = []
numbered_signatures n (v ∷ vs) = record { id = pos n; val = v } ∷ numbered_signatures (suc n) vs

abbrev numbered_accounts : ℕ → List String → List Account
numbered_accounts n [] = []
numbered_accounts n (v ∷ vs) =
    record { id = pos n; address = v; ord = pos 0 } ∷ numbered_accounts (suc n) vs

pub record Rows : Type 0 where
  pub links : ℤ → ℕ
  pub counter : ℤ → ℕ
  pub account_links : ℤ → ℕ
  pub account_counter : ℤ → ℕ

abbrev pub empty_rows : Rows
empty_rows = record {
  links = λ w. 0;
  counter = λ w. 0;
  account_links = λ w. 0;
  account_counter = λ w. 0;
}

abbrev link : List ℤ → List ℤ → Rows → Fallible (ℕ × Rows)
link ids [] st = value (0, st)
link ids (w ∷ ws) st = value (length ids, record st { links = at_wallet st.links w (length ids) })

abbrev link_account : List ℤ → List ℤ → Rows → Fallible (ℕ × Rows)
link_account ids [] st = value (0, st)
link_account ids (w ∷ ws) st =
    value (length ids, record st { account_links = at_wallet st.account_links w (length ids) })

abbrev add_count : ℤ → (ℤ → ℕ) → ℤ → ℤ → ℕ
add_count (pos n) f w = at_wallet f w n
add_count (negsuc n) f w = f

abbrev pub memory : Store
memory = record {
  State = Rows;
  begin = λ st. value st;
  commit = λ st. value st;
  insert_signatures = λ vs st. value (numbered_signatures 1 vs, st);
  select_addresses = λ vs st. value (record { id = pos 1; address = "payer"; ord = pos 0 } ∷ []);
  insert_addresses = λ vs st. value (numbered_accounts 2 vs, st);
  insert_transactions = λ rows st. value st;
  insert_instructions = λ rows st. value st;
  insert_inner_instructions = λ rows st. value st;
  link_signatures = link;
  add_signatures = λ n w st. value (record st { counter = add_count n st.counter w });
  set_last_signature = λ s w st. value st;
  select_unlinked = λ vs st. numbered_accounts 1 vs;
  link_accounts = link_account;
  add_accounts = λ n w st. value (record st { account_counter = add_count n st.account_counter w });
}

numbered_signatures-values : (n : ℕ) (vs : List String) → values (numbered_signatures n vs) ≡ vs
numbered_signatures-values n [] = refl
numbered_signatures-values n (v ∷ vs) = ap (λ l. v ∷ l) (numbered_signatures-values (suc n) vs)

numbered_accounts-addresses : (n : ℕ) (vs : List String) → addresses (numbered_accounts n vs) ≡ vs
numbered_accounts-addresses n [] = refl
numbered_accounts-addresses n (v ∷ vs) = ap (λ l. v ∷ l) (numbered_accounts-addresses (suc n) vs)

numbered_accounts-length : (n : ℕ) (vs : List String) → length (numbered_accounts n vs) ≡ length vs
numbered_accounts-length n [] = refl
numbered_accounts-length n (v ∷ vs) = ap suc (numbered_accounts-length (suc n) vs)

numbered_signatures-length :
    (n : ℕ) (vs : List String) → length (numbered_signatures n vs) ≡ length vs
numbered_signatures-length n [] = refl
numbered_signatures-length n (v ∷ vs) = ap suc (numbered_signatures-length (suc n) vs)

pub memory-IsLawful : IsLawful memory
memory-IsLawful = record {
  inserted_signatures = λ vs st st' rows e v among.
      rw (← ap (λ r. r.0) (value-injective e), numbered_signatures-values 1 vs) among;
  inserted_addresses = λ vs st st' rows e v among.
      rw (← ap (λ r. r.0) (value-injective e), numbered_accounts-addresses 2 vs) among;
}

abbrev pub counts : Counts memory
counts = record {
  links = λ st. st.links;
  counter = λ st. st.counter;
  account_links = λ st. st.account_links;
  account_counter = λ st. st.account_counter;
}

pub unchanged : {st st' : Rows} → st ≡ st' → SameCounts counts st st'
unchanged e = record {
  links = λ w. ap (λ s. s.links w) (sym e);
  counter = λ w. ap (λ s. s.counter w) (sym e);
  account_links = λ w. ap (λ s. s.account_links w) (sym e);
  account_counter = λ w. ap (λ s. s.account_counter w) (sym e);
}

module _ (w : ℤ) (st st' : Rows) (n : ℕ) where
  link-counts :
      (ids : List ℤ)
      → link ids (replicate (length ids) w) st ≡ value (n, st')
      → (n ≤ length ids)
        × ((v : ℤ) → st'.links v ≡ at_wallet st.links w n v)
        × ((v : ℤ) → st'.counter v ≡ st.counter v)
        × ((v : ℤ) → st'.account_links v ≡ st.account_links v)
        × ((v : ℤ) → st'.account_counter v ≡ st.account_counter v)
  link-counts [] e =
      let same = value-injective e in
      rw (← ap (λ r. r.0) same, ← ap (λ r. r.1) same)
        (omega arith, (λ v. ground arith), (λ v. refl), (λ v. refl), (λ v. refl))
  link-counts (id ∷ ids) e =
      let same = value-injective e in
      rw (← ap (λ r. r.0) same, ← ap (λ r. r.1) same)
        (omega arith, (λ v. refl), (λ v. refl), (λ v. refl), (λ v. refl))

  link_account-counts :
      (ids : List ℤ)
      → link_account ids (replicate (length ids) w) st ≡ value (n, st')
      → (n ≤ length ids)
        × ((v : ℤ) → st'.account_links v ≡ at_wallet st.account_links w n v)
        × ((v : ℤ) → st'.links v ≡ st.links v)
        × ((v : ℤ) → st'.counter v ≡ st.counter v)
        × ((v : ℤ) → st'.account_counter v ≡ st.account_counter v)
  link_account-counts [] e =
      let same = value-injective e in
      rw (← ap (λ r. r.0) same, ← ap (λ r. r.1) same)
        (omega arith, (λ v. ground arith), (λ v. refl), (λ v. refl), (λ v. refl))
  link_account-counts (id ∷ ids) e =
      let same = value-injective e in
      rw (← ap (λ r. r.0) same, ← ap (λ r. r.1) same)
        (omega arith, (λ v. refl), (λ v. refl), (λ v. refl), (λ v. refl))

pub memory-IsCounting : IsCounting memory counts
memory-IsCounting = record {
  begin_same = λ st st' e. unchanged (value-injective e);
  commit_same = λ st st' e. unchanged (value-injective e);
  last_same = λ s w st st' e. unchanged (value-injective e);
  signatures_linked = λ ids w st st' n e. link-counts w st st' n ids e;
  signatures_added =
      λ n w st st' e. rw (← value-injective e) ((λ v. refl), (λ v. refl), (λ v. refl), (λ v. refl));
  unlinked_few = λ vs st. rw (numbered_accounts-length 1 vs) (omega arith);
  accounts_linked = λ ids w st st' n e. link_account-counts w st st' n ids e;
  accounts_added =
      λ n w st st' e. rw (← value-injective e) ((λ v. refl), (λ v. refl), (λ v. refl), (λ v. refl));
}

pub memory-IsSaving : IsSaving memory counts
memory-IsSaving = record {
  signatures_saved = λ vs st st' rows e. (
    unchanged (ap (λ r. r.1) (value-injective e)),
    rw (← ap (λ r. r.0) (value-injective e), numbered_signatures-length 1 vs) (omega arith),
  );
  addresses_saved = λ vs st st' rows e. unchanged (ap (λ r. r.1) (value-injective e));
  transactions_saved = λ rows st st' e. unchanged (value-injective e);
  instructions_saved = λ rows st st' e. unchanged (value-injective e);
  inner_instructions_saved = λ rows st st' e. unchanged (value-injective e);
}
