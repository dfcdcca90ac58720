-- ===== src/Tests/Accounts.antt =====
-- The tables of 01_user.up.sql in memory, for the handlers below view.
use text.Mathlib.TextEquality.{eq_iff}
use tax_bro.Prelude.{
  ℕ, ◌+◌, ◌≡◌, ◌≢◌, refl, sym, ap, subst, ◌∙◌, inl, inr, Bool, false, Bool-cases, ◌||◌, List, [],
  ◌∷◌, String, contains, eq_nat, eq_string, ◌==◌, if◌then◌else◌, Option, none, some, Fallible,
  value, error, arith,
}
use tax_bro.Prelude.Int.{ℤ, pos, eq_int, int_eq_iff}
use tax_bro.Web.{Found, row, no_rows, Accounts}
use tax_bro.Web.Lawful.{Contents, SameSessions, IsLawful}

pub record Tables : Type 0 where
  pub session : List (String × ℤ)
  pub github : List (ℕ × ℤ)
  pub given_out : List String
  pub next_user : ℕ

abbrev pub no_tables : Tables
no_tables = record { session = []; github = []; given_out = []; next_user = 1 }

abbrev user_of : List (String × ℤ) → String → Option ℤ
user_of [] id = none
user_of ((k, u) ∷ rows) id = if id == k then some u else user_of rows id

abbrev account_of : List (ℕ × ℤ) → ℕ → Option ℤ
account_of [] g = none
account_of ((k, u) ∷ rows) g = if g == k then some u else account_of rows g

abbrev has_user : List (String × ℤ) → ℤ → Bool
has_user [] u = false
has_user ((k, v) ∷ rows) u = v == u || has_user rows u

abbrev without : List (String × ℤ) → String → List (String × ℤ)
without [] id = []
without ((k, u) ∷ rows) id = let rest = without rows id in if id == k then rest else (k, u) ∷ rest

abbrev found {ℓ} : {A : Type ℓ} → Option A → Found A
found none = no_rows
found (some a) = row a

-- The ids that the generator gives out, of which there are two.
abbrev next_id : List String → String
next_id [] = "s0"
next_id (_ ∷ _) = "s1"

abbrev insert_session : ℤ → Tables → Fallible (String × Tables)
insert_session u st =
    let id = next_id st.given_out in
    if has_user st.session u || contains st.given_out id
    then error
    else value (id, record st { session = (id, u) ∷ st.session; given_out = id ∷ st.given_out })

abbrev pub tables : Accounts
tables = record {
  State = Tables;
  select_session = λ id st. found (user_of st.session id);
  select_github_user = λ g st. found (account_of st.github g);
  insert_user = λ st. value (pos st.next_user, record st { next_user = st.next_user + 1 });
  insert_github = λ u g login st. value (record st { github = (g, u) ∷ st.github });
  insert_session = insert_session;
  delete_session = λ id st. value (record st { session = without st.session id });
}

abbrev pub contents : Contents tables
contents = record {
  sessions = λ st. user_of st.session;
  users = λ st. account_of st.github;
  issued = λ st id. contains st.given_out id;
}

found_row {ℓ} : {A : Type ℓ} (o : Option A) {a : A} → found o ≡ row a → o ≡ some a
found_row none h = cc
found_row (some a) h = cc

found-none {ℓ} : {A : Type ℓ} (o : Option A) → found o ≡ no_rows → o ≡ none
found-none none h = refl
found-none (some a) h = cc

value-injective {ℓ} : {A : Type ℓ} {a b : A} → value a ≡ value b → a ≡ b
value-injective h = cc

user_of-without :
    (rows : List (String × ℤ)) (id v : String)
    → user_of (without rows id) v ≡ (if v == id then none else user_of rows v)
user_of-without [] id v = ground arith
user_of-without ((k, u) ∷ rows) id v =
    ground (arith, eq_iff v id, eq_iff id k, eq_iff v k, user_of-without rows id v)

has_user_unique :
    (rows : List (String × ℤ)) (u : ℤ) (v : String)
    → has_user rows u ≡ false
    → user_of rows v ≢ some u
has_user_unique [] u v h e = cc
has_user_unique ((k, w) ∷ rows) u v h e = ground (arith, int_eq_iff w u, has_user_unique rows u v)

same_sessions :
    {st st' : Tables}
    → st.session ≡ st'.session
    → st.given_out ≡ st'.given_out
    → SameSessions contents st st'
same_sessions sessions issued = record {
  sessions = λ id. ap (λ l. user_of l id) (sym sessions);
  issued = λ id. ap (λ l. contains l id) (sym issued);
}

flipped : (id v : String) (old : Bool) → (id == v || old) ≡ (v == id || old)
flipped id v old = ground (arith, eq_iff id v, eq_iff v id)

session_inserted_lem :
    (u : ℤ) (st st' : Tables) (id : String)
    → insert_session u st ≡ value (id, st')
    → (contains st.given_out id ≡ false)
      × ((v : String) → user_of st'.session v ≡ (if v == id then some u else user_of st.session v))
      × ((v : String) → contains st'.given_out v ≡ (v == id || contains st.given_out v))
      × ((g : ℕ) → account_of st'.github g ≡ account_of st.github g)
      × ((v : String) → user_of st.session v ≢ some u)
session_inserted_lem u st st' id e =
    let id₀ = next_id st.given_out in
    elim (Bool-cases (has_user st.session u)) [
      | inl taken ↦ absurd (cc (rw taken at e))
      | inr single ↦ elim (Bool-cases (contains st.given_out id₀)) [
        | inl old ↦ absurd (cc (rw (single, old) at e))
        | inr fresh ↦
            let same = value-injective (rw (single, fresh) at e) in
            let same_id : id₀ ≡ id = ap (λ r. r.0) same in
            let gone = ap (λ r. r.1) same in
            (
              subst (λ k. contains st.given_out k ≡ false) same_id fresh,
              λ v.
                  ap (λ s. user_of s.session v) (sym gone)
                  ∙ ap (λ k. if v == k then some u else user_of st.session v) same_id,
              λ v.
                  ap (λ s. contains s.given_out v) (sym gone)
                  ∙ flipped id₀ v (contains st.given_out v)
                  ∙ ap (λ k. v == k || contains st.given_out v) same_id,
              λ g. ap (λ s. account_of s.github g) (sym gone),
              λ v. has_user_unique st.session u v single,
            )
      ]
    ]

pub tables-IsLawful : IsLawful tables contents
tables-IsLawful = record {
  session_row = λ id st u e. found_row (user_of st.session id) e;
  session_none = λ id st e. found-none (user_of st.session id) e;
  github_row = λ g st u e. found_row (account_of st.github g) e;
  github_none = λ g st e. found-none (account_of st.github g) e;
  user_inserted = λ st st' u e.
      let same = ap (λ r. r.1) (value-injective e) in
      (
        same_sessions (ap (λ s. s.session) same) (ap (λ s. s.given_out) same),
        λ g. ap (λ s. account_of s.github g) (sym same),
      );
  github_inserted = λ u g login st st' e.
      let same = value-injective e in
      (
        same_sessions (ap (λ s. s.session) same) (ap (λ s. s.given_out) same),
        λ h. ap (λ s. account_of s.github h) (sym same),
      );
  session_inserted = λ u st st' id e. session_inserted_lem u st st' id e;
  session_deleted = λ id st st' e.
      let same = value-injective e in
      (
        λ v. ap (λ s. user_of s.session v) (sym same) ∙ user_of-without st.session id v,
        λ v. ap (λ s. contains s.given_out v) (sym same),
        λ g. ap (λ s. account_of s.github g) (sym same),
      );
}
