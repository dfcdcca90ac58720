-- ===== src/Web/Change/Callback.antt =====
-- What the callback of view/routes/signin/callback_handler.go can change.
use tax_bro.Prelude.{
  nat_eq_iff, ℕ, ◌≡◌, refl, sym, ◌∙◌, Bool-cases, inl, inr, List, [], ◌∷◌, String, eq_nat,
  eq_string, ◌==◌, none, some, Outcome, ok, fault, ◌>>=◌, Fallible, value, error,
}
use tax_bro.Prelude.Int.{ℤ}
use tax_bro.Text.{bytes_eq}
use tax_bro.Web.{
  Cookie, Context, request_of, as_db_context, Found, row, no_rows, failed, Accounts,
  GithubUserDataResponse, Github,
}
use tax_bro.Web.Lawful.{Contents, SameSessions, IsLawful}
use tax_bro.Web.Callback.{
  found_user, inserted_user, added_user, started_session, identified, callback, find_user,
  start_session, identify, github_callback,
}
use tax_bro.Web.Change.{
  IsClearing, named_of, Grows, keeps, starts, same_state, same-Change, Allowed, Allowed-bind,
}

module _ {db : Accounts} (c : Contents db) (law : IsLawful db c) where
  -- What a look-up of the user, with or without an insertion, leads to.
  abbrev FindsUser : GithubUserDataResponse → db.State → Fallible ℤ × db.State → Type 0
  FindsUser user st (value u, st') =
      SameSessions c st st' × Grows c st st' × (c.users st' user.id ≡ some u)
  FindsUser user st (error, st') = SameSessions c st st' × Grows c st st'

  pub Grows-same : {st st' : db.State} → ((g : ℕ) → c.users st' g ≡ c.users st g) → Grows c st st'
  Grows-same same g u h = same g ∙ h

  added_user-FindsUser :
      (user : GithubUserDataResponse) (st st₁ : db.State) (u : ℤ)
      → c.users st user.id ≡ none
      → SameSessions c st st₁
      → ((g : ℕ) → c.users st₁ g ≡ c.users st g)
      → (added : Fallible db.State) → db.insert_github u user.id user.login st₁ ≡ added
      → FindsUser user st (added_user db u st₁ added)
  added_user-FindsUser user st st₁ u new same users error e = (same, Grows-same users)
  added_user-FindsUser user st st₁ u new same users (value st₂) e =
      let (same₂, added) = law.github_inserted u user.id user.login st₁ st₂ e in
      (
        record {
          sessions = λ id. same₂.sessions id ∙ same.sessions id;
          issued = λ id. same₂.issued id ∙ same.issued id;
        },
        λ g v h. elim (Bool-cases (g == user.id)) [
          | inl mine ↦ absurd (cc (new, h, (nat_eq_iff g user.id).0 mine))
          | inr other ↦ added g ∙ rw (other, users g) h
        ],
        added user.id ∙ rw ((nat_eq_iff user.id user.id).1 refl),
      )

  inserted_user-FindsUser :
      (user : GithubUserDataResponse) (st : db.State)
      → c.users st user.id ≡ none
      → (inserted : Fallible (ℤ × db.State)) → db.insert_user st ≡ inserted
      → FindsUser user st (inserted_user db user st inserted)
  inserted_user-FindsUser user st new error e = (same_state c st, λ g u h. h)
  inserted_user-FindsUser user st new (value (u, st₁)) e =
      let (same, users) = law.user_inserted st st₁ u e in
      added_user-FindsUser user st st₁ u new same users _ refl

  find_user-FindsUser :
      (user : GithubUserDataResponse) (st : db.State) (found : Found ℤ)
      → db.select_github_user user.id st ≡ found
      → FindsUser user st (found_user db user st found)
  find_user-FindsUser user st (row u) e =
      (same_state c st, (λ g u h. h), law.github_row user.id st u e)
  find_user-FindsUser user st failed e = (same_state c st, λ g u h. h)
  find_user-FindsUser user st no_rows e =
      inserted_user-FindsUser user st (law.github_none user.id st e) _ refl

  started_session-Change :
      (user : GithubUserDataResponse) (st st₁ : db.State) (u : ℤ) (cookies : List Cookie)
      → IsClearing cookies
      → SameSessions c st st₁
      → Grows c st st₁
      → c.users st₁ user.id ≡ some u
      → (inserted : Fallible (String × db.State)) → db.insert_session u st₁ ≡ inserted
      → Allowed c (user.id ∷ []) st (ok (started_session db cookies st₁ inserted))
  started_session-Change user st st₁ u cookies clears same grows known error e =
      keeps same grows clears
  started_session-Change user st st₁ u cookies clears same grows known (value (id, st₂)) e =
      let (fresh, sessions, issued, users, unique) = law.session_inserted u st₁ st₂ id e in
      starts id u user.id cookies (sym (same.issued id) ∙ fresh)
        (λ v. sessions v ∙ rw (same.sessions v)) (λ v. issued v ∙ rw (same.issued v))
        (λ g w h. users g ∙ grows g w h) (rw ((nat_eq_iff user.id user.id).1 refl))
        (users user.id ∙ known) refl

  start_session-Change :
      (user : GithubUserDataResponse) (st : db.State) (cookies : List Cookie)
      → IsClearing cookies
      → (r : Fallible ℤ × db.State) → FindsUser user st r
      → Allowed c (user.id ∷ []) st (ok (start_session db cookies r))
  unfolding start_session
  start_session-Change user st cookies clears (error, st₁) (same, grows) = keeps same grows clears
  start_session-Change user st cookies clears (value u, st₁) (same, grows, known) =
      started_session-Change user st st₁ u cookies clears same grows known _ refl

  identified-Allowed :
      (cookies : List Cookie) (ctx : Context) (st : db.State)
      → IsClearing cookies
      → (r : Fallible GithubUserDataResponse)
      → Allowed c (named_of (ok r)) st (identified cookies db ctx st r)
  unfolding identified
  identified-Allowed cookies ctx st clears error = same-Change c [] st cookies clears
  identified-Allowed cookies ctx st clears (value user) =
      Allowed-bind c (user.id ∷ []) st (as_db_context ctx) _ λ req e.
        unfold find_user in
        start_session-Change user st cookies clears (find_user db user st)
          (find_user-FindsUser user st _ refl)

  identify-Allowed :
      (cookies : List Cookie) (ctx : Context) (st : db.State)
      → IsClearing cookies
      → (m : Outcome (Fallible GithubUserDataResponse))
      → Allowed c (named_of m) st (m >>= identified cookies db ctx st)
  identify-Allowed cookies ctx st clears (ok r) = identified-Allowed cookies ctx st clears r
  identify-Allowed cookies ctx st clears (fault _) = tt

  pub callback-Allowed :
      (github : Github) (cookies : List Cookie) (ctx : Context) (st : db.State)
      → IsClearing cookies
      → Allowed c
          (named_of (identify github (request_of ctx).code))
          st
          (callback github cookies db ctx st)
  unfolding callback github_callback
  callback-Allowed github cookies ctx st clears =
      let kept =
        same-Change c (named_of (identify github (request_of ctx).code)) st cookies clears in
      elim (Bool-cases ((request_of ctx).provider == "github")) [
        | inl by_github ↦ elim (Bool-cases (bytes_eq (request_of ctx).code [])) [
          | inl no_code ↦ rw (by_github, no_code) kept
          | inr some_code ↦
              rw (by_github, some_code)
                (identify-Allowed cookies ctx st clears (identify github (request_of ctx).code))
        ]
        | inr not_github ↦ elim (Bool-cases ((request_of ctx).provider == "discord")) [
          | inl by_discord ↦ rw (not_github, by_discord) kept
          | inr unknown ↦ rw (not_github, unknown) kept
        ]
      ]
