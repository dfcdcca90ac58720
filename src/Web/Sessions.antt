-- ===== src/Web/Sessions.antt =====
-- Signing in and out, over the requests to the application of cmd/app/main.go.
use text.Mathlib.TextEquality.{eq_iff}
use tax_bro.Prelude.{
  ◌≡◌, ◌≢◌, refl, ap, subst, ◌∙◌, ◌⊎◌, inl, inr, [], String, eq_string, Option, none, some, Outcome,
  ok, ok-injective, Fallible, value, error,
}
use tax_bro.Prelude.Int.{ℤ}
use tax_bro.Text.{Bytes, codes}
use tax_bro.Web.{
  Request, redirect, no_content, Response, replied, Found, row, no_rows, failed, Accounts, Github,
}
use tax_bro.Web.Lawful.{Contents, IsLawful}
use tax_bro.Web.Middlewares.{render, with_session}
use tax_bro.Web.Callback.{identify}
use tax_bro.Web.SignOut.{signed_out, signout_handler}
use tax_bro.Web.App.{Pages, Route, signout_page, wallets_page, path_of, handler_of, serve}
use tax_bro.Web.Change.{named_of, Change, keeps, starts, ends, Allowed}
use tax_bro.Web.Change.Serve.{serve-Allowed}
use tax_bro.Web.Browsers.{set_all, sent_cookies}
use tax_bro.Web.Browsers.Honest.{set_all-clearing, set_all-last}

-- A request with a cookie, or without one.
abbrev pub asks : Option String → Route → String → Bytes → Request
asks jar route provider code = record {
  path = path_of route provider;
  cookies = sent_cookies jar;
  provider = provider;
  code = code;
}

module _ {db : Accounts} (c : Contents db) (law : IsLawful db c) (pages : Pages)
    (github : Github) where
  abbrev pub wallets : String → db.State → Outcome (Response × db.State)
  wallets id st = serve pages github db wallets_page (asks (some id) wallets_page "" []) st

  module _ (id : String) (st : db.State) where
    -- The dashboard, from what is found of the session.
    wallets_found :
        (found : Found ℤ)
        → db.select_session id st ≡ found
        → wallets id st
          ≡ with_session db
              (handler_of pages github db wallets_page)
              (asks (some id) wallets_page "" [])
              id
              st
              found
    unfolding serve
    wallets_found found e = rw e

    wallets_shown :
        (u : ℤ)
        → c.sessions st id ≡ some u
        → db.select_session id st ≢ failed
        → wallets id st ≡ ok (replied (render pages.wallets), st)
    wallets_shown u live up = with_found _ refl
      where
        with_found :
            (found : Found ℤ)
            → db.select_session id st ≡ found
            → wallets id st ≡ ok (replied (render pages.wallets), st)
        with_found (row v) e = unfold handler_of in wallets_found (row v) e
        with_found no_rows e = absurd (cc (live, law.session_none id st e))
        with_found failed e = absurd (up e)

    wallets_refused :
        c.sessions st id ≡ none
        → (wallets id st ≡ ok (replied (redirect 308 (codes "/signin")), st))
          ⊎ (wallets id st ≡ ok (replied (no_content 500), st))
    wallets_refused gone = with_found _ refl
      where
        with_found :
            (found : Found ℤ)
            → db.select_session id st ≡ found
            → (wallets id st ≡ ok (replied (redirect 308 (codes "/signin")), st))
              ⊎ (wallets id st ≡ ok (replied (no_content 500), st))
        with_found (row v) e = absurd (cc (gone, law.session_row id st v e))
        with_found no_rows e = inl (wallets_found no_rows e)
        with_found failed e = inr (wallets_found failed e)

  -- After a request without a cookie that ends with a cookie, the browser is signed in: with this
  -- cookie it is shown the dashboard, unless the database fails.
  pub sign_in_lem :
      (route : Route) (provider : String) (code : Bytes) (st st' : db.State) (res : Response)
      (id : String)
      → serve pages github db route (asks none route provider code) st ≡ ok (res, st')
      → set_all none res.set_cookies ≡ some id
      → db.select_session id st' ≢ failed
      → wallets id st' ≡ ok (replied (render pages.wallets), st')
  sign_in_lem route provider code st st' res id served set up = from_change (
      subst (λ r. Allowed c (named_of (identify github code)) st r) served
        (serve-Allowed c law pages github route (asks none route provider code) st))
    where
      from_change :
          Change c (named_of (identify github code)) st st' res.set_cookies
          → wallets id st' ≡ ok (replied (render pages.wallets), st')
      from_change (keeps same grows clears) =
          absurd (cc (set_all-clearing none res.set_cookies id clears set))
      from_change (ends id₀ sessions issued grows clears) =
          absurd (cc (set_all-clearing none res.set_cookies id clears set))
      from_change (starts id₀ u g before fresh sessions issued grows shown owns cookies) =
          let last = set_all-last none before id₀ in
          let same : id ≡ id₀ = cc (subst (λ l. set_all none l ≡ some id) cookies set, last) in
          wallets_shown id st' u (sessions id ∙ rw ((eq_iff id id₀).1 same)) up

  -- After a request to sign out that is answered with a redirection, the cookie is worth nothing:
  -- whoever sends it to the dashboard is sent to the sign-in page, or the database fails.
  pub sign_out_lem :
      (id : String) (st st' : db.State) (res : Response)
      → serve pages github db signout_page (asks (some id) signout_page "" []) st ≡ ok (res, st')
      → res.reply ≡ redirect 308 (codes "/signin")
      → (wallets id st' ≡ ok (replied (redirect 308 (codes "/signin")), st'))
        ⊎ (wallets id st' ≡ ok (replied (no_content 500), st'))
  unfolding serve handler_of signout_handler
  sign_out_lem id st st' res served redirected =
      with_deleted (db.delete_session id st) refl (ok-injective served)
    where
      with_deleted :
          (deleted : Fallible db.State)
          → db.delete_session id st ≡ deleted
          → signed_out db st (db.delete_session id st) ≡ (res, st')
          → (wallets id st' ≡ ok (replied (redirect 308 (codes "/signin")), st'))
            ⊎ (wallets id st' ≡ ok (replied (no_content 500), st'))
      with_deleted error e done = absurd (cc (redirected, ap (λ r. r.0.reply) (rw e at done)))
      with_deleted (value st₁) e done =
          let (sessions, issued, users) = law.session_deleted id st st₁ e in
          let same : st₁ ≡ st' = ap (λ r. r.1) (rw e at done) in
          wallets_refused id st'
            (subst (λ s. c.sessions s id ≡ none) same (sessions id ∙ rw ((eq_iff id id).1 refl)))
