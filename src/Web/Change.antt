-- ===== src/Web/Change.antt =====
-- What one request to the application of cmd/app/main.go can change.
pub mod Callback
pub mod Serve
use tax_bro.Prelude.{
  nat_eq_iff, ℕ, ◌≡◌, ◌≢◌, refl, sym, ap, subst, ◌∙◌, Bool, true, false, Bool-cases, inl, inr, ◌||◌,
  List, [], ◌∷◌, ◌++◌, String, All, contains, eq_nat, eq_string, ◌==◌, if◌then◌else◌, Option, none,
  some, Outcome, ok, fault, ok-injective, >>=-eq-ok, assert, ◌>>=◌, ◌>>◌, Fallible, value, error,
  arith,
}
use tax_bro.Prelude.Int.{ℤ}
use tax_bro.Text.{Bytes, bytes_eq, codes}
use tax_bro.Web.{
  Cookie, Request, cookie_named, Reply, no_content, Response, replied, Context, with_db,
  authenticated, request_of, as_db_context, Found, row, no_rows, failed, Accounts,
  GithubUserDataResponse, Github, Handler,
}
use tax_bro.Web.Lawful.{Contents, SameSessions, IsLawful}
use tax_bro.Web.Middlewares.{with_session, with_cookie, auth, register_db, is_guarded}
use tax_bro.Web.App.{
  Pages, Route, root, signin_page, signin_provider, signin_callback, signout_page, wallets_page,
  handler_of, serve,
}
use tax_bro.Web.SignIn.{
  deleted_auth_cookie, auth_cookie, check_is_signed_in, checked_cookie, checked_session,
  only_signed_out, unless_signed_in, authorize, authorize_handler, signin_handler,
}
use tax_bro.Web.Callback.{
  found_user, inserted_user, added_user, started_session, identified, callback, find_user,
  start_session, identify, github_callback, callback_handler,
}
use tax_bro.Web.SignOut.{sign_out, signed_out, signout_handler}

abbrev pub IsClearing : List Cookie → Type 0
IsClearing = All (λ c. c ≡ deleted_auth_cookie)

-- The GitHub account that a code stands for, if GitHub names one.
abbrev pub named_of : Outcome (Fallible GithubUserDataResponse) → List ℕ
named_of (ok (value user)) = user.id ∷ []
named_of _ = []

session-Clearing : (found : Found ℤ) → IsClearing (checked_session found).1
session-Clearing (row u) = tt
session-Clearing no_rows = (refl, tt)
session-Clearing failed = (refl, tt)

module _ {db : Accounts} (c : Contents db) where
  -- No GitHub account loses its user.
  abbrev pub Grows : db.State → db.State → Type 0
  Grows st st' = (g : ℕ) (u : ℤ) → c.users st g ≡ some u → c.users st' g ≡ some u

  pub data Change (named : List ℕ) (st st' : db.State) (cookies : List Cookie) : Type 0 where
    keeps : SameSessions c st st' → Grows st st' → IsClearing cookies → Change named st st' cookies
    starts :
        (id : String) (u : ℤ) (g : ℕ) (before : List Cookie)
        → c.issued st id ≡ false
        → ((v : String) → c.sessions st' v ≡ (if v == id then some u else c.sessions st v))
        → ((v : String) → c.issued st' v ≡ (v == id || c.issued st v))
        → Grows st st'
        → contains named g ≡ true
        → c.users st' g ≡ some u
        → cookies ≡ before ++ auth_cookie id ∷ []
        → Change named st st' cookies
    ends :
        (id : String)
        → ((v : String) → c.sessions st' v ≡ (if v == id then none else c.sessions st v))
        → ((v : String) → c.issued st' v ≡ c.issued st v)
        → Grows st st'
        → IsClearing cookies
        → Change named st st' cookies

  pub same_state : (st : db.State) → SameSessions c st st
  same_state st = record { sessions = λ id. refl; issued = λ id. refl }

  pub same-Change :
      (named : List ℕ) (st : db.State) (cookies : List Cookie)
      → IsClearing cookies
      → Change named st st cookies
  same-Change named st cookies clears = keeps (same_state st) (λ g u h. h) clears

  -- What a request may do, whatever it asks: change the tables in one of the ways of `Change`.
  abbrev pub Allowed : List ℕ → db.State → Outcome (Response × db.State) → Type 0
  Allowed named st (ok (res, st')) = Change named st st' res.set_cookies
  Allowed named st (fault _) = Unit

  pub Allowed-bind :
      {A : Type 0} (named : List ℕ) (st : db.State) (m : Outcome A)
      (f : A → Outcome (Response × db.State))
      → ((a : A) → m ≡ ok a → Allowed named st (f a))
      → Allowed named st (m >>= f)
  Allowed-bind named st (ok a) f h = h a refl
  Allowed-bind named st (fault _) f h = tt

  checked-Clearing :
      (ctx : Context) (st : db.State) (cookie : Fallible String) (r : Fallible Bool × List Cookie)
      → checked_cookie db ctx st cookie ≡ ok r
      → IsClearing r.1
  checked-Clearing ctx st error r e = rw (← ok-injective e) tt
  checked-Clearing ctx st (value id) r e =
      let (req, _, done) = >>=-eq-ok (as_db_context ctx) _ e in
      rw (← ok-injective done) (session-Clearing (db.select_session id st))

  only_signed_out-Allowed :
      (named : List ℕ) (go : List Cookie → Handler db) (ctx : Context) (st : db.State)
      → ((cookies : List Cookie) → IsClearing cookies → Allowed named st (go cookies ctx st))
      → (r : Fallible Bool × List Cookie) → IsClearing r.1
      → Allowed named st (only_signed_out db go ctx st r)
  only_signed_out-Allowed named go ctx st h (error, cookies) clears =
      same-Change named st cookies clears
  only_signed_out-Allowed named go ctx st h (value true, cookies) clears =
      same-Change named st cookies clears
  only_signed_out-Allowed named go ctx st h (value false, cookies) clears = h cookies clears

  pub unless_signed_in-Allowed :
      (named : List ℕ) (go : List Cookie → Handler db) (ctx : Context) (st : db.State)
      → ((cookies : List Cookie) → IsClearing cookies → Allowed named st (go cookies ctx st))
      → Allowed named st (unless_signed_in db go ctx st)
  unfolding unless_signed_in
  unless_signed_in-Allowed named go ctx st h =
      Allowed-bind named st (check_is_signed_in db ctx st) _
        λ r e. only_signed_out-Allowed named go ctx st h r (checked-Clearing ctx st _ r e)
