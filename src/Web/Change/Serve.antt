-- ===== src/Web/Change/Serve.antt =====
-- What the handlers and the middlewares below view can change, and so a whole request.
use tax_bro.Prelude.{
  ℕ, ◌≡◌, refl, subst, Bool-cases, inl, inr, List, [], String, eq_nat, eq_string, ok, Fallible,
  value, error,
}
use tax_bro.Prelude.Int.{ℤ}
use tax_bro.Web.{
  Cookie, Request, Context, with_db, authenticated, request_of, as_db_context, Found, row, no_rows,
  failed, Accounts, Github, Handler,
}
use tax_bro.Web.Lawful.{Contents, IsLawful}
use tax_bro.Web.Middlewares.{with_session, with_cookie, is_guarded}
use tax_bro.Web.App.{
  Pages, Route, root, signin_page, signin_provider, signin_callback, signout_page, wallets_page,
  handler_of, serve,
}
use tax_bro.Web.SignIn.{authorize, authorize_handler, signin_handler}
use tax_bro.Web.Callback.{callback, identify, callback_handler}
use tax_bro.Web.SignOut.{sign_out, signed_out, signout_handler}
use tax_bro.Web.Change.{
  IsClearing, named_of, ends, same-Change, Allowed, Allowed-bind, unless_signed_in-Allowed,
}
use tax_bro.Web.Change.Callback.{Grows-same, callback-Allowed}
use tax_bro.Web.Middlewares.{render}

module _ {db : Accounts} (c : Contents db) (law : IsLawful db c) where
  authorize-Allowed :
      (github : Github) (named : List ℕ) (cookies : List Cookie) (ctx : Context) (st : db.State)
      → IsClearing cookies
      → Allowed c named st (authorize github cookies db ctx st)
  unfolding authorize
  authorize-Allowed github named cookies ctx st clears = same-Change c named st cookies clears

  signed_out-Change :
      (named : List ℕ) (st : db.State) (id : String) (deleted : Fallible db.State)
      → db.delete_session id st ≡ deleted
      → Allowed c named st (ok (signed_out db st deleted))
  signed_out-Change named st id error e = same-Change c named st [] tt
  signed_out-Change named st id (value st') e =
      let (sessions, issued, users) = law.session_deleted id st st' e in
      ends id sessions issued (Grows-same c law users) (refl, tt)

  sign_out-Allowed :
      (named : List ℕ) (ctx : Context) (st : db.State) (cookie : Fallible String)
      → Allowed c named st (sign_out db ctx st cookie)
  sign_out-Allowed named ctx st error = same-Change c named st [] tt
  sign_out-Allowed named ctx st (value id) =
      Allowed-bind c named st (as_db_context ctx) _ λ req e. signed_out-Change named st id _ refl

  -- The handlers of the table of routes.
  pub handler_of-Allowed :
      (pages : Pages) (github : Github) (route : Route) (ctx : Context) (st : db.State)
      → Allowed c
          (named_of (identify github (request_of ctx).code))
          st
          (handler_of pages github db route ctx st)
  unfolding handler_of signin_handler authorize_handler callback_handler signout_handler
  handler_of-Allowed pages github root ctx st = same-Change c _ st [] tt
  handler_of-Allowed pages github wallets_page ctx st = same-Change c _ st [] tt
  handler_of-Allowed pages github signin_page ctx st =
      let named = named_of (identify github (request_of ctx).code) in
      unless_signed_in-Allowed c named
        (λ cookies c st. ok (record { reply = render pages.signin; set_cookies = cookies }, st)) ctx
        st (λ cookies. same-Change c named st cookies)
  handler_of-Allowed pages github signin_provider ctx st =
      let named = named_of (identify github (request_of ctx).code) in
      unless_signed_in-Allowed c named (λ cookies. authorize github cookies db) ctx st
        (λ cookies. authorize-Allowed github named cookies ctx st)
  handler_of-Allowed pages github signin_callback ctx st =
      unless_signed_in-Allowed c (named_of (identify github (request_of ctx).code))
        (λ cookies. callback github cookies db) ctx st
        (λ cookies. callback-Allowed c law github cookies ctx st)
  handler_of-Allowed pages github signout_page ctx st = sign_out-Allowed _ ctx st _

  with_session-Allowed :
      (named : List ℕ) (next : Handler db) (req : Request) (id : String) (st : db.State)
      → ((ctx : Context) → request_of ctx ≡ req → Allowed c named st (next ctx st))
      → (found : Found ℤ) → Allowed c named st (with_session db next req id st found)
  with_session-Allowed named next req id st h (row u) = h (authenticated req id u) refl
  with_session-Allowed named next req id st h no_rows = same-Change c named st [] tt
  with_session-Allowed named next req id st h failed = same-Change c named st [] tt

  with_cookie-Allowed :
      (named : List ℕ) (next : Handler db) (req : Request) (st : db.State)
      → ((ctx : Context) → request_of ctx ≡ req → Allowed c named st (next ctx st))
      → (cookie : Fallible String)
      → Allowed c named st (with_cookie db next (with_db req) st cookie)
  with_cookie-Allowed named next req st h error = same-Change c named st [] tt
  with_cookie-Allowed named next req st h (value id) =
      with_session-Allowed named next req id st h (db.select_session id st)

  -- Each request changes the tables and the cookies in one of the ways of `Change`, whatever it
  -- asks for and whatever GitHub answers; a session starts only for a GitHub account that GitHub
  -- named for the code of this request.
  pub serve-Allowed :
      (pages : Pages) (github : Github) (route : Route) (req : Request) (st : db.State)
      → Allowed c (named_of (identify github req.code)) st (serve pages github db route req st)
  unfolding serve
  serve-Allowed pages github route req st =
      let named = named_of (identify github req.code) in
      let next = λ (ctx : Context) (e : request_of ctx ≡ req).
        subst
          (λ r.
            Allowed c (named_of (identify github r.code)) st
              (handler_of pages github db route ctx st))
          e (handler_of-Allowed pages github route ctx st) in
      elim (Bool-cases (is_guarded req.path)) [
        | inl guarded ↦
            rw guarded (with_cookie-Allowed named (handler_of pages github db route) req st next _)
        | inr open_path ↦ rw open_path (next (with_db req) refl)
      ]
