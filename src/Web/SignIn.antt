-- ===== src/Web/SignIn.antt =====
-- `checkIsSignedIn`, `AuthorizeHandler` and `SigninHandler` of view/routes/signin.
use tax_bro.Prelude.{
  Bool, true, false, List, [], ◌∷◌, ◌++◌, String, eq_string, ◌==◌, if◌then◌else◌, Outcome, ok,
  ◌>>=◌, Fallible, value, error,
}
use tax_bro.Prelude.Int.{ℤ, pos, negsuc}
use tax_bro.Text.{Bytes, codes}
use tax_bro.Web.{
  Cookie, cookie_named, redirect, no_content, html, Response, Context, request_of, as_db_context,
  Found, row, no_rows, failed, Accounts, Github, Handler,
}
use tax_bro.Web.Middlewares.{render}

abbrev pub deleted_auth_cookie : Cookie
deleted_auth_cookie = record {
  name = "auth";
  content = "";
  max_age = negsuc 0;
  http_only = true;
  path = "/";
}

abbrev pub auth_cookie : String → Cookie
auth_cookie session_id = record {
  name = "auth";
  content = session_id;
  max_age = pos 86400;
  http_only = true;
  path = "/";
}

abbrev pub checked_session : Found ℤ → Fallible Bool × List Cookie
checked_session no_rows = (value false, deleted_auth_cookie ∷ [])
checked_session failed = (error, deleted_auth_cookie ∷ [])
checked_session (row user_id) = (value true, [])

abbrev pub checked_cookie :
    (db : Accounts) → Context → db.State → Fallible String → Outcome (Fallible Bool × List Cookie)
checked_cookie db c st error = ok (value false, [])
checked_cookie db c st (value session_id) = do
  _ ← as_db_context c
  ok (checked_session (db.select_session session_id st))

-- `checkIsSignedIn`, with the cookies that it sets.
unfoldable pub check_is_signed_in :
    (db : Accounts) → Context → db.State → Outcome (Fallible Bool × List Cookie)
unfolding cookie_named
check_is_signed_in db c st = checked_cookie db c st (cookie_named (request_of c).cookies "auth")

abbrev pub only_signed_out :
    (db : Accounts)
    → (List Cookie → Handler db)
    → Context
    → db.State
    → Fallible Bool × List Cookie
    → Outcome (Response × db.State)
only_signed_out db go c st (error, cookies) =
    ok (record { reply = no_content 500; set_cookies = cookies }, st)
only_signed_out db go c st (value true, cookies) =
    ok (record { reply = redirect 308 (codes "/dashboard/wallets"); set_cookies = cookies }, st)
only_signed_out db go c st (value false, cookies) = go cookies c st

-- The beginning of the three handlers: an error, or a session, ends the request.
unfoldable pub unless_signed_in : (db : Accounts) → (List Cookie → Handler db) → Handler db
unfolding check_is_signed_in
unless_signed_in db go c st = do
  result ← check_is_signed_in db c st
  only_signed_out db go c st result

-- The address to which GitHub's sign-in is redirected.
unfoldable pub authorize_url : Github → Bytes
authorize_url github =
    codes "https://github.com/login/oauth/authorize?scope=user&client_id=" ++ github.client_id

unfoldable pub authorize : Github → List Cookie → (db : Accounts) → Handler db
unfolding authorize_url
authorize github cookies db c st =
    let provider = (request_of c).provider in
    let reply =
      if provider == "github"
      then redirect 307 (authorize_url github)
      else if provider == "discord"
      then html 200 (codes provider)
      else no_content 404 in
    ok (record { reply = reply; set_cookies = cookies }, st)

-- `AuthorizeHandler`
unfoldable pub authorize_handler : Github → (db : Accounts) → Handler db
unfolding authorize unless_signed_in
authorize_handler github db = unless_signed_in db (λ cookies. authorize github cookies db)

-- `SigninHandler`, over what its template renders.
unfoldable pub signin_handler : Fallible Bytes → (db : Accounts) → Handler db
unfolding render unless_signed_in
signin_handler page db =
    unless_signed_in db
      (λ cookies c st. ok (record { reply = render page; set_cookies = cookies }, st))
