-- ===== src/Web/SignOut.antt =====
-- view/routes/signout/signout_handler.go.
use tax_bro.Prelude.{[], ◌∷◌, String, eq_string, Outcome, ok, ◌>>=◌, Fallible, value, error}
use tax_bro.Text.{codes}
use tax_bro.Web.{
  cookie_named, redirect, no_content, Response, replied, Context, request_of, as_db_context,
  Accounts, Handler,
}
use tax_bro.Web.SignIn.{deleted_auth_cookie}

abbrev pub signed_out : (db : Accounts) → db.State → Fallible db.State → Response × db.State
signed_out db st error = (replied (no_content 500), st)
signed_out db st (value st') =
    (record { reply = redirect 308 (codes "/signin"); set_cookies = deleted_auth_cookie ∷ [] }, st')

abbrev pub sign_out :
    (db : Accounts) → Context → db.State → Fallible String → Outcome (Response × db.State)
sign_out db c st error = ok (replied (redirect 308 (codes "/signin")), st)
sign_out db c st (value session_id) = do
  _ ← as_db_context c
  ok (signed_out db st (db.delete_session session_id st))

-- `SignoutHandler`
unfoldable pub signout_handler : (db : Accounts) → Handler db
unfolding cookie_named
signout_handler db c st = sign_out db c st (cookie_named (request_of c).cookies "auth")
