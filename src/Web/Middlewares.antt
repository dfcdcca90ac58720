-- ===== src/Web/Middlewares.antt =====
-- view/middlewares and view/utils/render.go.
use tax_bro.Prelude.{Bool, ◌||◌, String, Outcome, ok, Fallible, value, error, ◌>>=◌, if◌then◌else◌}
use tax_bro.Prelude.Int.{ℤ}
use tax_bro.Text.{Bytes, codes, has_prefix}
use tax_bro.Web.{
  Request, cookie_named, Reply, redirect, no_content, html, unhandled, Response, replied, Context,
  with_db, authenticated, request_of, as_db_context, Found, row, no_rows, failed, Accounts, Handler,
}

-- `Render`, over what the template renders.
unfoldable pub render : Fallible Bytes → Reply
render (value page) = html 200 page
render error = unhandled

-- `RegisterDb`'s middleware.
unfoldable pub register_db : (db : Accounts) → Handler db → Handler db
register_db db next c st = next (with_db (request_of c)) st

unfoldable pub is_guarded : Bytes → Bool
is_guarded p = has_prefix p (codes "/dashboard") || has_prefix p (codes "dashboard")

abbrev pub with_session :
    (db : Accounts)
    → Handler db
    → Request
    → String
    → db.State
    → Found ℤ
    → Outcome (Response × db.State)
with_session db next req session_id st no_rows = ok (replied (redirect 308 (codes "/signin")), st)
with_session db next req session_id st failed = ok (replied (no_content 500), st)
with_session db next req session_id st (row user_id) =
    next (authenticated req session_id user_id) st

abbrev pub with_cookie :
    (db : Accounts)
    → Handler db
    → Context
    → db.State
    → Fallible String
    → Outcome (Response × db.State)
with_cookie db next c st error = ok (replied (redirect 308 (codes "/signin")), st)
with_cookie db next c st (value session_id) = do
  req ← as_db_context c
  with_session db next req session_id st (db.select_session session_id st)

-- `Auth`
unfoldable pub auth : (db : Accounts) → Handler db → Handler db
unfolding is_guarded cookie_named
auth db next c st =
    if is_guarded (request_of c).path
    then with_cookie db next c st (cookie_named (request_of c).cookies "auth")
    else next c st
