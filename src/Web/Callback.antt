-- ===== src/Web/Callback.antt =====
-- view/routes/signin/callback_handler.go.
use tax_bro.Prelude.{
  List, [], ◌∷◌, ◌++◌, String, eq_string, ◌==◌, if◌then◌else◌, Outcome, ok, ◌>>=◌, ◌>>◌, assert,
  Fallible, value, error,
}
use tax_bro.Prelude.Int.{ℤ}
use tax_bro.Text.{Bytes, codes, bytes_eq}
use tax_bro.Web.{
  Cookie, redirect, no_content, html, Response, Context, request_of, as_db_context, Found, row,
  no_rows, failed, Accounts, GithubAccessTokenResponse, GithubUserDataResponse, Github, Handler,
}
use tax_bro.Web.SignIn.{auth_cookie, unless_signed_in}

abbrev pub token_url : Github → Bytes → Bytes
token_url github code =
    codes "https://github.com/login/oauth/access_token?client_id="
    ++ (github.client_id
        ++ (codes "&client_secret=" ++ (github.client_secret ++ (codes "&code=" ++ code))))

abbrev pub user_url : Bytes
user_url = codes "https://api.github.com/user"

-- An answer that cannot be had, or decoded, is an error.
abbrev pub decoded {ℓ} : {A : Type ℓ} → Fallible Bytes → (Bytes → Fallible A) → Fallible A
decoded error decode = error
decoded (value body) decode = decode body

-- `getGithubAccessToken`
unfoldable pub get_github_access_token :
    Github → Bytes → Outcome (Fallible GithubAccessTokenResponse)
get_github_access_token github code = do
  assert (github.accepts_url (token_url github code))
  ok (
      decoded (github.fetch (token_url github code) (("accept", codes "application/json") ∷ []))
        github.decode_token)

-- `getGithubUserData`
unfoldable pub get_github_user_data : Github → Bytes → Outcome (Fallible GithubUserDataResponse)
get_github_user_data github access_token = do
  assert (github.accepts_url user_url)
  ok (
      decoded
        (github.fetch user_url (
          ("authorization", codes "Bearer " ++ access_token)
          ∷ ("accept", codes "application/vnd.github+json")
          ∷ []))
        github.decode_user)

module _ (db : Accounts) where
  abbrev pub added_user : ℤ → db.State → Fallible db.State → Fallible ℤ × db.State
  added_user user_id st error = (error, st)
  added_user user_id st (value st') = (value user_id, st')

  abbrev pub inserted_user :
      GithubUserDataResponse → db.State → Fallible (ℤ × db.State) → Fallible ℤ × db.State
  inserted_user user st error = (error, st)
  inserted_user user st (value (user_id, st')) =
      added_user user_id st' (db.insert_github user_id user.id user.login st')

  abbrev pub found_user : GithubUserDataResponse → db.State → Found ℤ → Fallible ℤ × db.State
  found_user user st (row user_id) = (value user_id, st)
  found_user user st failed = (error, st)
  found_user user st no_rows = inserted_user user st (db.insert_user st)

  -- The user of a GitHub account, who is inserted if there is none. Without a transaction, what is
  -- inserted stays when a later statement fails.
  unfoldable pub find_user : GithubUserDataResponse → db.State → Fallible ℤ × db.State
  find_user user st = found_user user st (db.select_github_user user.id st)

  abbrev pub started_session :
      List Cookie → db.State → Fallible (String × db.State) → Response × db.State
  started_session cookies st error = (record { reply = no_content 500; set_cookies = cookies }, st)
  started_session cookies st (value (session_id, st')) = (
    record {
      reply = redirect 308 (codes "/dashboard/wallets");
      set_cookies = cookies ++ auth_cookie session_id ∷ [];
    },
    st',
  )

  -- The last part of the handler: the session and its cookie.
  unfoldable pub start_session : List Cookie → Fallible ℤ × db.State → Response × db.State
  start_session cookies (error, st) = (record { reply = no_content 500; set_cookies = cookies }, st)
  start_session cookies (value user_id, st) =
      started_session cookies st (db.insert_session user_id st)

-- Who the user is for GitHub, from the code: `error` if a request or its decoding fails.
unfoldable pub identify : Github → Bytes → Outcome (Fallible GithubUserDataResponse)
unfolding get_github_access_token get_github_user_data
identify github code = do
  token ← get_github_access_token github code
  elim token [
    | error ↦ ok error
    | value access_token_data ↦ get_github_user_data github access_token_data.access_token
  ]

-- The case "github", from what GitHub says.
unfoldable pub identified :
    List Cookie
    → (db : Accounts) → Context
    → db.State
    → Fallible GithubUserDataResponse
    → Outcome (Response × db.State)
unfolding find_user start_session
identified cookies db c st error = ok (record { reply = no_content 500; set_cookies = cookies }, st)
identified cookies db c st (value user_data) = do
  _ ← as_db_context c
  ok (start_session db cookies (find_user db user_data st))

-- The case "github".
unfoldable pub github_callback : Github → List Cookie → (db : Accounts) → Handler db
unfolding identify identified
github_callback github cookies db c st =
    let code = (request_of c).code in
    if bytes_eq code []
    then ok (record { reply = no_content 500; set_cookies = cookies }, st)
    else (do user ← identify github code; identified cookies db c st user)

unfoldable pub callback : Github → List Cookie → (db : Accounts) → Handler db
unfolding github_callback
callback github cookies db c st =
    let provider = (request_of c).provider in
    if provider == "github"
    then github_callback github cookies db c st
    else if provider == "discord"
    then ok (record { reply = html 200 (codes provider); set_cookies = cookies }, st)
    else ok (record { reply = no_content 404; set_cookies = cookies }, st)

-- `CallbackHandler`
unfoldable pub callback_handler : Github → (db : Accounts) → Handler db
unfolding callback unless_signed_in
callback_handler github db = unless_signed_in db (λ cookies. callback github cookies db)
