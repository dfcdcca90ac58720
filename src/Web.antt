-- ===== src/Web.antt =====
-- The requests, the replies and the contexts of the web application below view, and its two
-- services: the tables of 01_user.up.sql in db_migrations, and GitHub.
pub mod Middlewares
pub mod SignIn
pub mod Callback
pub mod SignOut
pub mod Sessions
pub mod Total
pub mod Failures
pub mod App
pub mod Start
pub mod Views
pub mod Lawful
pub mod Change
pub mod Browsers
use tax_bro.Prelude.{
  ℕ, Bool, List, [], ◌∷◌, String, Option, none, some, eq_string, ◌==◌, if◌then◌else◌, Outcome, ok,
  fault, wrong_type, Fallible, value, error,
}
use tax_bro.Prelude.Int.{ℤ, pos, negsuc}
use tax_bro.Text.{Bytes}

-- http.Cookie
pub record Cookie : Type 0 where
  pub name : String
  pub content : String
  pub max_age : ℤ
  pub http_only : Bool
  pub path : String

-- `provider` is the path's parameter, and `code` that of the query, empty if it is left out.
pub record Request : Type 0 where
  pub path : Bytes
  pub cookies : List (String × String)
  pub provider : String
  pub code : Bytes

-- `c.Cookie(name)`: the first cookie of that name.
unfoldable pub cookie_named : List (String × String) → String → Fallible String
cookie_named [] name = error
cookie_named ((n, content) ∷ cookies) name =
    if n == name then value content else cookie_named cookies name

-- What a handler sends. `unhandled` is an error that it returns to Echo.
pub data Reply : Type 0 where
  redirect : ℕ → Bytes → Reply
  no_content : ℕ → Reply
  html : ℕ → Bytes → Reply
  text : ℕ → String → Reply
  unhandled : Reply

-- The cookies are those of `c.SetCookie`, in order.
pub record Response : Type 0 where
  pub reply : Reply
  pub set_cookies : List Cookie

abbrev pub replied : Reply → Response
replied reply = record { reply = reply; set_cookies = [] }

-- The context of Echo, `DbContext` and `AuthenticatedContext`.
pub data Context : Type 0 where
  plain : Request → Context
  with_db : Request → Context
  authenticated : Request → String → ℤ → Context

abbrev pub request_of : Context → Request
request_of (plain req) = req
request_of (with_db req) = req
request_of (authenticated req session_id user_id) = req

-- `c.(*DbContext)`
abbrev pub as_db_context : Context → Outcome Request
as_db_context (with_db req) = ok req
as_db_context _ = fault wrong_type

-- What `db.Get` gives: a row, `sql.ErrNoRows`, or another error.
pub data Found {ℓ} (A : Type ℓ) : Type ℓ where
  row : A → Found A
  no_rows : Found A
  failed : Found A

-- One operation for each statement of the handlers.
pub record Accounts : Type 1 where
  pub State : Type 0
  pub select_session : String → State → Found ℤ
  pub select_github_user : ℕ → State → Found ℤ
  pub insert_user : State → Fallible (ℤ × State)
  pub insert_github : ℤ → ℕ → String → State → Fallible State
  pub insert_session : ℤ → State → Fallible (String × State)
  pub delete_session : String → State → Fallible State

-- `githubAccessTokenResponse`
pub record GithubAccessTokenResponse : Type 0 where
  pub access_token : Bytes
  pub expires_in : ℕ
  pub refresh_token : Bytes
  pub refresh_token_expires_in : ℕ
  pub scope : Bytes
  pub token_type : Bytes

-- `githubUserDataResponse`
pub record GithubUserDataResponse : Type 0 where
  pub login : String
  pub id : ℕ
  pub avatar_url : Bytes
  pub email : Bytes

-- The environment's two settings, and what the handlers use of net/http and encoding/json:
-- `accepts_url` is whether `http.NewRequest` takes the text as a URL, and `fetch` is `client.Do`,
-- from the URL and the headers to the body; the status of an answer is not looked at.
pub record Github : Type 0 where
  pub client_id : Bytes
  pub client_secret : Bytes
  pub accepts_url : Bytes → Bool
  pub fetch : Bytes → List (String × Bytes) → Fallible Bytes
  pub decode_token : Bytes → Fallible GithubAccessTokenResponse
  pub decode_user : Bytes → Fallible GithubUserDataResponse

-- A handler over the database.
abbrev pub Handler : Accounts → Type 0
Handler db = Context → db.State → Outcome (Response × db.State)
