-- ===== src/Tests/Web.antt =====
-- The application of cmd/app/main.go over the tables in memory.
use tax_bro.Prelude.{
  ℕ, ltb, ◌≡◌, ◌⊎◌, refl, Bool, true, false, [], ◌∷◌, contains, eq_nat, if◌then◌else◌, none, some,
  ok, value,
}
use tax_bro.Prelude.Int.{pos}
use tax_bro.Text.{Bytes, codes, bytes_eq}
use tax_bro.Web.{
  redirect, no_content, Response, replied, GithubAccessTokenResponse, GithubUserDataResponse,
  Github,
}
use tax_bro.Web.Middlewares.{render}
use tax_bro.Web.SignIn.{auth_cookie, deleted_auth_cookie}
use tax_bro.Web.Callback.{user_url, identify}
use tax_bro.Web.App.{Pages, signin_callback, signout_page, serve}
use tax_bro.Web.Browsers.{World, at, Reach, here, next, visits}
use tax_bro.Web.Browsers.Honest.{signed_in_user}
use tax_bro.Web.Sessions.{asks, wallets, sign_in_lem, sign_out_lem}
use tax_bro.Web.Total.{serve-Returns}
use tax_bro.Web.Failures.{callback_locked_out}
use tax_bro.Tests.Accounts.{Tables, no_tables, tables, contents, tables-IsLawful}

abbrev token : GithubAccessTokenResponse
token = record {
  access_token = [];
  expires_in = 0;
  refresh_token = [];
  refresh_token_expires_in = 0;
  scope = [];
  token_type = [];
}

abbrev octocat : GithubUserDataResponse
octocat = record { login = "octocat"; id = 42; avatar_url = []; email = [] }

abbrev answering : Bool → GithubUserDataResponse → Github
answering accepts user = record {
  client_id = codes "id";
  client_secret = codes "secret";
  accepts_url = λ url. accepts;
  fetch = λ url headers. value (if bytes_eq url user_url then codes "user" else codes "token");
  decode_token = λ body. value token;
  decode_user = λ body. value user;
}

abbrev pub github : Github
github = answering true octocat

abbrev pages : Pages
pages = record { signin = value (codes "Sign in"); wallets = value (codes "Wallets") }

abbrev code : Bytes
code = codes "c0de"

abbrev pub signed_in : Tables
signed_in = record {
  session = ("s0", pos 1) ∷ [];
  github = (42, pos 1) ∷ [];
  given_out = "s0" ∷ [];
  next_user = 2;
}

abbrev welcome : Response
welcome = record {
  reply = redirect 308 (codes "/dashboard/wallets");
  set_cookies = auth_cookie "s0" ∷ [];
}

served :
    serve pages github tables signin_callback (asks none signin_callback "github" code) no_tables
    ≡ ok (welcome, signed_in)
unfolding serve
served = refl

abbrev before : World tables
before = record { st = no_tables; jar = λ b. none; presented = λ b. [] }

abbrev after : World tables
after = record {
  st = signed_in;
  jar = at (λ b. none) 3 (some "s0");
  presented = at (λ b. []) 3 (42 ∷ []);
}

reaches : Reach tables before after
unfolding identify
reaches =
    next here
      (visits 3 pages github signin_callback "github" code welcome served (λ v. refl) (λ v. refl))

signed_in_user_example :
    (g : ℕ) × (contains (after.presented 3) g ≡ true) × (contents.users signed_in g ≡ some (pos 1))
signed_in_user_example =
    signed_in_user contents tables-IsLawful {w = before} {w' = after} 3 "s0" (pos 1) (λ v. refl)
      reaches refl refl

sign_in_lem_example :
    wallets contents tables-IsLawful pages github "s0" signed_in
    ≡ ok (replied (render (value (codes "Wallets"))), signed_in)
sign_in_lem_example =
    sign_in_lem contents tables-IsLawful pages github signin_callback "github" code no_tables
      signed_in welcome "s0" served refl (λ e. cc)

abbrev signed_out : Tables
signed_out = record signed_in { session = [] }

abbrev farewell : Response
farewell = record { reply = redirect 308 (codes "/signin"); set_cookies = deleted_auth_cookie ∷ [] }

leaves :
    serve pages github tables signout_page (asks (some "s0") signout_page "" []) signed_in
    ≡ ok (farewell, signed_out)
unfolding serve
leaves = refl

sign_out_lem_example :
    (wallets contents tables-IsLawful pages github "s0" signed_out
      ≡ ok (replied (redirect 308 (codes "/signin")), signed_out))
    ⊎ (wallets contents tables-IsLawful pages github "s0" signed_out
        ≡ ok (replied (no_content 500), signed_out))
sign_out_lem_example =
    sign_out_lem contents tables-IsLawful pages github "s0" signed_in signed_out farewell leaves
      refl

serve-Returns_example :
    (res : Response × Tables) × (serve pages github tables signin_callback
        (asks none signin_callback "github" code)
        no_tables
      ≡ ok res)
serve-Returns_example =
    serve-Returns tables pages github (asks none signin_callback "github" code) no_tables
      signin_callback "github" refl refl refl

-- Addresses without control characters.
abbrev has_no_controls : Bytes → Bool
has_no_controls [] = true
has_no_controls (c ∷ url) = let rest = has_no_controls url in if ltb c 32 then false else rest

abbrev checking : Github
checking = record github { accepts_url = has_no_controls }

names : identify github code ≡ ok (value octocat)
unfolding identify
names = refl

callback_locked_out_example :
    serve pages github tables signin_callback (asks none signin_callback "github" code) signed_in
    ≡ ok (replied (no_content 500), signed_in)
callback_locked_out_example =
    callback_locked_out tables pages github code signed_in contents tables-IsLawful octocat (pos 1)
      "s0" refl names refl refl
