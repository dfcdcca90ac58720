-- ===== src/Web/Total.antt =====
-- No request to the application of cmd/app/main.go fails a type assertion.
use tax_bro.Prelude.{
  ◌≡◌, refl, inl, inr, Bool, true, false, Bool-cases, List, [], String, eq_string, ◌==◌, Outcome,
  ok, Fallible, value, error, ◌>>=◌,
}
use tax_bro.Prelude.Int.{ℤ}
use tax_bro.Text.{Bytes, bytes_eq}
use tax_bro.Web.{
  Cookie, Request, Response, with_db, Found, row, no_rows, failed, Accounts,
  GithubAccessTokenResponse, GithubUserDataResponse, Github, Handler, cookie_named,
}
use tax_bro.Web.Middlewares.{render, with_session, with_cookie, is_guarded}
use tax_bro.Web.SignIn.{
  unless_signed_in, only_signed_out, checked_cookie, authorize, authorize_handler, signin_handler,
}
use tax_bro.Web.Callback.{
  token_url, user_url, get_github_access_token, get_github_user_data, identify, identified,
  github_callback, callback, callback_handler,
}
use tax_bro.Web.SignOut.{sign_out, signout_handler}
use tax_bro.Web.App.{
  Pages, Route, root, signin_page, signin_provider, signin_callback, signout_page, wallets_page,
  path_of, handler_of, serve,
}

abbrev pub Returns {ℓ} : {A : Type ℓ} → Outcome A → Type ℓ
Returns {A} m = (a : A) × (m ≡ ok a)

Returns-bind {ℓ κ} :
    {A : Type ℓ} {B : Type κ} (m : Outcome A) (f : A → Outcome B)
    → Returns m
    → ((a : A) → Returns (f a))
    → Returns (m >>= f)
Returns-bind m f (a, e) h = let (b, e') = h a in (b, rw e e')

identify-Returns :
    (github : Github) (code : Bytes)
    → github.accepts_url (token_url github code) ≡ true
    → github.accepts_url user_url ≡ true
    → Returns (identify github code)
unfolding identify get_github_access_token get_github_user_data
identify-Returns github code accepts known = rw accepts (from_token _)
  where
    from_token :
        (token : Fallible GithubAccessTokenResponse)
        → Returns (elim token [
          | error ↦ ok error
          | value access_token_data ↦ get_github_user_data github access_token_data.access_token
        ])
    from_token error = (_, refl)
    from_token (value t) = rw known (_, refl)

module _ (db : Accounts) (req : Request) where
  only_signed_out-Returns :
      (go : List Cookie → Handler db) (st : db.State)
      → ((cookies : List Cookie) → Returns (go cookies (with_db req) st))
      → (r : Fallible Bool × List Cookie) → Returns (only_signed_out db go (with_db req) st r)
  only_signed_out-Returns go st h (error, cookies) = (_, refl)
  only_signed_out-Returns go st h (value true, cookies) = (_, refl)
  only_signed_out-Returns go st h (value false, cookies) = h cookies

  checked_cookie-Returns :
      (st : db.State) (cookie : Fallible String)
      → Returns (checked_cookie db (with_db req) st cookie)
  checked_cookie-Returns st error = (_, refl)
  checked_cookie-Returns st (value id) = (_, refl)

  unless_signed_in-Returns :
      (go : List Cookie → Handler db) (st : db.State)
      → ((cookies : List Cookie) → Returns (go cookies (with_db req) st))
      → Returns (unless_signed_in db go (with_db req) st)
  unfolding unless_signed_in
  unless_signed_in-Returns go st h =
      Returns-bind (checked_cookie db (with_db req) st (cookie_named req.cookies "auth")) _
        (checked_cookie-Returns st _) (only_signed_out-Returns go st h)

  identified-Returns :
      (cookies : List Cookie) (st : db.State) (user : Fallible GithubUserDataResponse)
      → Returns (identified cookies db (with_db req) st user)
  unfolding identified
  identified-Returns cookies st error = (_, refl)
  identified-Returns cookies st (value user) = (_, refl)

  callback-Returns :
      (github : Github) (cookies : List Cookie) (st : db.State)
      → Returns (identify github req.code)
      → Returns (callback github cookies db (with_db req) st)
  unfolding callback github_callback
  callback-Returns github cookies st h = elim (Bool-cases (req.provider == "github")) [
    | inl by_github ↦ elim (Bool-cases (bytes_eq req.code [])) [
      | inl no_code ↦ rw (by_github, no_code) (_, refl)
      | inr some_code ↦
          rw (by_github, some_code)
            (Returns-bind (identify github req.code) _ h (identified-Returns cookies st))
    ]
    | inr not_github ↦ elim (Bool-cases (req.provider == "discord")) [
      | inl by_discord ↦ rw (not_github, by_discord) (_, refl)
      | inr unknown ↦ rw (not_github, unknown) (_, refl)
    ]
  ]

  sign_out-Returns :
      (st : db.State) (cookie : Fallible String) → Returns (sign_out db (with_db req) st cookie)
  sign_out-Returns st error = (_, refl)
  sign_out-Returns st (value id) = (_, refl)

module _ (db : Accounts) (pages : Pages) (github : Github) (req : Request) (st : db.State) where
  handler_of-Returns :
      (route : Route)
      → Returns (identify github req.code)
      → Returns (handler_of pages github db route (with_db req) st)
  unfolding handler_of signin_handler authorize_handler callback_handler signout_handler
  handler_of-Returns root h = (_, refl)
  handler_of-Returns wallets_page h = (_, refl)
  handler_of-Returns signin_page h =
      unless_signed_in-Returns db req
        (λ cookies c st. ok (record { reply = render pages.signin; set_cookies = cookies }, st)) st
        (λ cookies. (_, refl))
  handler_of-Returns signin_provider h =
      unless_signed_in-Returns db req (λ cookies. authorize github cookies db) st
        (λ cookies. unfold authorize in (_, refl))
  handler_of-Returns signin_callback h =
      unless_signed_in-Returns db req (λ cookies. callback github cookies db) st
        (λ cookies. callback-Returns db req github cookies st h)
  handler_of-Returns signout_page h = sign_out-Returns db req st _

  wallets-Returns :
      (cookie : Fallible String)
      → Returns (with_cookie db (handler_of pages github db wallets_page) (with_db req) st cookie)
  wallets-Returns error = (_, refl)
  wallets-Returns (value id) = with_found (db.select_session id st)
    where
      with_found :
          (found : Found ℤ)
          → Returns (with_session db (handler_of pages github db wallets_page) req id st found)
      with_found (row u) = unfold handler_of in (_, refl)
      with_found no_rows = (_, refl)
      with_found failed = (_, refl)

  -- A request on one of the routes is answered: no type assertion on the context fails, although
  -- the handlers of sign-in and sign-out cannot take the context that `Auth` makes. This needs that
  -- http.NewRequest takes the two addresses, of which one contains the code of the request.
  pub serve-Returns :
      (route : Route) (provider : String)
      → req.path ≡ path_of route provider
      → github.accepts_url (token_url github req.code) ≡ true
      → github.accepts_url user_url ≡ true
      → (res : Response × db.State) × (serve pages github db route req st ≡ ok res)
  unfolding serve is_guarded
  serve-Returns wallets_page provider routed accepts known = rw routed (wallets-Returns _)
  serve-Returns root provider routed accepts known =
      rw routed (handler_of-Returns root (identify-Returns github req.code accepts known))
  serve-Returns signin_page provider routed accepts known =
      rw routed (handler_of-Returns signin_page (identify-Returns github req.code accepts known))
  serve-Returns signin_provider provider routed accepts known =
      rw routed
        (handler_of-Returns signin_provider (identify-Returns github req.code accepts known))
  serve-Returns signin_callback provider routed accepts known =
      rw routed
        (handler_of-Returns signin_callback (identify-Returns github req.code accepts known))
  serve-Returns signout_page provider routed accepts known =
      rw routed (handler_of-Returns signout_page (identify-Returns github req.code accepts known))
