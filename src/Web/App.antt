-- ===== src/Web/App.antt =====
-- cmd/app/main.go: the environment, the routes and the middlewares. Echo picks the route; `path_of`
-- is the path of each in the table of routes.
use tax_bro.Prelude.{
  List, [], ◌∷◌, ◌++◌, String, ltb, length, Outcome, ok, ◌>>=◌, ◌>>◌, assert, must, Fallible,
}
use tax_bro.Text.{Bytes, codes}
use tax_bro.Web.{Request, text, Response, replied, plain, Accounts, Github, Handler}
use tax_bro.Web.Middlewares.{render, register_db, auth}
use tax_bro.Web.SignIn.{signin_handler, authorize_handler}
use tax_bro.Web.Callback.{callback_handler}
use tax_bro.Web.SignOut.{signout_handler}

-- The loop of `loadAndValidateEnv`, behind the loading of the file .env.
unfoldable pub validate_env : (String → Bytes) → List String → Outcome (Unit {0})
validate_env getenv [] = ok tt
validate_env getenv (k ∷ keys) = do assert (ltb 0 (length (getenv k))); validate_env getenv keys

-- `loadAndValidateEnv`: `loaded` is the result of `godotenv.Load`.
unfoldable pub load_and_validate_env :
    Fallible (Unit {0}) → (String → Bytes) → List String → Outcome (Unit {0})
unfolding validate_env
load_and_validate_env loaded getenv keys = do _ ← must loaded; validate_env getenv keys

pub data Route : Type 0 where
  root signin_page signin_provider signin_callback signout_page wallets_page : Route

abbrev pub path_of : Route → String → Bytes
path_of root provider = codes "/"
path_of signin_page provider = codes "/signin"
path_of signin_provider provider = codes "/signin/" ++ codes provider
path_of signin_callback provider = codes "/signin/" ++ (codes provider ++ codes "/callback")
path_of signout_page provider = codes "/signout"
path_of wallets_page provider = codes "/dashboard/wallets"

-- What the two templates render.
pub record Pages : Type 0 where
  pub signin : Fallible Bytes
  pub wallets : Fallible Bytes

module _ (pages : Pages) (github : Github) (db : Accounts) where
  -- `WalletsHandler`
  unfoldable pub wallets_handler : Handler db
  unfolding render
  wallets_handler c st = ok (replied (render pages.wallets), st)

  -- The table of the routes.
  unfoldable pub handler_of : Route → Handler db
  unfolding wallets_handler signin_handler authorize_handler callback_handler signout_handler
  handler_of root c st = ok (replied (text 200 "Hello, World!"), st)
  handler_of signin_page c st = signin_handler pages.signin db c st
  handler_of signin_provider c st = authorize_handler github db c st
  handler_of signin_callback c st = callback_handler github db c st
  handler_of signout_page c st = signout_handler db c st
  handler_of wallets_page c st = wallets_handler c st

  -- A request, through the middlewares in the order in which they are registered.
  unfoldable pub serve : Route → Request → db.State → Outcome (Response × db.State)
  unfolding register_db auth handler_of
  serve route req st = register_db db (auth db (handler_of route)) (plain req) st
