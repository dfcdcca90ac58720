-- ===== src/Web/Failures.antt =====
-- What goes wrong in the callback of view/routes/signin/callback_handler.go.
use tax_bro.Prelude.{
  ℕ, ◌<◌, ◌≡◌, refl, ◌∙◌, ◌++◌, not, Bool, true, nat_eq, ◌&&◌, false, [], ◌∷◌, String, none, some,
  ok, Fallible, value, error,
}
use tax_bro.Prelude.Int.{ℤ}
use tax_bro.Text.{Bytes, bytes_eq}
use tax_bro.Web.{with_db, no_content, replied, row, Accounts, GithubUserDataResponse, Github}
use tax_bro.Web.Lawful.{Contents, IsLawful}
use tax_bro.Web.Callback.{
  identify, identified, find_user, start_session, started_session, github_callback, callback,
  callback_handler,
}
use tax_bro.Web.App.{Pages, signin_callback, handler_of, serve}
use tax_bro.Web.Sessions.{asks}

abbrev pub has_no_hash : Bytes → Bool
has_no_hash [] = true
has_no_hash (x ∷ xs) = not (nat_eq x 35) && has_no_hash xs

-- What net/url promises: an address with a control character before its fragment is none.
abbrev pub RefusesControls : Github → Type 0
RefusesControls github =
    (front : Bytes) (c : ℕ) (back : Bytes)
    → c < 32
    → has_no_hash front ≡ true
    → github.accepts_url (front ++ c ∷ back) ≡ false

module _ (db : Accounts) (pages : Pages) (github : Github) (code : Bytes) (st : db.State) where
  -- A callback without a cookie comes down to what GitHub says of its code.
  callback_served :
      {user : Fallible GithubUserDataResponse}
      → bytes_eq code [] ≡ false
      → identify github code ≡ ok user
      → serve pages github db signin_callback (asks none signin_callback "github" code) st
        ≡ identified [] db (with_db (asks none signin_callback "github" code)) st user
  unfolding serve handler_of callback_handler callback github_callback
  callback_served some_code names = rw (some_code, names) refl

  -- Who has a session, on whatever browser, cannot sign in on another: the insertion fails, and the
  -- tables stay as they are.
  pub callback_locked_out :
      (c : Contents db) (law : IsLawful db c) (user : GithubUserDataResponse) (u : ℤ) (id : String)
      → bytes_eq code [] ≡ false
      → identify github code ≡ ok (value user)
      → db.select_github_user user.id st ≡ row u
      → c.sessions st id ≡ some u
      → serve pages github db signin_callback (asks none signin_callback "github" code) st
        ≡ ok (replied (no_content 500), st)
  unfolding identified find_user start_session
  callback_locked_out c law user u id some_code names found live =
      callback_served some_code names ∙ rw found (inserted (db.insert_session u st) refl)
    where
      inserted :
          (insertion : Fallible (String × db.State))
          → db.insert_session u st ≡ insertion
          → ok (started_session db [] st insertion) ≡ ok (replied (no_content 500), st)
      inserted error e = refl
      inserted (value (id₀, st')) e =
          let (fresh, sessions, issued, users, unique) = law.session_inserted u st st' id₀ e in
          absurd (unique id live)
