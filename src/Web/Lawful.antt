-- ===== src/Web/Lawful.antt =====
-- What the statements of the handlers below view do in PostgreSQL, with the tables of
-- 01_user.up.sql in db_migrations. A statement may also fail, and then promises nothing.
use tax_bro.Prelude.{
  ℕ, ◌≡◌, ◌≢◌, Bool, false, ◌||◌, String, eq_nat, eq_string, ◌==◌, if◌then◌else◌, Option, none,
  some, value,
}
use tax_bro.Prelude.Int.{ℤ}
use tax_bro.Web.{row, no_rows, Accounts}

-- What the tables hold: the user of a session and of a GitHub account, and which ids
-- `uuid_generate_v4()` has given out.
pub record Contents (db : Accounts) : Type 0 where
  pub sessions : db.State → String → Option ℤ
  pub users : db.State → ℕ → Option ℤ
  pub issued : db.State → String → Bool

pub record SameSessions {db : Accounts} (c : Contents db) (st st' : db.State) : Type 0 where
  pub sessions : (id : String) → c.sessions st' id ≡ c.sessions st id
  pub issued : (id : String) → c.issued st' id ≡ c.issued st id

-- The column `user_id` of `session` is UNIQUE, and an id is given out once.
pub record IsLawful (db : Accounts) (c : Contents db) : Type 0 where
  pub session_row :
      (id : String) (st : db.State) (u : ℤ)
      → db.select_session id st ≡ row u
      → c.sessions st id ≡ some u
  pub session_none :
      (id : String) (st : db.State) → db.select_session id st ≡ no_rows → c.sessions st id ≡ none
  pub github_row :
      (g : ℕ) (st : db.State) (u : ℤ) → db.select_github_user g st ≡ row u → c.users st g ≡ some u
  pub github_none :
      (g : ℕ) (st : db.State) → db.select_github_user g st ≡ no_rows → c.users st g ≡ none
  pub user_inserted :
      (st st' : db.State) (u : ℤ)
      → db.insert_user st ≡ value (u, st')
      → SameSessions c st st' × ((g : ℕ) → c.users st' g ≡ c.users st g)
  pub github_inserted :
      (u : ℤ) (g : ℕ) (login : String) (st st' : db.State)
      → db.insert_github u g login st ≡ value st'
      → SameSessions c st st'
        × ((h : ℕ) → c.users st' h ≡ (if h == g then some u else c.users st h))
  pub session_inserted :
      (u : ℤ) (st st' : db.State) (id : String)
      → db.insert_session u st ≡ value (id, st')
      → (c.issued st id ≡ false)
        × ((v : String) → c.sessions st' v ≡ (if v == id then some u else c.sessions st v))
        × ((v : String) → c.issued st' v ≡ (v == id || c.issued st v))
        × ((g : ℕ) → c.users st' g ≡ c.users st g)
        × ((v : String) → c.sessions st v ≢ some u)
  pub session_deleted :
      (id : String) (st st' : db.State)
      → db.delete_session id st ≡ value st'
      → ((v : String) → c.sessions st' v ≡ (if v == id then none else c.sessions st v))
        × ((v : String) → c.issued st' v ≡ c.issued st v)
        × ((g : ℕ) → c.users st' g ≡ c.users st g)
