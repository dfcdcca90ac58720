-- ===== src/Web/Browsers.antt =====
-- Browsers before the application of cmd/app/main.go: what they send is what they were given. A
-- session's id cannot be guessed, so a browser has no other cookie than one that was set.
pub mod Honest
use tax_bro.Prelude.{
  ℕ, Bool, true, false, List, [], ◌∷◌, ◌++◌, String, eq_nat, ◌==◌, if◌then◌else◌, Option, none,
  some, Outcome, ok, ◌≡◌,
}
use tax_bro.Prelude.Int.{ℤ, pos, negsuc}
use tax_bro.Text.{Bytes}
use tax_bro.Web.{Cookie, Request, Response, Accounts, Github}
use tax_bro.Web.Callback.{identify}
use tax_bro.Web.App.{Pages, Route, path_of, serve}
use tax_bro.Web.Change.{named_of}

-- `Set-Cookie`: a negative `Max-Age` deletes the cookie. The only cookie is "auth".
abbrev pub set_cookie : Option String → Cookie → Option String
set_cookie jar cookie = elim (cookie.max_age) [ pos n ↦ some cookie.content | negsuc n ↦ none ]

abbrev pub set_all : Option String → List Cookie → Option String
set_all jar [] = jar
set_all jar (cookie ∷ cookies) = set_all (set_cookie jar cookie) cookies

abbrev pub sent_cookies : Option String → List (String × String)
sent_cookies none = []
sent_cookies (some session_id) = ("auth", session_id) ∷ []

abbrev pub at {ℓ} : {A : Type ℓ} → (ℕ → A) → ℕ → A → ℕ → A
at f b a v = if v == b then a else f v

module _ (db : Accounts) where
  -- `jar` has each browser's cookie, and `presented` the GitHub accounts that GitHub named for the
  -- codes that the browser has sent.
  pub record World : Type 0 where
    pub st : db.State
    pub jar : ℕ → Option String
    pub presented : ℕ → List ℕ

  -- The request of a browser for a route.
  abbrev pub request : World → ℕ → Route → String → Bytes → Request
  request w b route provider code = record {
    path = path_of route provider;
    cookies = sent_cookies (w.jar b);
    provider = provider;
    code = code;
  }

  -- In a step one browser makes one request, which GitHub may answer as it likes, or its cookie
  -- expires.
  pub data Step (w : World) (w' : World) : Type 0 where
    visits :
        (b : ℕ) (pages : Pages) (github : Github) (route : Route) (provider : String) (code : Bytes)
        (res : Response)
        → serve pages github db route (request w b route provider code) w.st ≡ ok (res, w'.st)
        → ((v : ℕ) → w'.jar v ≡ at w.jar b (set_all (w.jar b) res.set_cookies) v)
        → ((v : ℕ)
            → w'.presented v
              ≡ at w.presented b (named_of (identify github code) ++ w.presented b) v)
        → Step w w'
    expires :
        (b : ℕ)
        → w'.st ≡ w.st
        → ((v : ℕ) → w'.jar v ≡ at w.jar b none v)
        → ((v : ℕ) → w'.presented v ≡ w.presented v)
        → Step w w'

  pub data Reach (w : World) : World → Type 0 where
    here : Reach w w
    next : {u v : World} → Reach w u → Step u v → Reach w v
