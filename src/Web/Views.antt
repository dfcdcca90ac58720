-- ===== src/Web/Views.antt =====
-- The generated templates of view/layouts/base_templ.go, view/routes/dashboard/wallets_handler_templ.go
-- and view/routes/signin/signin_templ.go, over the runtime of github.com/a-h/templ.
pub mod Html
pub mod Links
pub mod Printed
use tax_bro.Prelude.{Bool, true, false, List, [], ◌∷◌, ◌++◌, if◌then◌else◌, Fallible, value, error}
use tax_bro.Text.{Bytes, codes}
use tax_bro.Web.App.{Pages}

infixl 5 ◌>>=◌
abbrev pub ◌>>=◌ {ℓ κ} : {A : Type ℓ} {B : Type κ} → Fallible A → (A → Fallible B) → Fallible B
value a >>= f = f a
error >>= f = error

-- `is_cancelled`: the request's context has an error. A buffer is a writer with what was written to
-- it. `get_buffer` also tells whether the writer was a buffer before; `release_buffer` hands what
-- is in a buffer on to its writer. `render_raw` is `templ.Raw(s).Render`. `empty` and `string` are
-- the buffer of `utils.Render`.
pub record Templ : Type 1 where
  pub Buffer : Type 0
  pub is_cancelled : Bool
  pub get_buffer : Buffer → Buffer × Bool
  pub release_buffer : Buffer → Fallible Buffer
  pub write_string : Bytes → Buffer → Fallible Buffer
  pub render_raw : Bytes → Buffer → Fallible Buffer
  pub escape_string : Bytes → Bytes
  pub join_string_errs : Bytes → Fallible Bytes
  pub empty : Buffer
  pub string : Buffer → Bytes

-- `socialSignIn`
pub record SocialSignIn : Type 0 where
  pub icon : Bytes
  pub name : Bytes
  pub url : Bytes

abbrev pub github_icon : Bytes
github_icon =
    codes
      "\n<svg xmlns=\"http://www.w3.org/2000/svg\" class=\"w-full h-full\" viewBox=\"0 0 24 24\" fill=\"none\" stroke=\"currentColor\" stroke-width=\"2\" stroke-linecap=\"round\" stroke-linejoin=\"round\">\n    <path d=\"M15 22v-4a4.8 4.8 0 0 0-1-3.5c3 0 6-2 6-5.5.08-1.25-.27-2.48-1-3.5.28-1.15.28-2.35 0-3.5 0 0-1 0-3 1.5-2.64-.5-5.36-.5-8 0C6 2 5 2 5 2c-.3 1.15-.3 2.35 0 3.5A5.403 5.403 0 0 0 4 9c0 3.5 3 5.5 6 5.5-.39.49-.68 1.05-.85 1.65-.17.6-.22 1.23-.15 1.85v4\"/>\n    <path d=\"M9 18c-4.51 2-5-2-7-2\"/>\n</svg>\n"

abbrev pub discord_icon : Bytes
discord_icon =
    codes
      "\n<svg xmlns=\"http://www.w3.org/2000/svg\" class=\"w-full h-full\" viewBox=\"0 0 127.14 96.36\">\n    <path d=\"M107.7,8.07A105.15,105.15,0,0,0,81.47,0a72.06,72.06,0,0,0-3.36,6.83A97.68,97.68,0,0,0,49,6.83,72.37,72.37,0,0,0,45.64,0,105.89,105.89,0,0,0,19.39,8.09C2.79,32.65-1.71,56.6.54,80.21h0A105.73,105.73,0,0,0,32.71,96.36,77.7,77.7,0,0,0,39.6,85.25a68.42,68.42,0,0,1-10.85-5.18c.91-.66,1.8-1.34,2.66-2a75.57,75.57,0,0,0,64.32,0c.87.71,1.76,1.39,2.66,2a68.68,68.68,0,0,1-10.87,5.19,77,77,0,0,0,6.89,11.1A105.25,105.25,0,0,0,126.6,80.22h0C129.24,52.84,122.09,29.11,107.7,8.07ZM42.45,65.69C36.18,65.69,31,60,31,53s5-12.74,11.43-12.74S54,46,53.89,53,48.84,65.69,42.45,65.69Zm42.24,0C78.41,65.69,73.25,60,73.25,53s5-12.74,11.44-12.74S96.23,46,96.12,53,91.08,65.69,84.69,65.69Z\"/>\n</svg>\n"

-- `signIns`
abbrev pub sign_ins : List SocialSignIn
sign_ins =
    record { icon = github_icon; name = codes "Github"; url = codes "github" }
    ∷ record { icon = discord_icon; name = codes "Discord"; url = codes "discord" }
    ∷ []

module _ (templ : Templ) where
  -- A component that writes to a buffer. Its children are an argument where it renders them.
  abbrev pub Component : Type 0
  Component = templ.Buffer → Fallible templ.Buffer

  -- A body at the buffer of its writer, which is released unless it was one before. An error of
  -- the body stays the error.
  abbrev pub with_buffer : Component → templ.Buffer × Bool → Fallible templ.Buffer
  with_buffer body (buffer, true) = body buffer
  with_buffer body (buffer, false) = do written ← body buffer; templ.release_buffer written

  -- The function that a template gives to `templruntime.GeneratedTemplate`: the one of children does
  -- not look at the context's error.
  abbrev pub generated_children : Component → Component
  generated_children body writer = with_buffer body (templ.get_buffer writer)

  abbrev pub generated_template : Component → Component
  generated_template body writer =
      if templ.is_cancelled then error else generated_children body writer

  -- `Base`
  abbrev pub base_template : Component → Component
  base_template children = generated_template (λ buffer. do
    b₁ ←
        templ.write_string
          (codes
            "<!doctype html><html lang=\"en\" class=\"w-full min-h-screen\"><head><meta charset=\"UTF-8\"><meta name=\"viewport\" content=\"width=device-width, initial-scale=1.0\"><title>Tax bro</title><link href=\"/assets/styles.css\" rel=\"stylesheet\"></head><body class=\"w-full min-h-screen bg-gray-100\">")
          buffer
    b₂ ← children b₁
    templ.write_string (codes "</body></html>") b₂)

  -- `Wallets`
  abbrev pub wallets_template : Component
  wallets_template =
      generated_template (λ buffer. templ.write_string (codes "<div>Wallets</div>") buffer)

  -- The loop over `signIns`.
  unfoldable pub sign_in_item : SocialSignIn → Component
  sign_in_item si buffer = do
    b₁ ← templ.write_string (codes "<li class=\"w-full btn\"><a href=\"") buffer
    b₂ ← templ.write_string (templ.escape_string (codes "/signin/" ++ si.url)) b₁
    b₃ ←
        templ.write_string
          (codes
            "\" class=\"h-10 flex items-center justify-center gap-x-4\"><span class=\"w-4 h-4\">")
          b₂
    b₄ ← templ.render_raw si.icon b₃
    b₅ ← templ.write_string (codes "</span> ") b₄
    name ← templ.join_string_errs si.name
    b₆ ← templ.write_string (templ.escape_string name) b₅
    templ.write_string (codes "</a></li>") b₆

  unfoldable pub sign_in_items : List SocialSignIn → Component
  sign_in_items [] buffer = value buffer
  sign_in_items (si ∷ rest) buffer = do written ← sign_in_item si buffer; sign_in_items rest written

  -- What `Signin` puts into `Base`.
  abbrev pub signin_children : Component
  signin_children = generated_children (λ buffer. do
    b₁ ←
        templ.write_string
          (codes
            "<div class=\"w-full min-h-screen grid grid-rows-[1fr_auto_1fr_1fr] grid-cols-[1rem_1fr_1rem] sm:grid-cols-[1fr_500px_1fr]\"><div class=\"card bg-white w-full py-6 px-8 text-center row-[2/3] col-[2/3]\"><h1 class=\"text-slate-900 text-3xl font-semibold\">Sign in</h1><h2 class=\"text-slate-600\">Choose a social provider to sign in with</h2><ul class=\"mt-10 flex flex-col gap-y-4\">")
          buffer
    b₂ ← sign_in_items sign_ins b₁
    templ.write_string (codes "</ul></div></div>") b₂)

  -- `Signin`
  abbrev pub signin_template : Component
  signin_template = generated_template (λ buffer. base_template signin_children buffer)

  -- The text of `utils.Render`.
  abbrev pub rendered : Component → Fallible Bytes
  rendered component = do buffer ← component templ.empty; value (templ.string buffer)

  -- The two pages of the application.
  abbrev pub rendered_pages : Pages
  rendered_pages = record { signin = rendered signin_template; wallets = rendered wallets_template }
