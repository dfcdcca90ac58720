-- ===== src/Web/Views/Links.antt =====
-- The sign-in page below view/routes/signin, as the application of cmd/app/main.go serves it.
use tax_bro.Prelude.{◌≡◌, refl, [], ◌∷◌, none, eq_string, All, ok}
use tax_bro.Text.{codes}
use tax_bro.Web.{redirect, html, replied, Accounts, Github}
use tax_bro.Web.SignIn.{authorize_url}
use tax_bro.Web.App.{signin_page, signin_provider, path_of, serve}
use tax_bro.Web.Sessions.{asks}
use tax_bro.Web.Views.{Templ, sign_ins, rendered_pages}
use tax_bro.Web.Views.Html.{print, links, sign_in_card, document}
use tax_bro.Web.Views.Printed.{IsWriting, IsPlain, rendered-signin_template}

sign_ins-IsPlain : All IsPlain sign_ins
sign_ins-IsPlain = ((refl, refl), ((refl, refl), tt))

module _ (templ : Templ) (law : IsWriting templ) (github : Github) (db : Accounts)
    (st : db.State) where
  -- Who has no cookie is shown the sign-in page, which is the text of one document tree if
  -- the runtime writes what it is told to. The links of the document are the paths of the providers
  -- GitHub and Discord. The first leads on to GitHub's authorization, the second to a page with
  -- nothing but the provider's name.
  pub signin_page_lem :
      (serve (rendered_pages templ) github db signin_page (asks none signin_page "" []) st
        ≡ ok (replied (html 200 (document (sign_in_card sign_ins))), st))
      × (links (sign_in_card sign_ins)
          ≡ path_of signin_provider "github" ∷ path_of signin_provider "discord" ∷ [])
      × (serve
            (rendered_pages templ)
            github
            db
            signin_provider
            (asks none signin_provider "github" [])
            st
          ≡ ok (replied (redirect 307 (authorize_url github)), st))
      × (serve
            (rendered_pages templ)
            github
            db
            signin_provider
            (asks none signin_provider "discord" [])
            st
          ≡ ok (replied (html 200 (codes "discord")), st))
  unfolding serve links tax_bro.Web.Views.Html.items
  signin_page_lem =
      (rw (rendered-signin_template templ law sign_ins-IsPlain) refl, refl, refl, refl)
