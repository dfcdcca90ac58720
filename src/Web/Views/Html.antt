-- ===== src/Web/Views/Html.antt =====
-- Documents as trees: what the templates below view are to render.
use tax_bro.Prelude.{List, [], ◌∷◌, ◌++◌, String, eq_string, ◌==◌, if◌then◌else◌}
use tax_bro.Text.{Bytes, codes}
use tax_bro.Web.Views.{SocialSignIn}

pub record Attribute : Type 0 where
  pub name : String
  pub content : Bytes

-- `void` is an element without an end tag, `raw` a text that is printed as it is.
mutual
  pub data Html : Type 0 where
    element : String → List Attribute → Htmls → Html
    void : String → List Attribute → Html
    raw : Bytes → Html

  pub data Htmls : Type 0 where
    nil : Htmls
    cons : Html → Htmls → Htmls

abbrev pub print_attributes : List Attribute → Bytes
print_attributes [] = []
print_attributes (a ∷ attributes) =
    codes " "
    ++ codes a.name
    ++ codes "=\""
    ++ a.content
    ++ codes "\""
    ++ print_attributes attributes

abbrev pub start_tag : String → List Attribute → Bytes
start_tag name attributes = codes "<" ++ codes name ++ print_attributes attributes ++ codes ">"

unfoldable mutual
  pub print : Html → Bytes
  print (element name attributes children) =
      start_tag name attributes ++ print_all children ++ codes "</" ++ codes name ++ codes ">"
  print (void name attributes) = start_tag name attributes
  print (raw text) = text

  pub print_all : Htmls → Bytes
  print_all nil = []
  print_all (cons h rest) = print h ++ print_all rest

-- The addresses of the links of an attribute list, if it is that of an `a`.
abbrev hrefs_of : List Attribute → List Bytes
hrefs_of [] = []
hrefs_of (a ∷ attributes) =
    if a.name == "href" then a.content ∷ hrefs_of attributes else hrefs_of attributes

unfoldable mutual
  pub links : Html → List Bytes
  links (element name attributes children) =
      (if name == "a" then hrefs_of attributes else []) ++ links_of_all children
  links (void name attributes) = []
  links (raw text) = []

  pub links_of_all : Htmls → List Bytes
  links_of_all nil = []
  links_of_all (cons h rest) = links h ++ links_of_all rest

abbrev pub a_class : String → Attribute
a_class text = record { name = "class"; content = codes text }

abbrev pub attribute : String → String → Attribute
attribute name text = record { name = name; content = codes text }

abbrev pub only : Html → Htmls
only h = cons h nil

-- The page of the layout, with a body.
abbrev pub layout : Html → Html
layout body = element "html" (attribute "lang" "en" ∷ a_class "w-full min-h-screen" ∷ []) (
    cons
      (element "head" [] (
        cons (void "meta" (attribute "charset" "UTF-8" ∷ [])) (
          cons
            (void "meta" (
              attribute "name" "viewport"
              ∷ attribute "content" "width=device-width, initial-scale=1.0"
              ∷ []))
            (cons (element "title" [] (only (raw (codes "Tax bro")))) (
              only (
                void "link"
                  (attribute "href" "/assets/styles.css" ∷ attribute "rel" "stylesheet" ∷ [])))))))
      (only (element "body" (a_class "w-full min-h-screen bg-gray-100" ∷ []) (only body))))

-- The item of a provider, with its link.
abbrev pub item : SocialSignIn → Html
item si = element "li" (a_class "w-full btn" ∷ []) (
    only (
      element "a"
        (record { name = "href"; content = codes "/signin/" ++ si.url }
          ∷ a_class "h-10 flex items-center justify-center gap-x-4"
          ∷ [])
        (cons (element "span" (a_class "w-4 h-4" ∷ []) (only (raw si.icon)))
          (cons (raw (codes " ")) (only (raw si.name))))))

unfoldable pub items : List SocialSignIn → Htmls
items [] = nil
items (si ∷ rest) = cons (item si) (items rest)

abbrev pub sign_in_card : List SocialSignIn → Html
sign_in_card providers =
    element "div"
      (a_class
          "w-full min-h-screen grid grid-rows-[1fr_auto_1fr_1fr] grid-cols-[1rem_1fr_1rem] sm:grid-cols-[1fr_500px_1fr]"
        ∷ [])
      (only (
        element "div"
          (a_class "card bg-white w-full py-6 px-8 text-center row-[2/3] col-[2/3]" ∷ [])
          (cons
            (element "h1" (a_class "text-slate-900 text-3xl font-semibold" ∷ [])
              (only (raw (codes "Sign in"))))
            (cons
              (element "h2" (a_class "text-slate-600" ∷ [])
                (only (raw (codes "Choose a social provider to sign in with"))))
              (only
                (element "ul" (a_class "mt-10 flex flex-col gap-y-4" ∷ []) (items providers)))))))

-- The text of a whole page.
abbrev pub document : Html → Bytes
document body = codes "<!doctype html>" ++ print (layout body)
