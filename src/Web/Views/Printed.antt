-- ===== src/Web/Views/Printed.antt =====
-- What the templates below view write, over a runtime that writes.
use tax_bro.Prelude.{
  ◌≡◌, refl, sym, ap, ◌∙◌, Bool, true, false, ◌||◌, ◌&&◌, not, List, [], ◌∷◌, ◌++◌, append_assoc,
  append-nil, All, nat_eq, value,
}
use tax_bro.Text.{Bytes, codes}
use tax_bro.Web.Views.{
  ◌>>=◌, Templ, SocialSignIn, sign_ins, Component, with_buffer, generated_children,
  generated_template, base_template, wallets_template, sign_in_item, sign_in_items, signin_children,
  signin_template, rendered,
}
use tax_bro.Web.Views.Html.{print, print_all, item, items, sign_in_card, document, Html}

-- No `"`, `&`, `'`, `<` or `>`, which html.EscapeString replaces.
abbrev pub is_plain : Bytes → Bool
is_plain [] = true
is_plain (c ∷ s) =
    not (nat_eq c 34 || nat_eq c 38 || nat_eq c 39 || nat_eq c 60 || nat_eq c 62) && is_plain s

-- A component writes a text behind what its writer has.
abbrev pub Writes : (templ : Templ) → Component templ → Bytes → Type 0
Writes templ component text =
    (b : templ.Buffer)
    → (b' : templ.Buffer) × (component b ≡ value b') × (templ.string b' ≡ templ.string b ++ text)

-- What the documentation of the runtime says, for writers without an error.
pub record IsWriting (templ : Templ) : Type 0 where
  pub active : templ.is_cancelled ≡ false
  pub emptied : templ.string templ.empty ≡ []
  pub got : (w : templ.Buffer) → templ.string (templ.get_buffer w).0 ≡ templ.string w
  pub released : Writes templ templ.release_buffer []
  pub written : (s : Bytes) → Writes templ (templ.write_string s) s
  pub raw_written : (s : Bytes) → Writes templ (templ.render_raw s) s
  pub escaped : (s : Bytes) → is_plain s ≡ true → templ.escape_string s ≡ s
  pub joined : (s : Bytes) → templ.join_string_errs s ≡ value s

-- A provider whose texts need no escapes.
abbrev pub IsPlain : SocialSignIn → Type 0
IsPlain si = (is_plain (codes "/signin/" ++ si.url) ≡ true) × (is_plain si.name ≡ true)

module _ (templ : Templ) (law : IsWriting templ) where
  then-Writes :
      (first rest : Component templ) (s t : Bytes)
      → Writes templ first s
      → Writes templ rest t
      → Writes templ (λ b. first b >>= rest) (s ++ t)
  then-Writes first rest s t w v b =
      let (b₁, e₁, t₁) = w b in
      let (b₂, e₂, t₂) = v b₁ in
      (b₂, rw (e₁, e₂) refl, t₂ ∙ ap (λ x. x ++ t) t₁ ∙ append_assoc (templ.string b) s t)

  same-Writes :
      (component : Component templ) (s t : Bytes)
      → s ≡ t
      → Writes templ component s
      → Writes templ component t
  same-Writes component s t e w = rw (← e) w

  with_buffer-Writes :
      (body : Component templ) (s : Bytes) (r : templ.Buffer × Bool)
      → Writes templ body s
      → (b' : templ.Buffer) × (with_buffer templ body r ≡ value b')
        × (templ.string b' ≡ templ.string r.0 ++ s)
  with_buffer-Writes body s (b, true) w = w b
  with_buffer-Writes body s (b, false) w =
      let (b', e, t) = then-Writes body templ.release_buffer s [] w law.released b in
      (b', e, t ∙ ap (λ x. templ.string b ++ x) (append-nil s))

  generated_children-Writes :
      (body : Component templ) (s : Bytes)
      → Writes templ body s
      → Writes templ (generated_children templ body) s
  generated_children-Writes body s w b =
      let (b', e, t) = with_buffer-Writes body s (templ.get_buffer b) w in
      (b', e, t ∙ ap (λ x. x ++ s) (law.got b))

  generated_template-Writes :
      (body : Component templ) (s : Bytes)
      → Writes templ body s
      → Writes templ (generated_template templ body) s
  generated_template-Writes body s w = rw law.active (generated_children-Writes body s w)

  sign_in_item-Writes :
      (si : SocialSignIn) → IsPlain si → Writes templ (sign_in_item templ si) (print (item si))
  unfolding sign_in_item print
  sign_in_item-Writes si plain =
      let end = law.written (codes "</a></li>") in
      let name : Writes templ (templ.write_string (templ.escape_string si.name)) si.name =
        rw (law.escaped si.name plain.1) (law.written si.name) in
      let address : Writes templ
          (templ.write_string (templ.escape_string (codes "/signin/" ++ si.url)))
          (codes "/signin/" ++ si.url) =
        rw (law.escaped (codes "/signin/" ++ si.url) plain.0)
          (law.written (codes "/signin/" ++ si.url)) in
      let whole = then-Writes _ _ _ _ (law.written (codes "<li class=\"w-full btn\"><a href=\"")) (
        then-Writes _ _ _ _ address (
          then-Writes _ _ _ _
            (law.written (
              codes
                "\" class=\"h-10 flex items-center justify-center gap-x-4\"><span class=\"w-4 h-4\">"))
            (then-Writes _ _ _ _ (law.raw_written si.icon) (
              then-Writes _ _ _ _ (law.written (codes "</span> "))
                (then-Writes _ _ _ _ name end))))) in
      rw (law.joined si.name) (same-Writes _ _ _ (simp append_assoc) whole)

  sign_in_items-Writes :
      (providers : List SocialSignIn)
      → All IsPlain providers
      → Writes templ (sign_in_items templ providers) (print_all (items providers))
  unfolding sign_in_items print items
  sign_in_items-Writes [] plain = λ b. (b, refl, sym (append-nil (templ.string b)))
  sign_in_items-Writes (si ∷ providers) plain =
      then-Writes _ _ _ _ (sign_in_item-Writes si plain.0) (sign_in_items-Writes providers plain.1)

  signin_children-Writes :
      All IsPlain sign_ins → Writes templ (signin_children templ) (print (sign_in_card sign_ins))
  unfolding print
  signin_children-Writes plain = generated_children-Writes _ _ (
      same-Writes _ _ _ (simp append_assoc) (
        then-Writes _ _ _ _ (law.written _)
          (then-Writes _ _ _ _ (sign_in_items-Writes sign_ins plain) (law.written _))))

  base_template-Writes :
      (children : Component templ) (body : Html)
      → Writes templ children (print body)
      → Writes templ (base_template templ children) (document body)
  unfolding print
  base_template-Writes children body w = generated_template-Writes _ _ (
      same-Writes _ _ _ (simp append_assoc)
        (then-Writes _ _ _ _ (law.written _) (then-Writes _ _ _ _ w (law.written _))))

  rendered-Writes :
      (component : Component templ) (text : Bytes)
      → Writes templ component text
      → rendered templ component ≡ value text
  rendered-Writes component text w =
      let (b, e, t) = w templ.empty in rw e (ap value (t ∙ ap (λ x. x ++ text) law.emptied))

  pub rendered-signin_template :
      All IsPlain sign_ins
      → rendered templ (signin_template templ) ≡ value (document (sign_in_card sign_ins))
  rendered-signin_template plain =
      rendered-Writes _ _
        (generated_template-Writes _ _ (base_template-Writes _ _ (signin_children-Writes plain)))

  pub rendered-wallets_template :
      rendered templ (wallets_template templ) ≡ value (codes "<div>Wallets</div>")
  rendered-wallets_template = rendered-Writes _ _ (generated_template-Writes _ _ (law.written _))
