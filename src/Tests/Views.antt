-- ===== src/Tests/Views.antt =====
-- The sign-in page of the templates below view, over a runtime in memory.
use tax_bro.Prelude.{
  ◌≡◌, refl, sym, true, false, ◌||◌, [], ◌∷◌, ◌++◌, append-nil, nat_eq, if◌then◌else◌, none, value,
  ok, arith,
}
use tax_bro.Text.{Bytes, codes}
use tax_bro.Web.{redirect, html, replied}
use tax_bro.Web.SignIn.{authorize_url}
use tax_bro.Web.App.{signin_page, signin_provider, path_of, serve}
use tax_bro.Web.Sessions.{asks}
use tax_bro.Web.Views.{Templ, sign_ins, rendered_pages}
use tax_bro.Web.Views.Html.{links, sign_in_card, document}
use tax_bro.Web.Views.Printed.{is_plain, IsWriting}
use tax_bro.Web.Views.Links.{signin_page_lem}
use tax_bro.Tests.Accounts.{tables}
use tax_bro.Tests.Web.{github, signed_in}

abbrev escaped : Bytes → Bytes
escaped [] = []
escaped (c ∷ s) =
    (if nat_eq c 34 || nat_eq c 38 || nat_eq c 39 || nat_eq c 60 || nat_eq c 62
      then codes "&#" ++ c ∷ codes ";"
      else c ∷ [])
    ++ escaped s

escaped-plain : (s : Bytes) → is_plain s ≡ true → escaped s ≡ s
escaped-plain [] h = refl
escaped-plain (c ∷ s) h = ground (arith, escaped-plain s)

abbrev in_memory : Templ
in_memory = record {
  Buffer = Bytes;
  is_cancelled = false;
  get_buffer = λ w. (w, false);
  release_buffer = λ b. value b;
  write_string = λ s b. value (b ++ s);
  render_raw = λ s b. value (b ++ s);
  escape_string = escaped;
  join_string_errs = λ s. value s;
  empty = [];
  string = λ b. b;
}

in_memory-IsWriting : IsWriting in_memory
in_memory-IsWriting = record {
  active = refl;
  emptied = refl;
  got = λ w. refl;
  released = λ b. (b, refl, sym (append-nil b));
  written = λ s b. (b ++ s, refl, refl);
  raw_written = λ s b. (b ++ s, refl, refl);
  escaped = escaped-plain;
  joined = λ s. refl;
}

signin_page_lem_example :
    (serve
        (rendered_pages in_memory)
        github
        tables
        signin_page
        (asks none signin_page "" [])
        signed_in
      ≡ ok (replied (html 200 (document (sign_in_card sign_ins))), signed_in))
    × (links (sign_in_card sign_ins)
        ≡ path_of signin_provider "github" ∷ path_of signin_provider "discord" ∷ [])
    × (serve
          (rendered_pages in_memory)
          github
          tables
          signin_provider
          (asks none signin_provider "github" [])
          signed_in
        ≡ ok (replied (redirect 307 (authorize_url github)), signed_in))
    × (serve
          (rendered_pages in_memory)
          github
          tables
          signin_provider
          (asks none signin_provider "discord" [])
          signed_in
        ≡ ok (replied (html 200 (codes "discord")), signed_in))
signin_page_lem_example = signin_page_lem in_memory in_memory-IsWriting github tables signed_in
