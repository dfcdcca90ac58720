-- ===== src/Web/Browsers/Honest.antt =====
-- A browser is signed in only as a user whose GitHub account it has presented.
use text.Mathlib.TextEquality.{eq_iff}
use tax_bro.Prelude.{
  ℕ, ◌≡◌, refl, sym, ap, subst, ◌∙◌, ◌⊎◌, inl, inr, Bool, true, false, Bool-cases, ◌||◌, List, [],
  ◌∷◌, ◌++◌, contains, String, eq_nat, eq_string, nat_eq_iff, ◌==◌, if◌then◌else◌, Option, none,
  some, arith,
}
use tax_bro.Prelude.Int.{ℤ}
use tax_bro.Web.{Cookie, Accounts}
use tax_bro.Web.SignIn.{auth_cookie}
use tax_bro.Web.Callback.{identify}
use tax_bro.Web.Lawful.{Contents, IsLawful}
use tax_bro.Web.Change.{IsClearing, named_of, Grows, Change, keeps, starts, ends, Allowed}
use tax_bro.Web.Change.Serve.{serve-Allowed}
use tax_bro.Web.Browsers.{
  set_cookie, set_all, at, World, request, Step, visits, expires, Reach, here, next,
}

-- Deletions leave no cookie that was not there.
pub set_all-clearing :
    (jar : Option String) (cookies : List Cookie) (id : String)
    → IsClearing cookies
    → set_all jar cookies ≡ some id
    → jar ≡ some id
set_all-clearing jar [] id clears e = e
set_all-clearing jar (cookie ∷ cookies) id clears e = absurd (
    cc (
      set_all-clearing none cookies id clears.1
        (subst (λ k. set_all (set_cookie jar k) cookies ≡ some id) clears.0 e)))

pub set_all-last :
    (jar : Option String) (before : List Cookie) (id : String)
    → set_all jar (before ++ auth_cookie id ∷ []) ≡ some id
set_all-last jar [] id = refl
set_all-last jar (cookie ∷ before) id = set_all-last (set_cookie jar cookie) before id

contains-append_right :
    (front back : List ℕ) (g : ℕ) → contains back g ≡ true → contains (front ++ back) g ≡ true
contains-append_right [] back g h = h
contains-append_right (x ∷ front) back g h = ground (arith, contains-append_right front back g h)

contains-append_left :
    (front back : List ℕ) (g : ℕ) → contains front g ≡ true → contains (front ++ back) g ≡ true
contains-append_left [] back g h = cc
contains-append_left (x ∷ front) back g h = ground (arith, contains-append_left front back g)

module _ {db : Accounts} (c : Contents db) where
  -- The GitHub account through which a browser has its user.
  abbrev pub Vouched : World db → ℕ → ℤ → Type 0
  Vouched w b u = (g : ℕ) × (contains (w.presented b) g ≡ true) × (c.users w.st g ≡ some u)

  record IsHonest (w : World db) : Type 0 where
    known : (b : ℕ) (id : String) → w.jar b ≡ some id → c.issued w.st id ≡ true
    vouched :
        (b : ℕ) (id : String) (u : ℤ)
        → w.jar b ≡ some id
        → c.sessions w.st id ≡ some u
        → Vouched w b u

  not_ended :
      (id₀ id : String) (u : ℤ) {old new : Option ℤ}
      → new ≡ (if id == id₀ then none else old)
      → new ≡ some u
      → old ≡ some u
  not_ended id₀ id u ended live = ground arith

  not_started :
      (issued : String → Bool) (id₀ id : String) (u₀ u : ℤ) {old new : Option ℤ}
      → issued id₀ ≡ false
      → issued id ≡ true
      → new ≡ (if id == id₀ then some u₀ else old)
      → new ≡ some u
      → old ≡ some u
  not_started issued id₀ id u₀ u fresh known started live = elim (Bool-cases (id == id₀)) [
    | inl mine ↦ absurd (cc (known, fresh, (eq_iff id id₀).0 mine))
    | inr other ↦ (rw other at (sym started)) ∙ live
  ]

  known_too : (test : Bool) {old : Bool} → old ≡ true → (test || old) ≡ true
  known_too true h = refl
  known_too false h = h

  expired :
      (jar : ℕ → Option String) (b v : ℕ) (id : String)
      → at jar b none v ≡ some id
      → jar v ≡ some id
  expired jar b v id e = ground arith

  module _ (w w' : World db) (b : ℕ) (named : List ℕ) (cookies : List Cookie)
      (jar : (v : ℕ) → w'.jar v ≡ at w.jar b (set_all (w.jar b) cookies) v)
      (presented : (v : ℕ) → w'.presented v ≡ at w.presented b (named ++ w.presented b) v)
      (honest : IsHonest w) where
    -- What a browser has presented stays presented.
    still : (v g : ℕ) → contains (w.presented v) g ≡ true → contains (w'.presented v) g ≡ true
    still v g h = elim (Bool-cases (v == b)) [
      | inl own ↦
          let same : v ≡ b = (nat_eq_iff v b).0 own in
          rw (presented v, own)
            (contains-append_right named (w.presented b) g
              (subst (λ k. contains (w.presented k) g ≡ true) same h))
      | inr other ↦ rw (presented v, other) h
    ]

    -- With cookies that delete only, a cookie was there before.
    cleared : IsClearing cookies → (v : ℕ) (id : String) → w'.jar v ≡ some id → w.jar v ≡ some id
    cleared clears v id e = elim (Bool-cases (v == b)) [
      | inl own ↦
          let same : v ≡ b = (nat_eq_iff v b).0 own in
          subst (λ k. w.jar k ≡ some id) (sym same)
            (set_all-clearing (w.jar b) cookies id clears (rw (jar v, own) at e))
      | inr other ↦ rw (jar v, other) at e
    ]

    carried :
        Grows c w.st w'.st
        → (v : ℕ) (id : String) (u : ℤ) → w.jar v ≡ some id
        → c.sessions w.st id ≡ some u
        → Vouched w' v u
    carried grows v id u kept live =
        let (g, shown, owns) = honest.vouched v id u kept live in
        (g, still v g shown, grows g u owns)

    named_shown : (g : ℕ) → contains named g ≡ true → contains (w'.presented b) g ≡ true
    named_shown g h =
        rw (presented b, (nat_eq_iff b b).1 refl) (contains-append_left named (w.presented b) g h)

    -- The cookie of a browser is the one that was set now, or it was there before.
    given :
        (id₀ : String) (before : List Cookie)
        → cookies ≡ before ++ auth_cookie id₀ ∷ []
        → (v : ℕ) (id : String) → w'.jar v ≡ some id
        → ((v ≡ b) × (id ≡ id₀)) ⊎ (w.jar v ≡ some id)
    given id₀ before set v id e = elim (Bool-cases (v == b)) [
      | inl own ↦
          let last = set_all-last (w.jar b) before id₀ in
          let set_now : set_all (w.jar b) cookies ≡ some id = rw (jar v, own) at e in
          inl (
            (nat_eq_iff v b).0 own,
            cc (subst (λ l. set_all (w.jar b) l ≡ some id) set set_now, last),
          )
      | inr other ↦ inr (rw (jar v, other) at e)
    ]

    Change-IsHonest : Change c named w.st w'.st cookies → IsHonest w'
    Change-IsHonest (keeps same grows clears) = record {
      known = λ v id e. same.issued id ∙ honest.known v id (cleared clears v id e);
      vouched = λ v id u e live.
          carried grows v id u (cleared clears v id e) (sym (same.sessions id) ∙ live);
    }
    Change-IsHonest (ends id₀ sessions issued grows clears) = record {
      known = λ v id e. issued id ∙ honest.known v id (cleared clears v id e);
      vouched = λ v id u e live.
          carried grows v id u (cleared clears v id e) (not_ended id₀ id u (sessions id) live);
    }
    Change-IsHonest (starts id₀ u₀ g₀ before fresh sessions issued grows shown owns set) = record {
      known = λ v id e. issued id ∙ (elim (given id₀ before set v id e) [
        | inl (_, mine) ↦ rw ((eq_iff id id₀).1 mine)
        | inr old ↦ known_too (id == id₀) (honest.known v id old)
      ]);
      vouched = λ v id u e live. elim (given id₀ before set v id e) [
        | inl (own, mine) ↦
            let holds : some u₀ ≡ some u =
              rw ((eq_iff id id₀).1 mine) at (sym (sessions id) ∙ live) in
            subst (λ k. Vouched w' k u) (sym own) (g₀, named_shown g₀ shown, owns ∙ holds)
        | inr old ↦ carried grows v id u old (
            not_started (c.issued w.st) id₀ id u₀ u fresh (honest.known v id old) (sessions id)
              live)
      ];
    }

  module _ (law : IsLawful db c) where
    Step-IsHonest : {w w' : World db} → Step db w w' → IsHonest w → IsHonest w'
    Step-IsHonest {w} {w'} (visits b pages github route provider code res served jar presented)
          honest =
        let named = named_of (identify github code) in
        let allowed =
          serve-Allowed c law pages github route (request db w b route provider code) w.st in
        Change-IsHonest w w' b named res.set_cookies jar presented honest
          (subst (λ r. Allowed c named w.st r) served allowed)
    Step-IsHonest {w} {w'} (expires b same jar presented) honest =
        let kept = λ (v : ℕ) (id : String) (e : w'.jar v ≡ some id).
          expired w.jar b v id (sym (jar v) ∙ e) in
        record {
          known = λ v id e. ap (λ s. c.issued s id) same ∙ honest.known v id (kept v id e);
          vouched = λ v id u e live.
              let (g, shown, owns) =
                honest.vouched v id u (kept v id e) (ap (λ s. c.sessions s id) (sym same) ∙ live) in
              (g, rw (presented v) shown, ap (λ s. c.users s g) same ∙ owns);
        }

    Reach-IsHonest : {w w' : World db} → Reach db w w' → IsHonest w → IsHonest w'
    Reach-IsHonest here honest = honest
    Reach-IsHonest (next r step) honest = Step-IsHonest step (Reach-IsHonest r honest)

    -- Whatever browsers ask for, in whichever order, and whatever GitHub answers: if, starting
    -- with no cookies, a browser comes to hold the cookie of a session, then the session's user is
    -- that of a GitHub account that GitHub named for a code which this browser has sent.
    pub signed_in_user :
        {w w' : World db} (b : ℕ) (id : String) (u : ℤ)
        → ((v : ℕ) → w.jar v ≡ none)
        → Reach db w w'
        → w'.jar b ≡ some id
        → c.sessions w'.st id ≡ some u
        → (g : ℕ) × (contains (w'.presented b) g ≡ true) × (c.users w'.st g ≡ some u)
    signed_in_user {w} {w'} b id u empty r held live =
        let start : IsHonest w = record {
          known = λ v i e. cc (empty v, e);
          vouched = λ v i x e l. absurd (cc (empty v, e));
        } in
        IsHonest.vouched (Reach-IsHonest r start) b id u held live
