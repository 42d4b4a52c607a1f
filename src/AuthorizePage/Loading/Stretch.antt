-- ===== src/AuthorizePage/Loading/Stretch.antt =====
-- What one stretch of a reading does to the page.
use adscope_identity.Prelude.{
  ℕ, ◌+◌, ◌<◌, eqb, String, true, false, ◌≡◌, refl, sym, ◌∙◌, ◌⊎◌, inl, inr, Bool-cases, arith,
  none, subst,
}
use adscope_identity.AuthorizePage.{Page, OidcAuthorizationContext}
use adscope_identity.AuthorizePage.Programs.{begin, if_latest, fail_with, show, stop_loading}
use adscope_identity.AuthorizePage.Loading.{unit_if, IsBlank, IsPhase, IsReading}

eqb-eq : (a b : ℕ) → eqb a b ≡ true → a ≡ b
eqb-eq a b h = ground arith

pub eqb_self : (a : ℕ) → eqb a a ≡ true
eqb_self a = ground arith

eqb-ne : (a b : ℕ) → eqb a b ≡ false → a ≡ b → ⊥
eqb-ne a b h e = ground arith

-- What an answer makes of the page before `loading` is reset.
pub record IsAnswer (h : ℕ) (p q : Page) : Type 0 where
  pub same : q.request_generation ≡ p.request_generation
  pub superseded : eqb h p.request_generation ≡ false → q ≡ p
  pub single : IsBlank p → (q.context ≡ none) ⊎ (q.error_message ≡ "")

pub unchanged-IsAnswer : (h : ℕ) (p : Page) → IsAnswer h p p
unchanged-IsAnswer h p = record { same = refl; superseded = λ e. refl; single = λ b. inl b.0 }

pub fail_with-IsAnswer :
    (h : ℕ) (message : String) (p : Page) → IsAnswer h p (if_latest h (fail_with message) p)
fail_with-IsAnswer h message p = elim (Bool-cases (eqb h p.request_generation)) [
  | inl e ↦
      rw e
        (record { same = refl; superseded = λ d. absurd (cc (sym d ∙ e)); single = λ b. inl b.0 })
  | inr e ↦ rw e (unchanged-IsAnswer h p)
]

pub show-IsAnswer :
    (h : ℕ) (context : OidcAuthorizationContext) (p : Page)
    → IsAnswer h p (if_latest h (show context) p)
show-IsAnswer h context p = elim (Bool-cases (eqb h p.request_generation)) [
  | inl e ↦
      rw e
        (record { same = refl; superseded = λ d. absurd (cc (sym d ∙ e)); single = λ b. inr b.1 })
  | inr e ↦ rw e (unchanged-IsAnswer h p)
]

module _ (g h d : ℕ) (p q : Page) (a : IsAnswer h p q)
    (i : IsReading g (d + unit_if (eqb h g)) p) where
  -- A later generation has begun.
  stopped_late : eqb h p.request_generation ≡ false → IsReading g d q
  stopped_late e = rw (a.superseded e) (record {
    fresh = λ l. omega (arith, i.fresh l);
    latest = λ eq.
        let other : eqb h g ≡ false = subst (λ x. eqb h x ≡ false) eq e in
        subst (λ n. IsPhase n p) (rw other (omega arith)) (i.latest eq);
  })

  stopped-IsPhase : IsPhase (d + 1) p → IsPhase d (stop_loading q)
  stopped-IsPhase (inl (loads, blank, one)) = inr (refl, omega (arith, one), a.single blank)
  stopped-IsPhase (inr (done, none_left, shown)) = absurd (omega (arith, none_left))

  stopped_latest : eqb h p.request_generation ≡ true → IsReading g d (stop_loading q)
  stopped_latest e = record {
    fresh = λ l. let z = i.fresh (subst (λ x. x < g) a.same l) in omega (arith, z);
    latest = λ eq.
        let was : p.request_generation ≡ g = sym a.same ∙ eq in
        let own : eqb h g ≡ true = subst (λ x. eqb h x ≡ true) was e in
        stopped-IsPhase (subst (λ n. IsPhase n p) (rw own refl) (i.latest was));
  }

  pub stop-IsReading : IsReading g d (if_latest h stop_loading q)
  stop-IsReading = elim (Bool-cases (eqb h q.request_generation)) [
    | inl e ↦ rw e (stopped_latest (subst (λ x. eqb h x ≡ true) a.same e))
    | inr e ↦ rw e (stopped_late (subst (λ x. eqb h x ≡ false) a.same e))
  ]

-- A new generation has its first call in flight.
pub begin-IsReading :
    (g b : ℕ) (p : Page)
    → IsReading g b p
    → IsReading g (b + unit_if (eqb (p.request_generation + 1) g)) (begin p)
begin-IsReading g b p i = record {
  fresh = λ l. let z = i.fresh (omega (arith, l)) in ground (arith, z, l);
  latest =
      λ e. inl (refl, (refl, refl), (let z = i.fresh (omega (arith, e)) in ground (arith, z, e)));
}
