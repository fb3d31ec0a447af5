-- ===== src/Probe/Direction.antt =====
-- internal/probe/probe.go: what `classifyCanonical` and `classifyTerminal` decide.
use www_scanner.Prelude.{
  ◌≡◌, ◌≢◌, ◌↔◌, refl, sym, ap, true, false, length, Text, eq_text, eq_text_iff, arith,
}
use www_scanner.Record.{Side}
use www_scanner.Record.Canonical
use www_scanner.Probe.Classify.{www_of, serves_ok, classify_canonical}

pub www_of-ne : (domain : Text) → www_of domain ≢ domain
unfolding www_of
www_of-ne domain h = omega (arith, ap length h)

eq_text_refl : (a : Text) → eq_text a a ≡ true
eq_text_refl a = (eq_text_iff a a).1 refl

eq_text_ne : (a b : Text) → a ≢ b → eq_text a b ≡ false
eq_text_ne a b h = ground (arith, eq_text_iff a b)

-- Which of the two names serve decides the first three classes, and only them: both fail, only the
-- apex serves, only www serves.
pub classify_canonical_one_side :
    (apex www : Side) (apex_term www_term domain : Text)
    → let c = classify_canonical apex www apex_term www_term domain in
      ((c ≡ Canonical.both_fail) ↔ ((serves_ok apex ≡ false) × (serves_ok www ≡ false)))
      × ((c ≡ Canonical.apex_only) ↔ ((serves_ok apex ≡ true) × (serves_ok www ≡ false)))
      × ((c ≡ Canonical.www_only) ↔ ((serves_ok apex ≡ false) × (serves_ok www ≡ true)))
unfolding classify_canonical
classify_canonical_one_side apex www apex_term www_term domain = ground arith

module _ (apex www : Side) (domain : Text) (apex_serves : serves_ok apex ≡ true)
    (www_serves : serves_ok www ≡ true) where
  -- If both names serve, www came to rest on the apex host and the apex never moved, the class is
  -- www->apex.
  pub www_to_apex_declared :
      apex.hops ≡ 0 → classify_canonical apex www domain domain domain ≡ Canonical.www_to_apex
  unfolding classify_canonical
  www_to_apex_declared still = ground (
    arith,
    eq_text_refl domain,
    eq_text_ne domain (www_of domain) (λ e. www_of-ne domain (sym e)),
  )

  -- If both names serve, the apex came to rest on the www host and www never moved, the class is
  -- apex->www.
  pub apex_to_www_declared :
      www.hops ≡ 0
      → classify_canonical apex www (www_of domain) (www_of domain) domain ≡ Canonical.apex_to_www
  unfolding classify_canonical
  apex_to_www_declared still =
      ground
        (arith, eq_text_refl (www_of domain), eq_text_ne (www_of domain) domain (www_of-ne domain))

  -- If both names serve and neither moved, no direction is declared.
  pub no_direction_declared :
      apex.hops ≡ 0
      → www.hops ≡ 0
      → classify_canonical apex www domain (www_of domain) domain ≡ Canonical.both_serve
  unfolding classify_canonical
  no_direction_declared a w = ground (
    arith,
    eq_text_refl domain,
    eq_text_refl (www_of domain),
    eq_text_ne (www_of domain) domain (www_of-ne domain),
  )
