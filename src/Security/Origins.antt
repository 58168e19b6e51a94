-- ===== src/Security/Origins.antt =====
-- Which origins the CORS middleware allows.
use mathlib.Core.Path.{subst}
use gpg_signing_service.Common.{
  sym, ◌∙◌, inl, inr, Bool-cases, String, ◌≡◌, ◌↔◌, refl, Bool, true, false, Option, none, some,
  List, [], ◌∷◌, ◌||◌, ◌==◌, arith, includes, if◌then◌else◌,
}
use gpg_signing_service.Security.{
  Cors, preflight, continued, allowed_origins, is_empty, has_origin, production_cors,
}

-- The origin that an answer allows.
abbrev pub allowed_by : Cors → Option String
allowed_by (preflight o) = o
allowed_by (continued o) = o

abbrev pub is_unrestricted : List String → Bool
is_unrestricted [] = true
is_unrestricted (_ ∷ _) = false

abbrev answer : List String → String → Option String
answer origins origin =
    if is_empty origins || has_origin origins (some origin) then some origin else none

answer_to :
    (origins : List String) (origin o : String)
    → answer origins origin ≡ some o
    → (some origin ≡ some o) × (is_unrestricted origins || includes origins o ≡ true)
answer_to [] origin o h = (h, refl)
answer_to (p ∷ ps) origin o h = elim (Bool-cases (includes (p ∷ ps) origin)) [
  | inl listed ↦
      let same : some origin ≡ some o = sym (rw listed refl) ∙ h in
      (same, subst (λ x. includes (p ∷ ps) x ≡ true) (ground (arith, same)) listed)
  | inr unlisted ↦ absurd (ground (arith, h, unlisted))
]

answer_from :
    (origins : List String) (origin o : String)
    → some origin ≡ some o
    → is_unrestricted origins || includes origins o ≡ true
    → answer origins origin ≡ some o
answer_from [] origin o e h = e
answer_from (p ∷ ps) origin o e h =
    let same : o ≡ origin = ground (arith, e) in
    rw (subst (λ x. includes (p ∷ ps) x ≡ true) same h) e

allowed_by-answer :
    (setting : Option String) (method origin : String)
    → allowed_by (production_cors setting method (some origin))
      ≡ answer (allowed_origins setting) origin
unfolding production_cors
allowed_by-answer setting method origin = elim (Bool-cases (method == "OPTIONS")) [
  | inl options ↦ rw (options, production_cors) refl
  | inr other ↦ rw (other, production_cors) refl
]

-- Whatever the method, an answer allows an origin exactly if it is the one that the request names, and
-- either no origins are configured or it is one of those that are.
pub allowed_by-production_cors :
    (setting : Option String) (method : String) (origin : Option String) (o : String)
    → (allowed_by (production_cors setting method origin) ≡ some o) ↔ (
        (origin ≡ some o)
        × (is_unrestricted (allowed_origins setting) || includes (allowed_origins setting) o
            ≡ true))
unfolding production_cors
allowed_by-production_cors setting method none o =
    (λ h. absurd (ground (arith, h)), λ (e, h). absurd (cc))
allowed_by-production_cors setting method (some origin) o =
    let same = allowed_by-answer setting method origin in
    (
      λ h. answer_to (allowed_origins setting) origin o (sym same ∙ h),
      λ (e, h). same ∙ answer_from (allowed_origins setting) origin o e h,
    )
