-- ===== src/Auth/Admin.antt =====
-- The comparison of the admin token.
use Prim.Native.Nat.{max}
use gpg_signing_service.Common.{
  ℕ, zero, suc, String, ◌≡◌, ◌↔◌, refl, ap, true, Option, none, some, List, [], ◌∷◌, length, arith,
  starts_with, skip, ◌∙◌, sym, ◌+s◌, starts_with_append, starts_with-append, skip-append, ◌≢◌,
}
use gpg_signing_service.Auth.{Comparison, padded, timing_safe_equal, admin_auth, next}

length-padded : (n : ℕ) (bytes : List ℕ) → length (padded n bytes) ≡ n
unfolding padded
length-padded zero bytes = refl
length-padded (suc n) [] = ap suc (length-padded n [])
length-padded (suc n) (b ∷ bytes) = ap suc (length-padded n bytes)

padded_same : (bytes : List ℕ) (n : ℕ) → n ≡ length bytes → padded n bytes ≡ bytes
unfolding padded
padded_same [] zero e = refl
padded_same [] (suc n) e = absurd (omega arith)
padded_same (b ∷ bytes) zero e = absurd (omega arith)
padded_same (b ∷ bytes) (suc n) e = ap (List.◌∷◌ b) (padded_same bytes n (omega arith))

module _ (c : Comparison) (a b : String) where
  abbrev max_len : ℕ
  max_len = max (length (c.encode a)) (length (c.encode b))

  padded_eq :
      c.equal_bytes (padded max_len (c.encode a)) (padded max_len (c.encode b)) ≡ true
      → padded max_len (c.encode a) ≡ padded max_len (c.encode b)
  padded_eq =
      (c.equal_bytes_iff (padded max_len (c.encode a)) (padded max_len (c.encode b))
        (length-padded max_len (c.encode a) ∙ sym (length-padded max_len (c.encode b)))).0

  bytes_eq : timing_safe_equal c a b ≡ true → c.encode a ≡ c.encode b
  unfolding timing_safe_equal
  bytes_eq h =
      let lengths : length (c.encode a) ≡ length (c.encode b) = ground arith in
      sym (padded_same (c.encode a) max_len (omega arith))
      ∙ padded_eq (ground arith)
      ∙ padded_same (c.encode b) max_len (omega arith)

timing_safe_equal_refl : (c : Comparison) (a : String) → timing_safe_equal c a a ≡ true
unfolding timing_safe_equal
timing_safe_equal_refl c a =
    let bytes = padded (max_len c a a) (c.encode a) in
    ground (arith, (c.equal_bytes_iff bytes bytes refl).1 refl)

-- The constant-time comparison, with its padding, decides the equality of the two texts.
pub timing_safe_equal_iff :
    (c : Comparison) (a b : String) → (timing_safe_equal c a b ≡ true) ↔ (a ≡ b)
timing_safe_equal_iff c a b = (
  λ h. c.encode-injective a b (bytes_eq c a b h),
  λ e. ap (λ (t : String). timing_safe_equal c a t) (sym e) ∙ timing_safe_equal_refl c a,
)

bearer-none : (c : Comparison) (t : String) → admin_auth c t none ≢ next tt
unfolding admin_auth
bearer-none c t e = cc

bearer_token :
    (c : Comparison) (t h : String)
    → admin_auth c t (some h) ≡ next tt
    → some h ≡ some ("Bearer " +s t)
unfolding admin_auth
bearer_token c t h e =
    let prefixed : starts_with h "Bearer " ≡ true = ground arith in
    let equal : timing_safe_equal c (skip 7 h) t ≡ true = ground arith in
    let (rest, shape) = starts_with-append h "Bearer " prefixed in
    let behind : skip 7 h ≡ rest = ap (skip 7) shape ∙ skip-append "Bearer " rest in
    let same : rest ≡ t = sym behind ∙ (timing_safe_equal_iff c (skip 7 h) t).0 equal in
    ap (λ (s : String). some s) (shape ∙ ap (λ (s : String). "Bearer " +s s) same)

accepted : (c : Comparison) (t h : String) → h ≡ "Bearer " +s t → admin_auth c t (some h) ≡ next tt
unfolding admin_auth
accepted c t h e =
    let prefixed : starts_with h "Bearer " ≡ true =
      ap (λ (s : String). starts_with s "Bearer ") e ∙ starts_with_append "Bearer " t in
    let behind : skip 7 h ≡ t = ap (skip 7) e ∙ skip-append "Bearer " t in
    ground (arith, prefixed, (timing_safe_equal_iff c (skip 7 h) t).1 behind)

-- An administrator is let through exactly with the header that bears the admin token.
pub admin_auth_iff :
    (c : Comparison) (admin_token : String) (header : Option String)
    → (admin_auth c admin_token header ≡ next tt) ↔ (header ≡ some ("Bearer " +s admin_token))
admin_auth_iff c admin_token none = (λ e. absurd (bearer-none c admin_token e), λ e. absurd (cc))
admin_auth_iff c admin_token (some h) =
    (bearer_token c admin_token h, λ e. accepted c admin_token h (ground arith))
