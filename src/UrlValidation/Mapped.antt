-- ===== src/UrlValidation/Mapped.antt =====
-- IPv6 addresses that begin with zeros: those that embed an IPv4 address after ffff, which are
-- judged as that address, and those that embed one after zeros only.
use gpg_signing_service.Common.{
  ℕ, ◌+◌, ◌*◌, ◌≤◌, Char, code, String, ◌≡◌, refl, ap, ◌∙◌, Bool, true, false, Option, some, List,
  [], ◌∷◌, arith, ◌&&◌, not, any, eqb, Bool-cases, inl, inr, starts_with, skip, ◌==◌, eq_iff,
  if◌then◌else◌,
}
use gpg_signing_service.Common.Result.{returns, is_returned}
use gpg_signing_service.UrlValidation.{
  is_bad_octet, check_ipv6, validate_embedded, parse_hex, validate_parts,
}
use gpg_signing_service.UrlValidation.Ipv4.{
  accepts, is_forbidden, address_of, validate_parts-accepts,
}
use gpg_signing_service.UrlValidation.Ipv6.{IsHexDigit, group_value, digit_bound}

abbrev pub mapped_prefix : String
mapped_prefix = "0000:0000:0000:0000:0000:ffff:"

-- The six zero groups of the addresses that the standard calls IPv4-compatible.
abbrev pub compatible_prefix : String
compatible_prefix = "0000:0000:0000:0000:0000:0000:"

abbrev pub loopback : String
loopback = "0000:0000:0000:0000:0000:0000:0000:0001"

not_letter :
    (n p : String) → starts_with n "0" ≡ true → starts_with p "f" ≡ true → starts_with n p ≡ false
unfolding starts_with
not_letter String.[] String.[] h k = cc
not_letter String.[] (String.◌∷◌ d p) h k = refl
not_letter (String.◌∷◌ c s) String.[] h k = cc
not_letter (String.◌∷◌ c s) (String.◌∷◌ d p) h k = ground arith

-- The tests on letters pass an address that begins with zeros.
module _ (n : String) (z : starts_with n "0" ≡ true) where
  check_ipv6_of_zero :
      (n == loopback) ≡ false
      → check_ipv6 n
        ≡ (if starts_with n mapped_prefix then validate_embedded (skip 30 n) else returns tt)
  unfolding check_ipv6
  check_ipv6_of_zero e = rw (
    e,
    not_letter n "fc" z refl,
    not_letter n "fd" z refl,
    not_letter n "fe8" z refl,
    not_letter n "fe9" z refl,
    not_letter n "fea" z refl,
    not_letter n "feb" z refl,
    not_letter n "ff" z refl,
  )

-- A text with the prefix that another text lacks is not that text.
ne_of_prefix :
    (n m p : String) → starts_with n p ≡ true → starts_with m p ≡ false → (n == m) ≡ false
ne_of_prefix n m p h k =
    ground (arith, eq_iff n m, ap (λ (s : String). starts_with s p) {x = n} {y = m})

zero_of_mapped : (n : String) → starts_with n mapped_prefix ≡ true → starts_with n "0" ≡ true
unfolding starts_with
zero_of_mapped String.[] h = cc
zero_of_mapped (String.◌∷◌ c s) h = ground arith

zero_of_compatible :
    (n : String) → starts_with n compatible_prefix ≡ true → starts_with n "0" ≡ true
unfolding starts_with
zero_of_compatible String.[] h = cc
zero_of_compatible (String.◌∷◌ c s) h = ground arith

accepts_of_octets :
    (a b c d : ℕ)
    → a ≤ 255
    → b ≤ 255
    → c ≤ 255
    → d ≤ 255
    → accepts (some a ∷ some b ∷ some c ∷ some d ∷ []) ≡ not (is_forbidden (address_of a b c d))
accepts_of_octets a b c d ha hb hc hd =
    let fits : any is_bad_octet (some a ∷ some b ∷ some c ∷ some d ∷ []) ≡ false = ground arith in
    ap (λ t. not t && not (is_forbidden (address_of a b c d))) fits

embedded_parts : (a b c d e f g h : ℕ) → List (Option ℕ)
embedded_parts a b c d e f g h =
    some (a * 16 + b) ∷ some (c * 16 + d) ∷ some (e * 16 + f) ∷ some (g * 16 + h) ∷ []

accepts-embedded :
    (a b c d e f g h : ℕ)
    → a ≤ 15
    → b ≤ 15
    → c ≤ 15
    → d ≤ 15
    → e ≤ 15
    → f ≤ 15
    → g ≤ 15
    → h ≤ 15
    → accepts (embedded_parts a b c d e f g h)
      ≡ not (is_forbidden (group_value a b c d * 65536 + group_value e f g h))
unfolding embedded_parts
accepts-embedded a b c d e f g h ha hb hc hd he hf hg hh =
    accepts_of_octets (a * 16 + b) (c * 16 + d) (e * 16 + f) (g * 16 + h) (omega arith)
      (omega arith) (omega arith) (omega arith)
    ∙ ap (λ n. not (is_forbidden n))
        {x = address_of (a * 16 + b) (c * 16 + d) (e * 16 + f) (g * 16 + h)}
        {y = group_value a b c d * 65536 + group_value e f g h} (omega arith)

parse_hex_lem :
    (c d : Char) (v w : ℕ)
    → IsHexDigit c v
    → IsHexDigit d w
    → parse_hex (String.◌∷◌ c (String.◌∷◌ d "")) ≡ some (v * 16 + w)
unfolding parse_hex
parse_hex_lem c d v w h k = ground arith

module _ (c₁ c₂ c₃ c₄ sep d₁ d₂ d₃ d₄ : Char) (a b c d e f g h : ℕ) where
  abbrev last_groups : String
  last_groups = String.◌∷◌ c₁ (
      String.◌∷◌ c₂ (
        String.◌∷◌ c₃ (
          String.◌∷◌ c₄
            (String.◌∷◌ sep (String.◌∷◌ d₁ (String.◌∷◌ d₂ (String.◌∷◌ d₃ (String.◌∷◌ d₄ ""))))))))

  -- An address that embeds an IPv4 address after ffff is refused exactly if the embedded address,
  -- as a 32-bit number, lies in one of the forbidden IPv4 blocks.
  pub check_ipv6-mapped :
      (n : String)
      → starts_with n mapped_prefix ≡ true
      → skip 30 n ≡ last_groups
      → IsHexDigit c₁ a
      → IsHexDigit c₂ b
      → IsHexDigit c₃ c
      → IsHexDigit c₄ d
      → IsHexDigit d₁ e
      → IsHexDigit d₂ f
      → IsHexDigit d₃ g
      → IsHexDigit d₄ h
      → is_returned (check_ipv6 n)
        ≡ not (is_forbidden (group_value a b c d * 65536 + group_value e f g h))
  unfolding validate_embedded embedded_parts starts_with
  check_ipv6-mapped n p tail h₁ h₂ h₃ h₄ k₁ k₂ k₃ k₄ =
      let whole : check_ipv6 n ≡ validate_embedded (skip 30 n) =
        check_ipv6_of_zero n (zero_of_mapped n p) (ne_of_prefix n loopback mapped_prefix p refl)
        ∙ rw p in
      let parts : validate_embedded last_groups ≡ validate_parts (embedded_parts a b c d e f g h) =
        λ i. validate_parts (
          parse_hex_lem c₁ c₂ a b h₁ h₂ i
          ∷ parse_hex_lem c₃ c₄ c d h₃ h₄ i
          ∷ parse_hex_lem d₁ d₂ e f k₁ k₂ i
          ∷ parse_hex_lem d₃ d₄ g h k₃ k₄ i
          ∷ []) in
      ap is_returned whole
      ∙ ap (λ t. is_returned (validate_embedded t)) tail
      ∙ ap is_returned parts
      ∙ validate_parts-accepts (embedded_parts a b c d e f g h)
      ∙ accepts-embedded a b c d e f g h (digit_bound c₁ a h₁) (digit_bound c₂ b h₂)
          (digit_bound c₃ c h₃) (digit_bound c₄ d h₄) (digit_bound d₁ e k₁) (digit_bound d₂ f k₂)
          (digit_bound d₃ g k₃) (digit_bound d₄ h k₄)

-- Whether two prefixes can stand before one text.
agree : String → String → Bool
agree (String.◌∷◌ d p) (String.◌∷◌ e q) = if eqb (code d) (code e) then agree p q else false
agree _ _ = true

starts_with-agree :
    (n p q : String) → starts_with n p ≡ true → starts_with n q ≡ true → agree p q ≡ true
unfolding starts_with agree
starts_with-agree n String.[] q h k = refl
starts_with-agree n (String.◌∷◌ d p) String.[] h k = refl
starts_with-agree String.[] (String.◌∷◌ d p) (String.◌∷◌ e q) h k = cc
starts_with-agree (String.◌∷◌ c n) (String.◌∷◌ d p) (String.◌∷◌ e q) h k =
    ground (arith, starts_with-agree n p q)

-- An address that embeds an IPv4 address after zeros only is accepted, whichever address it embeds,
-- unless it is ::1 itself; so is the unspecified address, all zeros.
pub check_ipv6-compatible :
    (n : String)
    → starts_with n compatible_prefix ≡ true
    → is_returned (check_ipv6 n) ≡ not (n == loopback)
unfolding check_ipv6 agree
check_ipv6-compatible n h = elim (Bool-cases (n == loopback)) [
  | inl same ↦ rw same
  | inr other ↦
      let plain : starts_with n mapped_prefix ≡ false =
        ground (arith, starts_with-agree n compatible_prefix mapped_prefix h) in
      ap is_returned (check_ipv6_of_zero n (zero_of_compatible n h) other) ∙ rw (plain, other)
]
