-- ===== src/UrlValidation/Ipv6.antt =====
-- IPv6 addresses in the full form that `normalizeIPv6` gives: the tests on its text against the
-- numbers that it stands for.
use gpg_signing_service.Common.{
  ℕ, ◌+◌, ◌*◌, ◌/◌, ◌≤◌, Char, code, String, ◌≡◌, ◌≢◌, ap, Bool, true, false, eqb, arith, ◌||◌, not,
  if◌then◌else◌, ◌⊎◌, starts_with, eq_iff,
}
use gpg_signing_service.Common.Result.{is_returned}
use gpg_signing_service.UrlValidation.{check_ipv6}

-- The character is the lower case hexadecimal digit for the value, as URLs print it.
abbrev pub IsHexDigit : Char → ℕ → Type 0
IsHexDigit c v = ((v ≤ 9) × (code c ≡ 48 + v)) ⊎ ((10 ≤ v) × (v ≤ 15) × (code c ≡ 87 + v))

abbrev pub group_value : ℕ → ℕ → ℕ → ℕ → ℕ
group_value a b c d = a * 4096 + b * 256 + c * 16 + d

-- fc00::/7, fe80::/10 and ff00::/8, by the first sixteen bits
abbrev pub is_forbidden_group : ℕ → Bool
is_forbidden_group v =
    eqb (v / 512) (0xfc00 / 512) || (eqb (v / 64) (0xfe80 / 64) || eqb (v / 256) (0xff00 / 256))

pub digit_bound : (c : Char) (v : ℕ) → IsHexDigit c v → v ≤ 15
digit_bound c v h = omega arith

-- The tests for a letter and for a decimal digit, by the value.
letter_test :
    (c : Char) (v k : ℕ) → IsHexDigit c v → 10 ≤ k → k ≤ 15 → eqb (code c) (87 + k) ≡ eqb v k
letter_test c v k h lo hi = ground arith

decimal_test : (c : Char) (v k : ℕ) → IsHexDigit c v → k ≤ 9 → eqb (code c) (48 + k) ≡ eqb v k
decimal_test c v k h hi = ground arith

both : Bool → Bool → Bool
both x y = if x then (if y then true else false) else false

all_three : Bool → Bool → Bool → Bool
all_three x y z = if x then (if y then (if z then true else false) else false) else false

module _ (a b c d : ℕ) (ha : a ≤ 15) (hb : b ≤ 15) (hc : c ≤ 15) (hd : d ≤ 15) where
  unique_local_digits :
      both (eqb a 15) (eqb b 12) || both (eqb a 15) (eqb b 13)
      ≡ eqb (group_value a b c d / 512) (0xfc00 / 512)
  unfolding both
  unique_local_digits = ground arith

  multicast_digits : both (eqb a 15) (eqb b 15) ≡ eqb (group_value a b c d / 256) (0xff00 / 256)
  unfolding both
  multicast_digits = ground arith

  link_local_digits :
      all_three (eqb a 15) (eqb b 14) (eqb c 8)
        || (all_three (eqb a 15) (eqb b 14) (eqb c 9)
            || (all_three (eqb a 15) (eqb b 14) (eqb c 10)
                || all_three (eqb a 15) (eqb b 14) (eqb c 11)))
      ≡ eqb (group_value a b c d / 64) (0xfe80 / 64)
  unfolding all_three
  link_local_digits = ground arith

module _ (c₁ c₂ c₃ c₄ : Char) (a b c d : ℕ) (rest : String) where
  abbrev first_group : String
  first_group = String.◌∷◌ c₁ (String.◌∷◌ c₂ (String.◌∷◌ c₃ (String.◌∷◌ c₄ rest)))

  -- A zero group is four times the character 0.
  zero_group :
      IsHexDigit c₁ a
      → IsHexDigit c₂ b
      → IsHexDigit c₃ c
      → IsHexDigit c₄ d
      → starts_with first_group "0000" ≡ true
      → group_value a b c d ≡ 0
  unfolding starts_with
  zero_group ha hb hc hd h = ground arith

  starts_with-mapped :
      starts_with first_group "0000:0000:0000:0000:0000:ffff:" ≡ true
      → starts_with first_group "0000" ≡ true
  unfolding starts_with
  starts_with-mapped h = ground arith

  module _ (ha : IsHexDigit c₁ a) (hb : IsHexDigit c₂ b) (hc : IsHexDigit c₃ c)
      (hd : IsHexDigit c₄ d) where
    unique_local_test :
        starts_with first_group "fc" || starts_with first_group "fd"
        ≡ eqb (group_value a b c d / 512) (0xfc00 / 512)
    unfolding starts_with both
    unique_local_test =
        rw
          (
            letter_test c₁ a 15 ha (omega arith) (omega arith),
            letter_test c₂ b 12 hb (omega arith) (omega arith),
            letter_test c₂ b 13 hb (omega arith) (omega arith),
          )
          (unique_local_digits a b c d (digit_bound c₁ a ha) (digit_bound c₂ b hb)
            (digit_bound c₃ c hc) (digit_bound c₄ d hd))

    multicast_test : starts_with first_group "ff" ≡ eqb (group_value a b c d / 256) (0xff00 / 256)
    unfolding starts_with both
    multicast_test =
        rw
          (
            letter_test c₁ a 15 ha (omega arith) (omega arith),
            letter_test c₂ b 15 hb (omega arith) (omega arith),
          )
          (multicast_digits a b c d (digit_bound c₁ a ha) (digit_bound c₂ b hb)
            (digit_bound c₃ c hc) (digit_bound c₄ d hd))

    link_local_test :
        starts_with first_group "fe8"
          || (starts_with first_group "fe9"
              || (starts_with first_group "fea" || starts_with first_group "feb"))
        ≡ eqb (group_value a b c d / 64) (0xfe80 / 64)
    unfolding starts_with all_three
    link_local_test =
        rw
          (
            letter_test c₁ a 15 ha (omega arith) (omega arith),
            letter_test c₂ b 14 hb (omega arith) (omega arith),
            decimal_test c₃ c 8 hc (omega arith),
            decimal_test c₃ c 9 hc (omega arith),
            letter_test c₃ c 10 hc (omega arith) (omega arith),
            letter_test c₃ c 11 hc (omega arith) (omega arith),
          )
          (link_local_digits a b c d (digit_bound c₁ a ha) (digit_bound c₂ b hb)
            (digit_bound c₃ c hc) (digit_bound c₄ d hd))

  -- Beyond the addresses that begin with a zero group, an address is refused exactly if its first
  -- sixteen bits lie in the blocks for unique local, link-local and multicast addresses.
  pub check_ipv6-blocks :
      IsHexDigit c₁ a
      → IsHexDigit c₂ b
      → IsHexDigit c₃ c
      → IsHexDigit c₄ d
      → group_value a b c d ≢ 0
      → is_returned (check_ipv6 first_group) ≡ not (is_forbidden_group (group_value a b c d))
  unfolding check_ipv6
  check_ipv6-blocks ha hb hc hd nonzero = ground (
    arith,
    nonzero,
    zero_group ha hb hc hd,
    starts_with-mapped,
    unique_local_test ha hb hc hd,
    link_local_test ha hb hc hd,
    multicast_test ha hb hc hd,
    eq_iff first_group "0000:0000:0000:0000:0000:0000:0000:0001",
    ap (λ (s : String). starts_with s "0000") {x = first_group}
        {y = "0000:0000:0000:0000:0000:0000:0000:0001"},
  )
