-- ===== src/UrlValidation/Ipv4.antt =====
-- IPv4 addresses: the checks on the first two numbers against the address blocks that they stand for.
use gpg_signing_service.Common.{
  ℕ, ◌+◌, ◌*◌, ◌/◌, ◌≤◌, String, ◌≡◌, refl, Bool, false, Option, none, some, List, [], ◌∷◌, map,
  eqb, arith, ◌&&◌, not, any, split,
}
use gpg_signing_service.Common.Result.{is_returned}
use gpg_signing_service.UrlValidation.{
  check_ranges, validate_parts, validate_ipv4, to_number, is_bad_octet,
}

-- A block of addresses: those that agree with the base in all but the low bits. The second number
-- is two to the power of the count of low bits.
abbrev pub in_block : ℕ × ℕ → ℕ → Bool
in_block (base, low) address = eqb (address / low) (base / low)

-- The address as a 32-bit number.
abbrev pub address_of : ℕ → ℕ → ℕ → ℕ → ℕ
address_of a b c d = a * 16777216 + b * 65536 + c * 256 + d

-- The blocks that the comments of the source name, as 32-bit bases: 10/8, 172.16/12, 192.168/16,
-- 127/8, 169.254/16, 0/8, 224/4 and 240/4.
abbrev pub forbidden_blocks : List (ℕ × ℕ)
forbidden_blocks =
    (0x0a000000, 0x1000000)
    ∷ (0xac100000, 0x100000)
    ∷ (0xc0a80000, 0x10000)
    ∷ (0x7f000000, 0x1000000)
    ∷ (0xa9fe0000, 0x10000)
    ∷ (0, 0x1000000)
    ∷ (0xe0000000, 0x10000000)
    ∷ (0xf0000000, 0x10000000)
    ∷ []

abbrev pub is_forbidden : ℕ → Bool
is_forbidden address = any (λ block. in_block block address) forbidden_blocks

-- The tests on the first two octets decide whether the address lies in one of the blocks.
pub check_ranges-blocks :
    (a b c d : ℕ)
    → a ≤ 255
    → b ≤ 255
    → c ≤ 255
    → d ≤ 255
    → is_returned (check_ranges a b) ≡ not (is_forbidden (address_of a b c d))
unfolding check_ranges
check_ranges-blocks a b c d ha hb hc hd = ground arith

-- The verdict on four numbers: in range, and in none of the blocks.
abbrev pub accepts : List (Option ℕ) → Bool
accepts (some a ∷ some b ∷ some c ∷ some d ∷ []) =
    not (any is_bad_octet (some a ∷ some b ∷ some c ∷ some d ∷ []))
    && not (is_forbidden (address_of a b c d))
accepts _ = false

pub validate_parts-accepts :
    (parts : List (Option ℕ)) → is_returned (validate_parts parts) ≡ accepts parts
unfolding validate_parts
validate_parts-accepts (some a ∷ some b ∷ some c ∷ some d ∷ []) =
    ground (arith, check_ranges-blocks a b c d)
validate_parts-accepts (some a ∷ some b ∷ some c ∷ none ∷ []) = ground arith
validate_parts-accepts (some a ∷ some b ∷ none ∷ d ∷ []) = ground arith
validate_parts-accepts _ = refl

-- A dotted address is accepted exactly if it has four parts, each a number of at most 255, and
-- as a 32-bit number it lies in none of the private, loopback, link-local, current-network,
-- multicast and reserved blocks.
pub validate_ipv4-accepts :
    (ip : String) → is_returned (validate_ipv4 ip) ≡ accepts (map to_number (split b'.' ip))
unfolding validate_ipv4
validate_ipv4-accepts ip = validate_parts-accepts (map to_number (split b'.' ip))
