-- ===== src/UrlValidation.antt =====
-- utils/url-validation.ts: which URLs the service may fetch from.
-- The parser of URLs (`new URL`) is the platform's: `parse_url` gives the protocol and the host name,
-- or `none` where it throws.
pub mod Ipv4
pub mod Ipv6
pub mod Mapped
mod Tests
use gpg_signing_service.Common.{
  ℕ, zero, suc, ◌+◌, ◌-◌, ◌*◌, code, String, Bool, true, false, Option, none, some, List, [], ◌∷◌,
  map, ◌++◌, eqb, leb, ltb, ◌&&◌, ◌||◌, not, ◌==◌, if◌then◌else◌, length, any, all, starts_with,
  ends_with, split, join, skip, all_chars, size, ◌+s◌,
}
use gpg_signing_service.Common.Result.{Result, returns, throws, throw_if, ◌>>=◌, ◌>>◌}

pub record Url : Type 0 where
  pub protocol : String
  pub hostname : String

-- \d and [0-9a-fA-F:]
abbrev pub is_digit : ℕ → Bool
is_digit c = leb b'0' c && leb c b'9'

abbrev is_ipv6_char : ℕ → Bool
is_ipv6_char c =
    is_digit c || (leb b'a' c && leb c b'f' || (leb b'A' c && leb c b'F' || eqb c b':'))

abbrev is_short_number : String → Bool
is_short_number s = leb 1 (size s) && (leb (size s) 3 && all_chars is_digit s)

-- /^(\d{1,3}\.){3}\d{1,3}$/
unfoldable pub matches_ipv4 : String → Bool
unfolding split
matches_ipv4 h = let parts = split b'.' h in eqb (length parts) 4 && all is_short_number parts

-- `Number` of the texts that it is applied to here, which are digits or "NaN"
number_from : ℕ → String → Option ℕ
number_from n String.[] = some n
number_from n (String.◌∷◌ c s) =
    if is_digit (code c) then number_from (n * 10 + (code c - b'0')) s else none

unfoldable pub to_number : String → Option ℕ
unfolding number_from
to_number s = number_from 0 s

-- NaN, or more than 255
abbrev pub is_bad_octet : Option ℕ → Bool
is_bad_octet none = true
is_bad_octet (some n) = ltb 255 n

unfoldable pub check_ranges : ℕ → ℕ → Result (Unit {0})
check_ranges a b = do
  throw_if (eqb a 10) "Access to private IP range 10.0.0.0/8 is forbidden"
  throw_if (eqb a 172 && (leb 16 b && leb b 31))
      "Access to private IP range 172.16.0.0/12 is forbidden"
  throw_if (eqb a 192 && eqb b 168) "Access to private IP range 192.168.0.0/16 is forbidden"
  throw_if (eqb a 127) "Access to localhost 127.0.0.0/8 is forbidden"
  throw_if (eqb a 169 && eqb b 254) "Access to link-local range 169.254.0.0/16 is forbidden"
  throw_if (eqb a 0) "Access to 0.0.0.0/8 is forbidden"
  throw_if (leb 224 a && leb a 239) "Access to multicast range is forbidden"
  throw_if (leb 240 a) "Access to reserved IP range is forbidden"

-- `validateIPv4`, after the split into numbers
unfoldable pub validate_parts : List (Option ℕ) → Result (Unit {0})
validate_parts (some a ∷ some b ∷ c ∷ d ∷ []) =
    if any is_bad_octet (some a ∷ some b ∷ c ∷ d ∷ [])
    then throws "Invalid IPv4 address"
    else check_ranges a b
validate_parts _ = throws "Invalid IPv4 address"

unfoldable pub validate_ipv4 : String → Result (Unit {0})
unfolding split to_number validate_parts
validate_ipv4 ip = validate_parts (map to_number (split b'.' ip))

-- `ip.split("::")`
split_pairs : String → List String
split_pairs String.[] = "" ∷ []
split_pairs (String.◌∷◌ c String.[]) = String.◌∷◌ c "" ∷ []
split_pairs (String.◌∷◌ c (String.◌∷◌ d s)) =
    let cut = "" ∷ split_pairs s in
    let on = split_pairs (String.◌∷◌ d s) in
    if eqb (code c) b':' && eqb (code d) b':'
    then cut
    else elim on [ [] ↦ [] | p ∷ ps ↦ String.◌∷◌ c p ∷ ps ]

zeros : ℕ → String
zeros zero = ""
zeros (suc n) = "0" +s zeros n

-- `p.padStart(4, "0")`
abbrev pad_start : String → String
pad_start p = zeros (4 - size p) +s p

abbrev groups : String → List String
groups s = if s == "" then [] else split b':' s

repeat_group : ℕ → List String
repeat_group zero = []
repeat_group (suc n) = "0000" ∷ repeat_group n

-- `Array(missing)` throws a RangeError if `missing` is negative.
unfoldable pub expand : List String → List String → Result (List String)
unfolding repeat_group
expand left right =
    if ltb 8 (length left + length right)
    then throws "Invalid array length"
    else returns (left ++ (repeat_group (8 - length left - length right) ++ right))

abbrev normalize_parts : String → List String → Result String
normalize_parts ip (left ∷ right ∷ []) = do
  all_groups ← expand (groups left) (groups right)
  returns (join ":" (map pad_start all_groups))
normalize_parts ip _ = returns (join ":" (map pad_start (split b':' ip)))

unfoldable pub normalize_ipv6 : String → Result String
unfolding split_pairs zeros split join expand
normalize_ipv6 ip = normalize_parts ip (split_pairs ip)

-- `s.slice(i, i + 2)`
abbrev first_two : String → String
first_two String.[] = ""
first_two (String.◌∷◌ c String.[]) = String.◌∷◌ c ""
first_two (String.◌∷◌ c (String.◌∷◌ d s)) = String.◌∷◌ c (String.◌∷◌ d "")

abbrev pub hex_digit : ℕ → Option ℕ
hex_digit c =
    if is_digit c
    then some (c - b'0')
    else if leb b'a' c && leb c b'f'
    then some (c - 87)
    else if leb b'A' c && leb c b'F'
    then some (c - 55)
    else none

-- `parseInt(hex, 16)` of at most two characters: the digits up to the first other character
unfoldable pub parse_hex : String → Option ℕ
parse_hex String.[] = none
parse_hex (String.◌∷◌ c String.[]) = hex_digit (code c)
parse_hex (String.◌∷◌ c (String.◌∷◌ d s)) = elim (hex_digit (code c)) [
  | none ↦ none
  | some h ↦ elim (hex_digit (code d)) [ none ↦ some h | some l ↦ some (h * 16 + l) ]
]

-- The embedded address. The source joins the four numbers with dots and splits them again, which
-- gives the numbers back, NaN for NaN.
unfoldable pub validate_embedded : String → Result (Unit {0})
unfolding skip parse_hex validate_parts
validate_embedded part =
    validate_parts (map (λ i. parse_hex (first_two (skip i part))) (0 ∷ 2 ∷ 5 ∷ 7 ∷ []))

unfoldable pub check_ipv6 : String → Result (Unit {0})
unfolding starts_with skip validate_embedded
check_ipv6 normalized = do
  throw_if (normalized == "0000:0000:0000:0000:0000:0000:0000:0001")
      "Access to IPv6 localhost ::1 is forbidden"
  throw_if (starts_with normalized "fc" || starts_with normalized "fd")
      "Access to IPv6 private range fc00::/7 is forbidden"
  throw_if
      (starts_with normalized "fe8"
        || (starts_with normalized "fe9"
            || (starts_with normalized "fea" || starts_with normalized "feb")))
      "Access to IPv6 link-local range fe80::/10 is forbidden"
  throw_if (starts_with normalized "ff") "Access to IPv6 multicast range is forbidden"
  if starts_with normalized "0000:0000:0000:0000:0000:ffff:"
      then validate_embedded (skip 30 normalized)
      else returns tt

unfoldable pub validate_ipv6 : String → Result (Unit {0})
unfolding normalize_ipv6 check_ipv6
validate_ipv6 ip = do normalized ← normalize_ipv6 ip; check_ipv6 normalized

-- /^\[?([0-9a-fA-F:]+)]?$/
drop_open : String → String
drop_open String.[] = ""
drop_open (String.◌∷◌ c s) = if eqb (code c) b'[' then s else String.◌∷◌ c s

drop_close : String → String
drop_close String.[] = ""
drop_close (String.◌∷◌ c s) =
    if s == "" && eqb (code c) b']' then "" else String.◌∷◌ c (drop_close s)

unfoldable pub matches_ipv6 : String → Bool
unfolding drop_open drop_close
matches_ipv6 h =
    let inner = drop_close (drop_open h) in leb 1 (size inner) && all_chars is_ipv6_char inner

-- `hostname.replace(/[[\]]/g, "")`
unfoldable pub without_brackets : String → String
without_brackets String.[] = ""
without_brackets (String.◌∷◌ c s) =
    if eqb (code c) b'[' || eqb (code c) b']'
    then without_brackets s
    else String.◌∷◌ c (without_brackets s)

unfoldable pub validate_host : String → Result (Unit {0})
unfolding matches_ipv4 matches_ipv6 validate_ipv4 validate_ipv6 without_brackets ends_with
validate_host h = do
  throw_if
      (h == "169.254.169.254"
        || (h == "metadata.google.internal" || ends_with h ".metadata.google.internal"))
      "Access to cloud metadata endpoints is forbidden"
  if matches_ipv4 h
      then validate_ipv4 h
      else if matches_ipv6 h
      then validate_ipv6 (without_brackets h)
      else returns tt

unfoldable pub validate_url : (parse_url : String → Option Url) → String → Result (Unit {0})
unfolding validate_host
validate_url parse_url url = elim (parse_url url) [
  | none ↦ throws "Invalid URL format"
  | some u ↦ do
    throw_if (not (u.protocol == "https:")) "Only HTTPS URLs are allowed"
    validate_host u.hostname
]
