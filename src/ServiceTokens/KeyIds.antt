-- ===== src/ServiceTokens/KeyIds.antt =====
-- The allowlist of a token through the comma-separated column `key_ids`.
use text.Mathlib.TextLemmas.{nil-append, cons-append, append_assoc}
use gpg_signing_service.Common.{
  ℕ, code, String, ◌≡◌, refl, ap, ◌∙◌, true, false, List, [], ◌∷◌, map, arith, split, join, trim,
  keep, truthy, all_chars, All, ◌+s◌, eqb, is_space, not, trim_of_no_space,
}
use gpg_signing_service.Keys.{is_hex, is_hex_of}
use gpg_signing_service.ServiceTokens.{parse_key_ids, some_if_any}

-- A key id as the schema of the request admits it, in either case of letters.
abbrev pub IsKeyId : String → Type 0
IsKeyId s = is_hex_of 16 s ≡ true

abbrev IsHex : String → Type 0
IsHex s = all_chars is_hex s ≡ true

hex-not-comma : (c : ℕ) → is_hex c ≡ true → eqb c b',' ≡ false
hex-not-comma c h = ground arith

hex-not-space : (c : ℕ) → is_hex c ≡ true → is_space c ≡ false
hex-not-space c h = ground arith

split-hex : (s : String) → IsHex s → split b',' s ≡ s ∷ []
unfolding split
split-hex String.[] h = refl
split-hex (String.◌∷◌ c s) h = ground (arith, hex-not-comma (code c), split-hex s)

split-hex_comma : (s t : String) → IsHex s → split b',' (s +s ("," +s t)) ≡ s ∷ split b',' t
unfolding split
split-hex_comma String.[] t h = rw (nil-append, cons-append, nil-append)
split-hex_comma (String.◌∷◌ c s) t h =
    rw cons-append (ground (arith, hex-not-comma (code c), split-hex_comma s t))

hex-plain : (s : String) → IsHex s → all_chars (λ c. not (is_space c)) s ≡ true
hex-plain String.[] h = refl
hex-plain (String.◌∷◌ c s) h =
    rw (hex-not-space (code c) (ground arith)) (hex-plain s (ground arith))

trim-hex : (s : String) → IsHex s → trim s ≡ s
trim-hex s h = trim_of_no_space s (hex-plain s h)

keep-hex : (ids : List String) → All IsKeyId ids → keep truthy (map trim ids) ≡ ids
keep-hex [] h = refl
keep-hex (String.[] ∷ ids) (h, hs) = absurd (cc)
keep-hex (String.◌∷◌ c s ∷ ids) (h, hs) =
    rw (trim-hex (String.◌∷◌ c s) (ground arith)) (ap (List.◌∷◌ (String.◌∷◌ c s)) (keep-hex ids hs))

split-join :
    (id : String) (ids : List String)
    → All IsKeyId (id ∷ ids)
    → split b',' (join "," (id ∷ ids)) ≡ id ∷ ids
unfolding join
split-join id [] h = split-hex id (ground arith)
split-join id (next ∷ ids) (h, hs) = rw (
  append_assoc,
  split-hex_comma id (join "," (next ∷ ids)) (ground arith),
  split-join next ids hs,
)

-- The allowlist that a token is minted with is the one that its policy has: the same key ids in the
-- same order, and no restriction for the empty list.
pub parse_key_ids-join :
    (ids : List String) → All IsKeyId ids → parse_key_ids (join "," ids) ≡ some_if_any ids
unfolding parse_key_ids join
parse_key_ids-join [] h = refl
parse_key_ids-join (id ∷ ids) h =
    ap (λ (parts : List String). some_if_any (keep truthy (map trim parts))) (split-join id ids h)
    ∙ ap some_if_any (keep-hex (id ∷ ids) h)
