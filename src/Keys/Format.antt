-- ===== src/Keys/Format.antt =====
-- Key identifiers are read without regard to case, and made upper case.
use gpg_signing_service.Common.{
  ℕ, suc, ◌-◌, Char, code, String, ◌≡◌, refl, ap, Bool, true, false, arith, ◌&&◌, ltb, eqb,
  all_chars, size, if◌then◌else◌, Bool-cases, inl, inr,
}
use mathlib.Core.Path.{subst}
use gpg_signing_service.Common.Result.{returns, returns-injective}
use gpg_signing_service.Keys.{
  is_hex, is_hex_of, upper_hex, to_upper, create_key_id, create_key_fingerprint,
}

code_if : (b : Bool) (x y : Char) → code (if b then x else y) ≡ (if b then code x else code y)
code_if true x y = refl
code_if false x y = refl

-- The code of the letter that stands for a digit.
upper_code : ℕ → ℕ
upper_code n = if ltb 96 n && ltb n 103 then n - 32 else n

code-upper_hex : (c : Char) → code (upper_hex c) ≡ upper_code (code c)
unfolding upper_hex upper_code
code-upper_hex c =
    rw
      (
        code_if (eqb (code c) 97),
        code_if (eqb (code c) 98),
        code_if (eqb (code c) 99),
        code_if (eqb (code c) 100),
        code_if (eqb (code c) 101),
        code_if (eqb (code c) 102),
        upper_hex,
      )
      (ground arith)

is_hex-upper_hex : (c : Char) → is_hex (code (upper_hex c)) ≡ is_hex (code c)
unfolding upper_code
is_hex-upper_hex c = rw (code-upper_hex c) (ground arith)

-- A character that is none of the letters a to f stays.
upper_hex_same : (c : Char) → (ltb 96 (code c) && ltb (code c) 103) ≡ false → upper_hex c ≡ c
unfolding upper_hex
upper_hex_same c h = ground (arith, h)

upper_hex_upper : (c : Char) → (ltb 96 (code (upper_hex c)) && ltb (code (upper_hex c)) 103) ≡ false
unfolding upper_code
upper_hex_upper c = rw (code-upper_hex c) (ground arith)

size-to_upper : (s : String) → size (to_upper s) ≡ size s
unfolding to_upper
size-to_upper String.[] = refl
size-to_upper (String.◌∷◌ c s) = ap suc (size-to_upper s)

all_hex-to_upper : (s : String) → all_chars is_hex (to_upper s) ≡ all_chars is_hex s
unfolding to_upper
all_hex-to_upper String.[] = refl
all_hex-to_upper (String.◌∷◌ c s) = rw (is_hex-upper_hex c, all_hex-to_upper s) refl

to_upper-to_upper : (s : String) → to_upper (to_upper s) ≡ to_upper s
unfolding to_upper
to_upper-to_upper String.[] = refl
to_upper-to_upper (String.◌∷◌ c s) =
    rw (upper_hex_same (upper_hex c) (upper_hex_upper c), to_upper-to_upper s) refl

-- A text of sixteen hexadecimal digits is a key id, namely its upper case form, and its upper case form
-- is read as the same key id.
pub create_key_id-to_upper :
    (s : String)
    → is_hex_of 16 s ≡ true
    → (create_key_id s ≡ returns (to_upper s)) × (create_key_id (to_upper s) ≡ create_key_id s)
unfolding create_key_id
create_key_id-to_upper s h = (
  rw (h, create_key_id) refl,
  rw (size-to_upper s, all_hex-to_upper s, to_upper-to_upper s, h, create_key_id) refl,
)

-- Hexadecimal digits, as many as that, in upper case.
pub record IsHexUpper (n : ℕ) (s : String) : Type 0 where
  pub hex : is_hex_of n s ≡ true
  pub upper : to_upper s ≡ s

pub to_upper-IsHexUpper : (n : ℕ) (s : String) → is_hex_of n s ≡ true → IsHexUpper n (to_upper s)
to_upper-IsHexUpper n s h = record {
  hex = rw (size-to_upper s, all_hex-to_upper s) h;
  upper = to_upper-to_upper s;
}

pub create_key_fingerprint-IsHexUpper :
    (s f : String) → create_key_fingerprint s ≡ returns f → IsHexUpper 40 f
unfolding create_key_fingerprint
create_key_fingerprint-IsHexUpper s f e = elim (Bool-cases (is_hex_of 40 s)) [
  | inl h ↦
      subst (IsHexUpper 40) (returns-injective (rw (h, create_key_fingerprint) at e))
        (to_upper-IsHexUpper 40 s h)
  | inr h ↦ absurd (ground (arith, rw (h, create_key_fingerprint) at e))
]

pub create_key_id-IsHexUpper : (s : String) → IsHexUpper 16 s → create_key_id s ≡ returns s
unfolding create_key_id
create_key_id-IsHexUpper s v = rw (v.hex, v.upper, create_key_id) refl
