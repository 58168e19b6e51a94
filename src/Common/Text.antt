-- ===== src/Common/Text.antt =====
-- Texts: what the source uses of the strings of the language.
use Prim.Native.Nat.{ℕ, suc, ◌+◌}
use Prim.Native.Char.{Char, code}
use Prim.Native.String.{String}
use mathlib.Core.Bool.{Bool, true, false, not, ◌&&◌, ◌||◌}
use mathlib.Core.List.{List, [], ◌∷◌}
use mathlib.Core.Option.{Option, none, some}
use mathlib.Core.Path.{◌≡◌, refl, sym, ap, ◌∙◌}
use mathlib.Core.Logic.{◌⊎◌, inl, inr}
use native.Mathlib.Omega.{arith}
use text.Mathlib.Text.{◌==◌}
use text.Mathlib.TextEquality.{eq_iff, Char-path}
use text.Mathlib.TextLemmas.{nil-append, cons-append}
use gpg_signing_service.Common.Tests.{Bool-cases, eqb, leb, if◌then◌else◌}

infixl 65 ◌+s◌
-- concatenation of texts
abbrev pub ◌+s◌ : String → String → String
a +s b = Prim.Native.String.◌++◌ a b

-- a text is truthy when it is not empty
abbrev pub truthy : String → Bool
truthy String.[] = false
truthy (String.◌∷◌ c s) = true

-- `value || fallback` for a text that may be null
abbrev pub or_text : Option String → String → String
or_text none d = d
or_text (some s) d = if truthy s then s else d

-- an optional text is truthy when it is there and not empty
abbrev pub truthy? : Option String → Bool
truthy? none = false
truthy? (some s) = truthy s

-- `list.includes(x)`
abbrev pub includes : List String → String → Bool
includes [] x = false
includes (y ∷ ys) x = y == x || includes ys x

-- `s.startsWith(p)`
unfoldable pub starts_with : String → String → Bool
starts_with s String.[] = true
starts_with String.[] (String.◌∷◌ d p) = false
starts_with (String.◌∷◌ c s) (String.◌∷◌ d p) =
    if eqb (code c) (code d) then starts_with s p else false

-- `s.includes(p)`
unfoldable pub contains : String → String → Bool
unfolding starts_with
contains String.[] p = starts_with "" p
contains (String.◌∷◌ c s) p = starts_with (String.◌∷◌ c s) p || contains s p

-- `s.slice(n)`
unfoldable pub skip : ℕ → String → String
skip n String.[] = ""
skip n (String.◌∷◌ c s) = if eqb n 0 then String.◌∷◌ c s else skip (Prim.Native.Nat.pred n) s

-- a character outside the basic plane is two UTF-16 units
abbrev units : ℕ → ℕ
units c = if leb c 65535 then 1 else 2

-- `s.length`
unfoldable pub utf16_length : String → ℕ
utf16_length String.[] = 0
utf16_length (String.◌∷◌ c s) = units (code c) + utf16_length s

abbrev push_front : Char → List String → List String
push_front c [] = String.◌∷◌ c "" ∷ []
push_front c (p ∷ ps) = String.◌∷◌ c p ∷ ps

-- `s.split(sep)` for a separator of one character
unfoldable pub split : ℕ → String → List String
split sep String.[] = "" ∷ []
split sep (String.◌∷◌ c s) =
    if eqb (code c) sep then "" ∷ split sep s else push_front c (split sep s)

-- `list.join(sep)`
unfoldable pub join : String → List String → String
join sep [] = ""
join sep (p ∷ []) = p
join sep (p ∷ q ∷ ps) = p +s sep +s join sep (q ∷ ps)

-- every character passes the test
abbrev pub all_chars : (ℕ → Bool) → String → Bool
all_chars p String.[] = true
all_chars p (String.◌∷◌ c s) = p (code c) && all_chars p s

-- the number of characters, as regular expressions count them in plain text
abbrev pub size : String → ℕ
size String.[] = 0
size (String.◌∷◌ c s) = suc (size s)

-- `s.endsWith(p)`
unfoldable pub ends_with : String → String → Bool
ends_with String.[] p = "" == p
ends_with (String.◌∷◌ c s) p = String.◌∷◌ c s == p || ends_with s p

-- the white space that `trim` removes
abbrev pub is_space : ℕ → Bool
is_space c =
    leb 9 c && leb c 13
    || (eqb c 32
        || (eqb c 160
            || (eqb c 0x1680
                || (leb 0x2000 c && leb c 0x200a
                    || (eqb c 0x2028
                        || (eqb c 0x2029
                            || (eqb c 0x202f
                                || (eqb c 0x205f || (eqb c 0x3000 || eqb c 0xfeff)))))))))

trim_start : String → String
trim_start String.[] = ""
trim_start (String.◌∷◌ c s) = if is_space (code c) then trim_start s else String.◌∷◌ c s

trim_end : String → String
trim_end String.[] = ""
trim_end (String.◌∷◌ c s) =
    let rest = trim_end s in if is_space (code c) && rest == "" then "" else String.◌∷◌ c rest

-- `s.trim()`
unfoldable pub trim : String → String
unfolding trim_start trim_end
trim s = trim_end (trim_start s)

-- A text equals at most one of two different texts.
pub ==_separate : (s a b : String) → (a == b) ≡ false → ((s == a) ≡ false) ⊎ ((s == b) ≡ false)
==_separate s a b h = ground (arith, eq_iff s a, eq_iff s b, eq_iff a b)

-- A text that begins with `p` is `p` followed by a rest.
pub starts_with-append : (s p : String) → starts_with s p ≡ true → (r : String) × (s ≡ p +s r)
unfolding starts_with
starts_with-append s String.[] h = (s, sym (nil-append s))
starts_with-append String.[] (String.◌∷◌ d p) h = cc
starts_with-append (String.◌∷◌ c s) (String.◌∷◌ d p) h =
    let same : code c ≡ code d = ground arith in
    let (r, e) = starts_with-append s p (ground arith) in
    (
      r,
      ap (String.◌∷◌ c) e
          ∙ ap (λ x. String.◌∷◌ x (p +s r)) (Char-path c d same)
          ∙ sym (cons-append d p r),
    )

pub starts_with_append : (p r : String) → starts_with (p +s r) p ≡ true
unfolding starts_with
starts_with_append String.[] String.[] = refl
starts_with_append String.[] (String.◌∷◌ c r) = refl
starts_with_append (String.◌∷◌ d p) r = rw cons-append (ground (arith, starts_with_append p r))

-- `trim` changes no text without white space.
trim_end_of_no_space : (s : String) → all_chars (λ c. not (is_space c)) s ≡ true → trim_end s ≡ s
unfolding trim_end
trim_end_of_no_space String.[] h = refl
trim_end_of_no_space (String.◌∷◌ c s) h = elim (Bool-cases (is_space (code c))) [
  | inl space ↦ absurd (ground (arith, space))
  | inr plain ↦ rw plain (ap (String.◌∷◌ c) (trim_end_of_no_space s (rw plain at h)))
]

pub trim_of_no_space : (s : String) → all_chars (λ c. not (is_space c)) s ≡ true → trim s ≡ s
unfolding trim
trim_of_no_space String.[] h = refl
trim_of_no_space (String.◌∷◌ c s) h = elim (Bool-cases (is_space (code c))) [
  | inl space ↦ absurd (ground (arith, space))
  | inr plain ↦ rw plain (trim_end_of_no_space (String.◌∷◌ c s) h)
]

-- What stands behind a prefix.
pub skip-append : (p r : String) → skip (size p) (p +s r) ≡ r
unfolding skip
skip-append String.[] String.[] = refl
skip-append String.[] (String.◌∷◌ c r) = rw nil-append refl
skip-append (String.◌∷◌ d p) r = rw cons-append (ground (arith, skip-append p r))
