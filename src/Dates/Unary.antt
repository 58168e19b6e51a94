-- ===== src/Dates/Unary.antt =====
-- Dates written in unary, as many strokes as there are milliseconds behind the letter T: the laws of
-- `Dates` can be met.
use gpg_signing_service.Common.{
  ℕ, zero, suc, code, String, ◌≡◌, refl, ap, Option, none, some, eqb, if◌then◌else◌,
}
use gpg_signing_service.Dates.{Dates}

strokes : ℕ → String
strokes zero = ""
strokes (suc n) = String.◌∷◌ "|" (strokes n)

more : Option ℕ → Option ℕ
more none = none
more (some n) = some (suc n)

count : String → Option ℕ
unfolding more
count String.[] = some 0
count (String.◌∷◌ c s) = let rest = count s in if eqb (code c) b'|' then more rest else none

count-strokes : (n : ℕ) → count (strokes n) ≡ some n
unfolding count strokes more
count-strokes zero = refl
count-strokes (suc n) = ap more (count-strokes n)

count_marked : String → Option ℕ
unfolding count
count_marked String.[] = none
count_marked (String.◌∷◌ c s) = count s

pub unary : Dates
unfolding strokes count_marked
unary = record {
  to_iso = λ t. String.◌∷◌ "T" (strokes t);
  parse_date = count_marked;
  parse_date-to_iso = count-strokes;
  truthy-to_iso = λ t. refl;
}
