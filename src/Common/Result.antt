-- ===== src/Common/Result.antt =====
-- Code that may throw: a value, or the message of the error.
use mathlib.Core.Path.{◌≡◌, refl, ap, sym}
use mathlib.Core.Bool.{Bool, true, false, true≢false}
use mathlib.Core.Logic.{◌⊎◌, inl, inr}
use Prim.Native.String.{String}

pub data Result {ℓ} (A : Type ℓ) : Type ℓ where
  returns : A → Result A
  throws : String → Result A

infixl 5 ◌>>=◌ ◌>>◌
abbrev pub ◌>>=◌ {ℓ κ} : {A : Type ℓ} {B : Type κ} → Result A → (A → Result B) → Result B
returns a >>= f = f a
throws e >>= f = throws e

abbrev pub ◌>>◌ {ℓ} : {B : Type ℓ} → Result (Unit {0}) → Result B → Result B
m >> k = m >>= λ _. k

-- `if (b) throw new Error(message)`
abbrev pub throw_if : Bool → String → Result (Unit {0})
throw_if true message = throws message
throw_if false message = returns tt

abbrev pub is_returned {ℓ} : {A : Type ℓ} → Result A → Bool
is_returned (returns a) = true
is_returned (throws e) = false

module _ {ℓ} {A : Type ℓ} where
  pub Result-cases : (r : Result A) → ((a : A) × (r ≡ returns a)) ⊎ ((e : String) × (r ≡ throws e))
  Result-cases (returns a) = inl (a, refl)
  Result-cases (throws e) = inr (e, refl)

  value_or : A → Result A → A
  value_or a (returns b) = b
  value_or a (throws e) = a

  pub returns-injective : {a b : A} → returns a ≡ returns b → a ≡ b
  unfolding value_or
  returns-injective {a} e = ap (value_or a) e

pub throws_returns {ℓ} : {A : Type ℓ} {m : String} {a : A} → throws m ≡ returns a → ⊥
throws_returns e = true≢false (sym (ap is_returned e))

module _ {ℓ κ} {A : Type ℓ} {B : Type κ} where
  -- If a sequence returns, its first part did.
  pub bind-returns :
      (r : Result A) (f : A → Result B) (b : B)
      → (r >>= f) ≡ returns b
      → (a : A) × ((r ≡ returns a) × (f a ≡ returns b))
  bind-returns (returns a) f b e = (a, (refl, e))
  bind-returns (throws m) f b e = absurd (throws_returns e)
