-- ===== src/Keys/Schema/Armor.antt =====
-- An armored key that passes the schema, and `createArmoredPrivateKey`, which is applied to it.
use text.Mathlib.TextLemmas.{cons-append, nil-append, append_assoc}
use gpg_signing_service.Common.{
  ℕ, ◌≤◌, code, String, ◌≡◌, refl, Bool, true, arith, leb, if◌then◌else◌, starts_with, contains,
  utf16_length, ◌+s◌,
}
use gpg_signing_service.Common.Result.{returns, throws}
use gpg_signing_service.Keys.{create_armored_private_key}
use gpg_signing_service.Keys.Schema.{
  is_armored, line_starts, starts_line_end, line_ends, begin_pgp, end_pgp, is_line_end,
}

-- A text with a line that begins or ends with `p` contains `p`.
contains-line_starts : (b : Bool) (s p : String) → line_starts b s p ≡ true → contains s p ≡ true
unfolding line_starts contains
contains-line_starts b String.[] p h = ground arith
contains-line_starts b (String.◌∷◌ c s) p h =
    ground (arith, contains-line_starts (is_line_end (code c)) s p)

starts_with-starts_line_end : (s p : String) → starts_line_end s p ≡ true → starts_with s p ≡ true
unfolding starts_line_end starts_with
starts_with-starts_line_end String.[] String.[] h = refl
starts_with-starts_line_end (String.◌∷◌ c s) String.[] h = refl
starts_with-starts_line_end String.[] (String.◌∷◌ d p) h = cc
starts_with-starts_line_end (String.◌∷◌ c s) (String.◌∷◌ d p) h =
    ground (arith, starts_with-starts_line_end s p)

contains-line_ends : (s p : String) → line_ends s p ≡ true → contains s p ≡ true
unfolding line_ends contains
contains-line_ends String.[] p h = starts_with-starts_line_end "" p h
contains-line_ends (String.◌∷◌ c s) p h =
    ground (arith, starts_with-starts_line_end (String.◌∷◌ c s) p, contains-line_ends s p)

starts_with_prefix : (s p q : String) → starts_with s (p +s q) ≡ true → starts_with s p ≡ true
unfolding starts_with
starts_with_prefix s String.[] q h = refl
starts_with_prefix String.[] (String.◌∷◌ d p) q h = absurd (ground (arith, rw cons-append at h))
starts_with_prefix (String.◌∷◌ c s) (String.◌∷◌ d p) q h =
    ground (arith, rw cons-append at h, starts_with_prefix s p q)

contains-starts_with : (s p : String) → starts_with s p ≡ true → contains s p ≡ true
unfolding contains
contains-starts_with String.[] p h = h
contains-starts_with (String.◌∷◌ c s) p h = ground arith

contains_behind : (s a p : String) → starts_with s (a +s p) ≡ true → contains s p ≡ true
unfolding starts_with contains
contains_behind s String.[] p h = contains-starts_with s p (rw nil-append at h)
contains_behind String.[] (String.◌∷◌ d a) p h = absurd (ground (arith, rw cons-append at h))
contains_behind (String.◌∷◌ c s) (String.◌∷◌ d a) p h =
    ground (arith, rw cons-append at h, contains_behind s a p)

-- A part of a contained text is contained.
contains_part : (s a p b : String) → contains s (a +s (p +s b)) ≡ true → contains s p ≡ true
unfolding contains
contains_part String.[] a p b h =
    contains_behind "" a p (starts_with_prefix "" (a +s p) b (rw append_assoc h))
contains_part (String.◌∷◌ c s) a p b h = ground (
  arith,
  contains_part s a p b,
  λ (k : starts_with (String.◌∷◌ c s) (a +s (p +s b)) ≡ true).
      contains_behind (String.◌∷◌ c s) a p
        (starts_with_prefix (String.◌∷◌ c s) (a +s p) b (rw append_assoc k)),
)

-- What the schema has checked of an armored key.
pub is_armored-contains :
    (s : String)
    → is_armored s ≡ true
    → (contains s "BEGIN PGP PRIVATE KEY BLOCK" ≡ true)
      × (contains s "END PGP PRIVATE KEY BLOCK" ≡ true)
      × (utf16_length s ≤ 10000)
unfolding is_armored
is_armored-contains s h = (
  contains_part s "-----" "BEGIN PGP PRIVATE KEY BLOCK" "-----"
      (contains-line_starts true s begin_pgp (ground arith)),
  contains_part s "-----" "END PGP PRIVATE KEY BLOCK" "-----"
      (contains-line_ends s end_pgp (ground arith)),
  ground arith,
)

-- Of what the schema has let through, `createArmoredPrivateKey` refuses only keys of less than 350 units.
pub create_armored_private_key-is_armored :
    (shown : ℕ → String) (s : String)
    → is_armored s ≡ true
    → create_armored_private_key shown s ≡ (
        if leb 350 (utf16_length s)
        then returns s
        else throws ("Invalid ArmoredPrivateKey length: " +s shown (utf16_length s)))
unfolding create_armored_private_key
create_armored_private_key-is_armored shown s h =
    let (begins, ends, bounded) = is_armored-contains s h in ground (arith, begins, ends, bounded)

-- `createArmoredPrivateKey` returns its argument or throws.
pub create_armored_private_key_same :
    (shown : ℕ → String) (s a : String) → create_armored_private_key shown s ≡ returns a → s ≡ a
unfolding create_armored_private_key
create_armored_private_key_same shown s a e = ground arith
