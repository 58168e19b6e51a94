-- ===== src/Dict.antt =====
-- The `Map` of the language with text keys: an association list in the order of insertion.
use gpg_signing_service.Common.{
  String, ◌≡◌, refl, ap, sym, ◌∙◌, Bool, true, false, ◌||◌, Bool-cases, inl, inr, Option, none,
  some, List, [], ◌∷◌, arith, ◌==◌, eq_iff, if◌then◌else◌,
}

abbrev pub Dict {ℓ} : Type ℓ → Type ℓ
Dict V = List (String × V)

module _ {ℓ} {V : Type ℓ} where
  unfoldable pub get : String → Dict V → Option V
  get k [] = none
  get k ((j, v) ∷ m) = if j == k then some v else get k m

  -- an entry that is there keeps its place
  unfoldable pub set : String → V → Dict V → Dict V
  set k v [] = (k, v) ∷ []
  set k v ((j, w) ∷ m) = if j == k then (j, v) ∷ m else (j, w) ∷ set k v m

  unfoldable pub delete : String → Dict V → Dict V
  delete k [] = []
  delete k ((j, v) ∷ m) = let rest = delete k m in if j == k then rest else (j, v) ∷ rest

  -- `{ ...m, ...extra }`
  unfoldable pub spread : Dict V → Dict V → Dict V
  unfolding set
  spread m [] = m
  spread m ((k, v) ∷ extra) = spread (set k v m) extra

  -- No key stands twice.
  abbrev pub Distinct : Dict V → Type ℓ
  Distinct [] = Unit
  Distinct ((j, v) ∷ m) = (get j m ≡ none) × Distinct m

  pub get-set :
      (k j : String) (v : V) (m : Dict V) → get j (set k v m) ≡ (if k == j then some v else get j m)
  unfolding get set
  get-set k j v [] = refl
  get-set k j v ((i, w) ∷ m) = ground (arith, eq_iff k j, eq_iff i k, eq_iff i j, get-set k j v m)

  pub get-delete :
      (k j : String) (m : Dict V) → get j (delete k m) ≡ (if k == j then none else get j m)
  unfolding get delete
  get-delete k j [] = ground arith
  get-delete k j ((i, w) ∷ m) = ground (arith, eq_iff k j, eq_iff i k, eq_iff i j, get-delete k j m)

  abbrev pub first_some : Option V → Option V → Option V
  first_some none y = y
  first_some (some v) y = some v

  -- What the second of the two has goes before.
  pub get-spread :
      (k : String) (m extra : Dict V)
      → Distinct extra
      → get k (spread m extra) ≡ first_some (get k extra) (get k m)
  unfolding get spread
  get-spread k m [] d = refl
  get-spread k m ((j, v) ∷ extra) (fresh, d) = elim (Bool-cases (j == k)) [
    | inl same ↦
        let absent : get k extra ≡ none =
          ap (λ i. get i extra) (sym ((eq_iff j k).0 same)) ∙ fresh in
        get-spread k (set j v m) extra d ∙ rw (absent, get-set j k v m, same) refl
    | inr other ↦ get-spread k (set j v m) extra d ∙ rw (get-set j k v m, other) refl
  ]

  pub set-Distinct : (k : String) (v : V) (m : Dict V) → Distinct m → Distinct (set k v m)
  unfolding get set
  set-Distinct k v [] h = ground arith
  set-Distinct k v ((i, w) ∷ m) h =
      ground (arith, set-Distinct k v m, get-set k i v m, eq_iff i k, eq_iff k i)

  pub delete-Distinct : (k : String) (m : Dict V) → Distinct m → Distinct (delete k m)
  unfolding delete
  delete-Distinct k [] h = ground arith
  delete-Distinct k ((i, w) ∷ m) h =
      ground (arith, delete-Distinct k m, get-delete k i m, eq_iff i k, eq_iff k i)

module _ {ℓ} {V : Type ℓ} (p : V → Bool) where
  abbrev pub any_value : Dict V → Bool
  any_value [] = false
  any_value ((j, v) ∷ m) = p v || any_value m

  pub any_value_of_get :
      (k : String) (v : V) (m : Dict V) → get k m ≡ some v → p v ≡ true → any_value m ≡ true
  unfolding get
  any_value_of_get k v [] h t = cc
  any_value_of_get k v ((j, w) ∷ m) h t =
      ground (arith, eq_iff j k, any_value_of_get k v m, ap p {x = w} {y = v})

  pub get_of_any_value :
      (m : Dict V)
      → Distinct m
      → any_value m ≡ true
      → (k : String) × (v : V) × (get k m ≡ some v) × (p v ≡ true)
  unfolding get
  get_of_any_value [] d h = absurd (cc)
  get_of_any_value ((j, w) ∷ m) (fresh, d) h = elim (Bool-cases (p w)) [
    | inl here ↦ (j, w, ground (arith, eq_iff j j), here)
    | inr other ↦
        let (k, v, found, t) = get_of_any_value m d (ground arith) in
        (k, v, ground (arith, eq_iff j k, ap (λ i. get i m) {x = j} {y = k}), t)
  ]
