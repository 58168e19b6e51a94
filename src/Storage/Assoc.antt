-- ===== src/Storage/Assoc.antt =====
-- A storage kept as an association list: the laws of `Storage` can be met, and tests can run.
use gpg_signing_service.Common.{
  String, ◌≡◌, refl, Bool, none, [], ◌∷◌, arith, ◌==◌, eq_iff, is_some, if◌then◌else◌, starts_with,
  ap,
}
use gpg_signing_service.Dict
use gpg_signing_service.Dict.{Dict, Distinct}
use gpg_signing_service.Storage.{Storage}

module _ {V : Type 0} where
  unfoldable pub listed : String → Dict V → Dict V
  unfolding Dict.delete
  listed p [] = []
  listed p ((k, v) ∷ m) =
      let rest = Dict.delete k (listed p m) in if starts_with k p then (k, v) ∷ rest else rest

  pub get-listed :
      (p k : String) (m : Dict V)
      → Dict.get k (listed p m) ≡ (if starts_with k p then Dict.get k m else none)
  unfolding Dict.get listed
  get-listed p k [] = ground arith
  get-listed p k ((j, v) ∷ m) = ground (
    arith,
    eq_iff j k,
    Dict.get-delete j k (listed p m),
    get-listed p k m,
    ap (λ t. starts_with t p) {x = j} {y = k},
  )

  pub listed-Distinct : (p : String) (m : Dict V) → Distinct (listed p m)
  unfolding listed
  listed-Distinct p [] = tt
  listed-Distinct p ((j, v) ∷ m) = ground (
    arith,
    eq_iff j j,
    Dict.get-delete j j (listed p m),
    listed-Distinct p m,
    Dict.delete-Distinct j (listed p m),
  )

  unfoldable pub remove : String → Dict V → Dict V × Bool
  unfolding Dict.delete Dict.get
  remove k m = (Dict.delete k m, is_some (Dict.get k m))

  pub get-remove :
      (k j : String) (m : Dict V)
      → Dict.get j (remove k m).0 ≡ (if k == j then none else Dict.get j m)
  unfolding remove
  get-remove k j m = Dict.get-delete k j m

-- Unfolding `assoc` opens the operations, for tests.
unfoldable pub assoc : (V : Type 0) → Storage V
unfolding Dict.get Dict.set remove listed
assoc V = record {
  Store = Dict V;
  empty = [];
  get = Dict.get;
  put = Dict.set;
  delete = remove;
  list = listed;
  get-empty = λ k. refl;
  get-put = Dict.get-set;
  get-delete = get-remove;
  deleted = λ k s. refl;
  get-list = get-listed;
  list-Distinct = listed-Distinct;
}
