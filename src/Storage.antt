-- ===== src/Storage.antt =====
-- The storage of a Durable Object (`state.storage`), which the platform implements: its operations
-- and the documented laws that the service relies on. `Storage/Assoc` shows that they can be met.
use gpg_signing_service.Common.{
  String, ◌≡◌, Bool, Option, none, some, List, ◌==◌, is_some, if◌then◌else◌, starts_with,
}
use gpg_signing_service.Dict
use gpg_signing_service.Dict.{Dict, Distinct}
pub mod Assoc

pub record Storage (V : Type 0) : Type 1 where
  pub Store : Type 0
  pub empty : Store
  pub get : String → Store → Option V
  pub put : String → V → Store → Store
  -- the store without the key, and whether the key was there
  pub delete : String → Store → Store × Bool
  -- the entries whose key begins with the prefix
  pub list : String → Store → Dict V
  pub get-empty : (k : String) → get k empty ≡ none
  pub get-put :
      (k j : String) (v : V) (s : Store) → get j (put k v s) ≡ (if k == j then some v else get j s)
  pub get-delete :
      (k j : String) (s : Store) → get j (delete k s).0 ≡ (if k == j then none else get j s)
  pub deleted : (k : String) (s : Store) → (delete k s).1 ≡ is_some (get k s)
  pub get-list :
      (p k : String) (s : Store)
      → Dict.get k (list p s) ≡ (if starts_with k p then get k s else none)
  pub list-Distinct : (p : String) (s : Store) → Distinct (list p s)
