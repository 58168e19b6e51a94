-- ===== src/Signing.antt =====
-- utils/signing.ts: signatures with the keys of the storage, and the cache of decrypted keys that it
-- keeps for the whole module. OpenPGP.js is a parameter. `now` is when the cache is read, `later` when
-- it is written.
pub mod Cached
pub mod Others
pub mod Validated
pub mod Overtaken
pub mod Tests
use gpg_signing_service.Common.{
  ℕ, String, Bool, true, false, Option, none, some, List, [], ◌∷◌, eqb, ◌&&◌, not, if◌then◌else◌,
  truthy, or_text, ◌+s◌,
}
use gpg_signing_service.Common.Result.{Result, returns, throws, ◌>>=◌, ◌>>◌}
use gpg_signing_service.Keys.{
  StoredKey, create_key_id, create_key_fingerprint, create_armored_private_key, to_upper,
}
use gpg_signing_service.KeyCache
use gpg_signing_service.KeyCache.{DecryptedKeyCache}

-- What the service uses of OpenPGP.js.
pub record Pgp : Type 1 where
  pub PrivateKey : Type 0
  pub read_private_key : String → Result PrivateKey
  pub is_decrypted : PrivateKey → Bool
  -- the key and the passphrase
  pub decrypt_key : PrivateKey → String → Result PrivateKey
  -- the detached signature of a text, armored
  pub sign : String → PrivateKey → Result String
  pub get_fingerprint : PrivateKey → String
  pub get_key_id : PrivateKey → String
  pub algorithm : PrivateKey → ℕ
  pub get_user_ids : PrivateKey → List String
  -- `toPublic().armor()`
  pub public_key : PrivateKey → String

pub record SigningResult : Type 0 where
  pub signature : String
  pub key_id : String
  pub algorithm : String
  pub fingerprint : String

pub record ParsedKeyInfo : Type 0 where
  pub key_id : String
  pub fingerprint : String
  pub algorithm : String
  pub user_id : String

-- The names of RFC 4880; `shown` is how the language prints a number.
unfoldable pub algorithm_name : (shown : ℕ → String) → ℕ → String
algorithm_name shown n =
    if eqb n 1
    then "RSA"
    else if eqb n 2
    then "RSA-E"
    else if eqb n 3
    then "RSA-S"
    else if eqb n 16
    then "Elgamal"
    else if eqb n 17
    then "DSA"
    else if eqb n 18
    then "ECDH"
    else if eqb n 19
    then "ECDSA"
    else if eqb n 22
    then "EdDSA"
    else "Unknown(" +s shown n +s ")"

-- `userIds[0] || "Unknown"`
abbrev first_user : List String → String
first_user [] = "Unknown"
first_user (u ∷ _) = if truthy u then u else "Unknown"

unfoldable pub create_stored_key :
    (shown : ℕ → String)
    → (armored key_id fingerprint algorithm created_at : String) → Result StoredKey
unfolding create_armored_private_key create_key_id create_key_fingerprint
create_stored_key shown armored key_id fingerprint algorithm created_at = do
  a ← create_armored_private_key shown armored
  k ← create_key_id key_id
  f ← create_key_fingerprint fingerprint
  returns (record {
    armored_private_key = a;
    key_id = k;
    fingerprint = f;
    created_at = created_at;
    algorithm = algorithm;
  })

module _ (P : Pgp) where
  open P use {
    PrivateKey, read_private_key, is_decrypted, decrypt_key, sign, get_fingerprint, get_key_id,
    get_user_ids,
  }

  unfoldable pub extract_public_key : String → Result String
  extract_public_key armored = do key ← read_private_key armored; returns (P.public_key key)

  -- The private key without its protection.
  abbrev pub unlock : String → PrivateKey → Result PrivateKey
  unlock passphrase key = if is_decrypted key then returns key else decrypt_key key passphrase

  -- Reading and decrypting the key of the storage, which the cache saves.
  unfoldable pub open_key : String → StoredKey → Result PrivateKey
  open_key passphrase stored = read_private_key stored.armored_private_key >>= unlock passphrase

  abbrev pub keep_key :
      String
      → Result PrivateKey
      → ℕ
      → DecryptedKeyCache PrivateKey
      → Result PrivateKey × DecryptedKeyCache PrivateKey
  keep_key key_id (throws e) later c = (throws e, c)
  keep_key key_id (returns key) later c = (returns key, KeyCache.set PrivateKey key_id key later c)

  unfoldable pub use_cached :
      StoredKey
      → String
      → ℕ
      → Option PrivateKey
      → DecryptedKeyCache PrivateKey
      → Result PrivateKey × DecryptedKeyCache PrivateKey
  unfolding open_key KeyCache.set
  use_cached stored passphrase later (some key) c = (returns key, c)
  use_cached stored passphrase later none c =
      keep_key stored.key_id (open_key passphrase stored) later c

  -- The key to sign with: the cached one, or the one opened now, which is then cached.
  unfoldable pub signing_key :
      StoredKey
      → String
      → ℕ
      → ℕ
      → DecryptedKeyCache PrivateKey
      → Result PrivateKey × DecryptedKeyCache PrivateKey
  unfolding use_cached KeyCache.get
  signing_key stored passphrase now later c =
      let (cached, c') = KeyCache.get PrivateKey stored.key_id now c in
      use_cached stored passphrase later cached c'

  abbrev pub sign_with : String → StoredKey → PrivateKey → Result SigningResult
  sign_with data' stored key = do
    signature ← sign data' key
    returns (record {
      signature = signature;
      key_id = stored.key_id;
      algorithm = stored.algorithm;
      fingerprint = stored.fingerprint;
    })

  unfoldable pub sign_commit_data :
      String
      → StoredKey
      → String
      → ℕ
      → ℕ
      → DecryptedKeyCache PrivateKey
      → Result SigningResult × DecryptedKeyCache PrivateKey
  unfolding signing_key
  sign_commit_data data' stored passphrase now later c =
      let (key, c') = signing_key stored passphrase now later c in
      (key >>= sign_with data' stored, c')

  abbrev pub checked : String → PrivateKey → Result (Unit {0})
  checked passphrase key =
      if truthy passphrase && not (is_decrypted key)
      then (decrypt_key key passphrase >>= λ _. returns tt)
      else returns tt

  -- The passphrase is the empty text where the source has none.
  unfoldable pub parse_and_validate_key :
      (shown : ℕ → String) → String → String → Result ParsedKeyInfo
  unfolding create_key_id create_key_fingerprint to_upper algorithm_name
  parse_and_validate_key shown armored passphrase = do
    key ← read_private_key armored
    checked passphrase key
    fingerprint ← create_key_fingerprint (get_fingerprint key)
    key_id ← create_key_id (to_upper (get_key_id key))
    returns (record {
      key_id = key_id;
      fingerprint = fingerprint;
      algorithm = algorithm_name shown (P.algorithm key);
      user_id = first_user (get_user_ids key);
    })
