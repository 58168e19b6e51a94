-- ===== src/Signing/Tests.antt =====
-- Signing with a concrete OpenPGP, in which a key is the text of its block.
use gpg_signing_service.Common.{◌+◌, leb, if◌then◌else◌, String, ◌≡◌, refl, false, [], ◌∷◌, ◌+s◌}
use gpg_signing_service.Common.Result.{returns}
use gpg_signing_service.Keys.{StoredKey}
use gpg_signing_service.KeyCache.{DecryptedKeyCache}
use gpg_signing_service.Signing.Overtaken.{overtaken, signing_key-overtaken}
use gpg_signing_service.Signing.{signing_key, Pgp, open_key}

abbrev pub plain_pgp : Pgp
plain_pgp = record {
  PrivateKey = String;
  read_private_key = λ armored. returns armored;
  is_decrypted = λ key. false;
  decrypt_key = λ key passphrase. returns (key +s passphrase);
  sign = λ text key. returns (text +s key);
  get_fingerprint = λ key. key;
  get_key_id = λ key. key;
  algorithm = λ key. 22;
  get_user_ids = λ key. [];
  public_key = λ key. "public " +s key;
}

abbrev pub stored : StoredKey
stored = record {
  armored_private_key = "block";
  key_id = "A1B2C3D4E5F60718";
  fingerprint = "F1";
  created_at = "2025";
  algorithm = "EdDSA";
}

abbrev pub cache : DecryptedKeyCache String
cache = record {
  cache = ("A1B2C3D4E5F60718", record { key = "block" +s "pass"; expires_at = 500 }) ∷ [];
  ttl = 1000;
}

abbrev replaced : StoredKey
replaced = record stored { armored_private_key = "new block" }

signing_key-overtaken_example :
    (signing_key plain_pgp replaced "pass" 300 310 (overtaken plain_pgp "pass" stored 200 cache)).0
    ≡ (if leb 300 (200 + 1000)
        then returns ("block" +s "pass")
        else open_key plain_pgp "pass" replaced)
unfolding open_key
signing_key-overtaken_example =
    signing_key-overtaken plain_pgp "pass" stored replaced refl ("block" +s "pass") refl 200 300 310
      cache
