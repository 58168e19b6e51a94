-- ===== src/KeyRoutes/Tests.antt =====
-- Uploads and a deletion on the concrete service.
use gpg_signing_service.Common.{refl, arith, true, false, Option, none, some, is_some}
use gpg_signing_service.Keys.Format.{IsHexUpper}
use gpg_signing_service.KeyStorage
use gpg_signing_service.Signing.{ParsedKeyInfo}
use gpg_signing_service.Service.Sample.{backend, armor}
use gpg_signing_service.KeyRoutes.{Course, KeyUpload}
use gpg_signing_service.KeyRoutes.Served.{IsValidUpload}

abbrev pub upload_course : Course
upload_course = record {
  created_at = "2025-01-01T00:00:00.000Z";
  call_fails = none;
  reached = false;
  recording = record { id = "a1"; timestamp = "2025"; fails = false };
}

abbrev pub body : KeyUpload
body = record { armored_private_key = armor; key_id = "A1B2C3D4E5F60718" }

pub key_id_upper : IsHexUpper 16 "A1B2C3D4E5F60718"
unfolding gpg_signing_service.Keys.to_upper
key_id_upper = record { hex = refl; upper = refl }

abbrev pub info : ParsedKeyInfo
info = record {
  key_id = "A1B2C3D4E5F60718";
  fingerprint = "0123456789ABCDEF0123456789ABCDEF01234567";
  algorithm = "EdDSA";
  user_id = "Unknown";
}

valid : IsValidUpload backend "pass" "r1" upload_course body
unfolding gpg_signing_service.Keys.Schema.is_armored gpg_signing_service.Common.utf16_length
valid = record { armored = refl; long = ground arith; key_id = key_id_upper; created_at = refl }

-- The storage stores the key, and its reply is lost.
abbrev lost_course : Course
lost_course = record upload_course { call_fails = some "Network connection lost"; reached = true }
