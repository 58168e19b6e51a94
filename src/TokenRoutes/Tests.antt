-- ===== src/TokenRoutes/Tests.antt =====
-- Minting on the concrete service.
use gpg_signing_service.Common.{◌≡◌, refl, false, none, some, [], ◌∷◌, ◌+s◌}
use gpg_signing_service.Http.{conflict}
use gpg_signing_service.Dates.Unary.{unary}
use gpg_signing_service.Auth.Tests.{codes}
use gpg_signing_service.Errors.{failure, invalid_request}
use gpg_signing_service.Service.{World}
use gpg_signing_service.Service.Sample.{backend, new_world}
use gpg_signing_service.TokenRoutes.{TokenCreate, Course, create_token}
use gpg_signing_service.TokenRoutes.Minted.{row, create_token-conflict}

abbrev pub course : Course
course = record {
  asked_at = 10;
  executed_at = 11;
  random_id = "1";
  random_base64 = "ab+/c=";
  statement_fails = none;
  recording = record { id = "a1"; timestamp = "2025"; fails = false };
}

abbrev pub body : TokenCreate
body = record { name = "ci"; key_ids = some ("A1B2C3D4E5F60718" ∷ []); expires_in_days = none }

abbrev taken : World backend
taken = record new_world { tokens = row backend unary codes "r1" course body new_world ∷ [] }

create_token-conflict_example :
    create_token backend unary codes "r1" course body taken
    ≡ (failure conflict ("Token name already exists: " +s "ci") invalid_request, taken)
create_token-conflict_example =
    create_token-conflict backend unary codes "r1" course body taken refl refl
