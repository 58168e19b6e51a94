-- ===== src/History/Tests.antt =====
-- A signature after an upload.
use gpg_signing_service.Common.{◌≡◌, refl, [], inl}
use gpg_signing_service.Storage.Assoc.{assoc}
use gpg_signing_service.Service.{World}
use gpg_signing_service.Service.Sample.{backend, new_world}
use gpg_signing_service.Sign.{sign}
use gpg_signing_service.Sign.Tests.{settings, request, course}
use gpg_signing_service.KeyRoutes.{upload_key}
use gpg_signing_service.KeyRoutes.Tests.{upload_course, body, key_id_upper}
use gpg_signing_service.History.{Reachable, start, after, uploading}
use gpg_signing_service.History.Transparent.{IsFresh, Reachable-IsFresh, sign-transparent}

abbrev uploaded : World backend
uploaded = (upload_key backend "pass" "r1" upload_course body new_world).1

reached : Reachable backend settings uploaded
unfolding assoc new_world
reached =
    after new_world uploaded (start new_world (λ j. refl) refl)
      (uploading "r1" upload_course body new_world key_id_upper (inl refl))

Reachable-IsFresh_example : IsFresh backend settings uploaded
Reachable-IsFresh_example = Reachable-IsFresh backend settings uploaded reached

sign-transparent_example :
    (sign backend settings request course uploaded).0
    ≡ (sign backend settings request course
        (record uploaded { cache = record uploaded.cache { cache = [] } })).0
sign-transparent_example = sign-transparent backend settings uploaded request course reached
