-- ===== src/Worker/Effects/Sign.antt =====
-- What `POST /sign` changes.
use gpg_signing_service.Common.{String, ◌≡◌, refl, inl, inr, Bool-cases, contains}
use gpg_signing_service.Audit.{AuditRow, AuditAction}
use gpg_signing_service.SignRequest.{Course, Settings, Request, failure_entry, success_entry}
use gpg_signing_service.Service.{Backend, World}
use gpg_signing_service.Sign.{caught, finish, sign}
use gpg_signing_service.Sign.Ends.{Ends, sign_ends}
use gpg_signing_service.Worker.Effects.{Grows, log-Grows}

abbrev pub IsSigning : AuditRow → Type 0
IsSigning row = row.entry.action ≡ AuditAction.sign

module _ (B : Backend) where
  -- Neither the keys nor the tokens have changed, and at most one row has been written, about a signature.
  abbrev pub Signs : World B → World B → Type 0
  Signs w w' = (w'.keys ≡ w.keys) × ((w'.tokens ≡ w.tokens) × Grows IsSigning w.audit w'.audit)

  module _ (env : Settings) (r : Request) (course : Course) where
    caught-Signs : (message : String) (w : World B) → Signs w (caught B env r course message w).1
    unfolding caught
    caught-Signs message w = elim (Bool-cases (contains message "Rate limiter")) [
      | inl limiter ↦ rw (limiter, caught) (refl, (refl, inl refl))
      | inr other ↦
          rw (other, caught)
            (
              refl,
              (
                refl,
                log-Grows IsSigning course.recording (failure_entry env r message) w.audit refl,
              ),
            )
    ]

    signing_ends : Ends B env r course (λ w p. Signs w p.1)
    unfolding finish
    signing_ends = record {
      on_caught = caught-Signs;
      on_signed = λ remaining reset_at text w.
          (refl, (refl, log-Grows IsSigning course.recording (success_entry env r) w.audit refl));
      on_denied = λ reset_at w. (refl, (refl, inl refl));
      on_unavailable = λ w. (refl, (refl, inl refl));
      on_unlisted = λ w. (refl, (refl, inl refl));
      on_empty = λ w. (refl, (refl, inl refl));
      on_buckets = λ w buckets p h. h;
      on_cache = λ w c p h. h;
    }

    pub sign-Signs : (w : World B) → Signs w (sign B env r course w).1
    sign-Signs w = sign_ends B env r course (λ w p. Signs w p.1) signing_ends w
