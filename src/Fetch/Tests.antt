-- ===== src/Fetch/Tests.antt =====
-- The time limit on a concrete network.
use gpg_signing_service.Common.{
  ℕ, ◌+◌, ◌<◌, String, ◌≡◌, refl, true, Option, none, some, [], ◌∷◌, ◌⊎◌, eqb, if◌then◌else◌, arith,
}
use gpg_signing_service.Fetch.{Settled, resolved, Loop, Response, described, fetch_with_timeout}
use gpg_signing_service.Fetch.Limited.{Silent, timed_out, fetch_with_timeout-ends}

abbrev response : Response
response = record { is_ok = true; status = 200; status_text = "OK"; json = resolved "{}" }

-- The platform has the response after two milliseconds.
abbrev network : ℕ → Option (Settled Response)
network t = if eqb t 2 then some (resolved response) else none

abbrev shown : ℕ → String
shown n = "5"

-- Another timer is set.
abbrev loop : Loop
loop = record { clock = 100; timers = record { id = 1; due = 200; controller = 1 } ∷ [] }

fetch_with_timeout-ends_example :
    ((t : ℕ) × (settled : Settled Response) × ((fetch_with_timeout shown network "u" 5 2 2 6 loop
          ≡ some (described "u" "5" settled, record loop { clock = loop.clock + t }))
        × (Silent network 0 t × ((t < 5) × (network t ≡ some settled)))))
    ⊎ ((fetch_with_timeout shown network "u" 5 2 2 6 loop
          ≡ some (timed_out network shown "u" 5, record loop { clock = loop.clock + 5 }))
        × Silent network 0 5)
fetch_with_timeout-ends_example =
    fetch_with_timeout-ends network shown "u" 5 2 2 6 loop (omega arith) refl
