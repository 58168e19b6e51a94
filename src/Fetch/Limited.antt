-- ===== src/Fetch/Limited.antt =====
-- A request with a time limit ends in time, and leaves no timer behind.
use gpg_signing_service.Common.{
  ℕ, zero, suc, ◌+◌, ◌≤◌, ◌<◌, String, ◌≡◌, refl, ◌∙◌, ap, true, Option, none, some, List, [], ◌∷◌,
  ◌⊎◌, inl, inr, eqb, keep, ◌+s◌, Option-cases, Bool-cases, arith, all, any, not, ◌&&◌, leb, false,
}
use mathlib.Core.Path.{subst}
use gpg_signing_service.Fetch.{
  error, Settled, rejected, Loop, Timer, other_timer, set_timeout, aborts, is_aborted, abort_error,
  awaited, described, finished, fetch_with_timeout,
}

-- Neither the timer nor the controller is in use.
abbrev pub IsNew : (timer controller : ℕ) → List Timer → Type 0
IsNew timer controller timers =
    all (λ t. other_timer timer t && not (eqb controller t.controller)) timers ≡ true

keep-new :
    (timer controller : ℕ) (timers : List Timer)
    → IsNew timer controller timers
    → keep (other_timer timer) timers ≡ timers
keep-new timer controller [] h = refl
keep-new timer controller (t ∷ timers) h = ground (arith, keep-new timer controller timers)

-- Only the timer that is set for a new controller aborts it.
any-aborts :
    (timer controller now : ℕ) (timers : List Timer)
    → IsNew timer controller timers
    → any (aborts controller now) timers ≡ false
any-aborts timer controller now [] h = refl
any-aborts timer controller now (t ∷ timers) h =
    ground (arith, any-aborts timer controller now timers)

module _ {A : Type 0} (network : ℕ → Option (Settled A)) where
  -- The platform knows nothing of the request before the time.
  abbrev pub Silent : (from till : ℕ) → Type 0
  Silent from till = (t : ℕ) → from ≤ t → t < till → network t ≡ none

  Silent-suc :
      (passed end : ℕ) → network passed ≡ none → Silent (suc passed) end → Silent passed end
  Silent-suc passed end e h t le lt = elim (Bool-cases (eqb passed t)) [
    | inl same ↦
        let equal : passed ≡ t = ground (arith, same) in subst (λ x. network x ≡ none) equal e
    | inr later ↦ let after : suc passed ≤ t = ground (arith, later, le) in h t after lt
  ]

  -- A wait that begins at `start` for at most `limit`, by timers that abort the controller then.
  module _ (start limit controller : ℕ) (timers : List Timer)
      (due : (now : ℕ) → any (aborts controller now) timers ≡ leb (start + limit) now) where
    abbrev at : ℕ → Loop
    at passed = record { clock = start + passed; timers = timers }

    -- What the wait comes to: the first thing that the platform knows, in time, or the abortion at the limit.
    abbrev Waited : (passed : ℕ) → Option (Settled A × Loop) → Type 0
    Waited passed waited =
        ((end : ℕ) × (settled : Settled A) × ((waited ≡ some (settled, at end))
            × (Silent passed end × ((end < limit) × (network end ≡ some settled)))))
        ⊎ ((waited ≡ some (rejected abort_error, at limit)) × Silent passed limit)

    not_yet :
        (passed left : ℕ)
        → passed + suc left ≡ limit
        → is_aborted (some controller) (at passed) ≡ false
    not_yet passed left e = due (start + passed) ∙ ground (arith, e)

    awaited-Waited :
        (left passed fuel : ℕ)
        → passed + left ≡ limit
        → left < fuel
        → Waited passed (awaited network (some controller) fuel passed (at passed))
    unfolding awaited
    awaited-Waited left passed zero e enough = absurd (omega (arith, enough))
    awaited-Waited zero passed (suc fuel) e enough =
        let same : passed ≡ limit = omega (arith, e) in
        let now : is_aborted (some controller) (at passed) ≡ true =
          due (start + passed) ∙ ground (arith, same) in
        inr (
          rw (now, awaited) (ap (λ p. some (rejected abort_error, at p)) same),
          λ t le lt. absurd (omega (arith, le, lt, same)),
        )
    awaited-Waited (suc left) passed (suc fuel) e enough = elim (Option-cases (network passed)) [
      | inr (settled, known) ↦ inl (
        passed,
        settled,
        (
          rw (not_yet passed left e, known, awaited) refl,
          (λ t le lt. absurd (omega (arith, le, lt)), (omega (arith, e), known)),
        ),
      )
      | inl silent ↦
          let ticked : suc (start + passed) ≡ start + suc passed = omega arith in
          let next : awaited network (some controller) (suc fuel) passed (at passed)
              ≡ awaited network (some controller) fuel (suc passed) (at (suc passed)) =
            rw (not_yet passed left e, silent, awaited) refl
            ∙ ap
                (λ (n : ℕ).
                  awaited network (some controller) fuel (suc passed)
                    (record { clock = n; timers = timers }))
                ticked in
          let rest =
            awaited-Waited left (suc passed) fuel (omega (arith, e)) (omega (arith, enough)) in
          elim rest [
            | inl (end, settled, (same, (quiet, (lt, known)))) ↦
                inl (end, settled, (next ∙ same, (Silent-suc passed end silent quiet, (lt, known))))
            | inr (same, quiet) ↦ inr (next ∙ same, Silent-suc passed limit silent quiet)
          ]
    ]

  abbrev pub timed_out : (shown : ℕ → String) → (url : String) → (timeout_ms : ℕ) → Settled A
  timed_out shown url timeout_ms = rejected (
      error "Error" ("Request to " +s (url +s (" timed out after " +s (shown timeout_ms +s "ms")))))

  -- With fuel for more milliseconds than its time limit has, `fetchWithTimeout` ends, and leaves the timers as they were.
  -- Either the platform came to know how the request ends before the limit, and the promise settles at that moment, in
  -- that way but for an abortion from elsewhere; or the platform knew nothing in all that time, and at the limit the
  -- promise is rejected with the message of the time limit. The timer and the controller are new.
  pub fetch_with_timeout-ends :
      (shown : ℕ → String) (url : String) (timeout_ms timer controller fuel : ℕ) (loop : Loop)
      → timeout_ms < fuel
      → IsNew timer controller loop.timers
      → ((t : ℕ) × (settled : Settled A) × ((fetch_with_timeout shown network url timeout_ms timer
                controller fuel loop
              ≡ some (
                described url (shown timeout_ms) settled,
                record loop { clock = loop.clock + t },
              ))
            × (Silent 0 t × ((t < timeout_ms) × (network t ≡ some settled)))))
        ⊎ ((fetch_with_timeout shown network url timeout_ms timer controller fuel loop
              ≡ some
                  (timed_out shown url timeout_ms, record loop { clock = loop.clock + timeout_ms }))
            × Silent 0 timeout_ms)
  unfolding fetch_with_timeout
  fetch_with_timeout-ends shown url timeout_ms timer controller fuel loop enough new =
      let set : Timer = record {
        id = timer;
        due = loop.clock + timeout_ms;
        controller = controller;
      } in
      let due : (now : ℕ)
          → any (aborts controller now) (set ∷ loop.timers) ≡ leb (loop.clock + timeout_ms) now =
        λ now. ground (arith, any-aborts timer controller now loop.timers new) in
      let cleared : keep (other_timer timer) (set ∷ loop.timers) ≡ loop.timers =
        ground (arith, keep-new timer controller loop.timers new) in
      let started : at loop.clock timeout_ms controller (set ∷ loop.timers) due 0
          ≡ set_timeout timer controller timeout_ms loop =
        let same : loop.clock + 0 ≡ loop.clock = omega arith in
        ap (λ (n : ℕ). record { clock = n; timers = set ∷ loop.timers }) same in
      let waited =
        subst
          (λ l.
            Waited loop.clock timeout_ms controller (set ∷ loop.timers) due 0
              (awaited network (some controller) fuel 0 l))
          started
          (awaited-Waited loop.clock timeout_ms controller (set ∷ loop.timers) due timeout_ms 0 fuel
            (omega arith) enough) in
      elim waited [
        | inl (t, settled, (same, rest)) ↦ inl (
          t,
          settled,
          (
            ap (finished url (shown timeout_ms) timer) same
                ∙ ap
                    (λ ts. some (
                      described url (shown timeout_ms) settled,
                      record { clock = loop.clock + t; timers = ts },
                    ))
                    cleared,
            rest,
          ),
        )
        | inr (same, quiet) ↦ inr (
          ap (finished url (shown timeout_ms) timer) same
              ∙ ap
                  (λ ts. some (
                    timed_out shown url timeout_ms,
                    record { clock = loop.clock + timeout_ms; timers = ts },
                  ))
                  cleared,
          quiet,
        )
      ]
