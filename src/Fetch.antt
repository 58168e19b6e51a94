-- ===== src/Fetch.antt =====
-- utils/fetch.ts: a request with a time limit. The event loop is a clock in milliseconds with the timers that are set;
-- what the platform knows of the request is a function of the time that has passed since its start.
pub mod Limited
mod Tests
use gpg_signing_service.Common.{
  ℕ, zero, suc, ◌+◌, String, Bool, true, false, Option, none, some, List, [], ◌∷◌, ◌&&◌, eqb, not,
  if◌then◌else◌, leb, any, keep, ◌+s◌, ◌==◌,
}

-- What is thrown: an `Error` with its name, or something else.
pub data Thrown : Type 0 where
  error : (name message : String) → Thrown
  other : String → Thrown

-- How a promise settles.
pub data Settled (A : Type 0) : Type 0 where
  resolved : A → Settled A
  rejected : Thrown → Settled A

-- A timer: its identifier, the time at which it is due, and the controller that its callback aborts.
pub record Timer : Type 0 where
  pub id : ℕ
  pub due : ℕ
  pub controller : ℕ

-- The event loop: the time, and the timers that have been set and not been cleared.
pub record Loop : Type 0 where
  pub clock : ℕ
  pub timers : List Timer

-- `setTimeout(() => { controller.abort(); }, ms)`
abbrev pub set_timeout : (id controller : ℕ) → (ms : ℕ) → Loop → Loop
set_timeout id controller ms loop = record loop {
  timers = record { id = id; due = loop.clock + ms; controller = controller } ∷ loop.timers;
}

abbrev pub other_timer : ℕ → Timer → Bool
other_timer id t = not (eqb id t.id)

abbrev pub clear_timeout : (id : ℕ) → Loop → Loop
clear_timeout id loop = record loop { timers = keep (other_timer id) loop.timers }

-- By the time, the timer has aborted the controller.
abbrev pub aborts : (controller now : ℕ) → Timer → Bool
aborts controller now t = eqb controller t.controller && leb t.due now

-- Whether the signal of a request, if it has one, is aborted.
abbrev pub is_aborted : (signal : Option ℕ) → Loop → Bool
is_aborted none loop = false
is_aborted (some controller) loop = any (aborts controller loop.clock) loop.timers

-- the error with which `fetch` rejects when its signal is aborted
abbrev pub abort_error : Thrown
abort_error = error "AbortError" "The operation was aborted"

module _ {A : Type 0} where
  -- `await fetch(url, { signal })`, millisecond by millisecond: it rejects as soon as the signal is aborted, and settles
  -- as soon as the platform knows how. Without a signal that is aborted nothing bounds the wait, so that it has fuel;
  -- there is no result if the fuel is used up.
  unfoldable pub awaited :
      (network : ℕ → Option (Settled A))
      → (signal : Option ℕ) → (fuel passed : ℕ) → Loop
      → Option (Settled A × Loop)
  awaited network signal zero passed loop = none
  awaited network signal (suc fuel) passed loop = elim (is_aborted signal loop) [
    | true ↦ some (rejected abort_error, loop)
    | false ↦ elim (network passed) [
      | some settled ↦ some (settled, loop)
      | none ↦ awaited network signal fuel (suc passed) (record loop { clock = suc loop.clock })
    ]
  ]

  -- the `catch`
  abbrev pub described : (url shown_ms : String) → Settled A → Settled A
  described url shown_ms (resolved response) = resolved response
  described url shown_ms (rejected (other value)) = rejected (other value)
  described url shown_ms (rejected (error name message)) =
      if name == "AbortError"
      then rejected
          (error "Error" ("Request to " +s (url +s (" timed out after " +s (shown_ms +s "ms")))))
      else rejected (error name message)

  -- the `catch` and the `finally`
  abbrev pub finished :
      (url shown_ms : String) → (timer : ℕ) → Option (Settled A × Loop) → Option (Settled A × Loop)
  finished url shown_ms timer none = none
  finished url shown_ms timer (some (settled, loop)) =
      some (described url shown_ms settled, clear_timeout timer loop)

  -- `fetchWithTimeout`; `shown` writes a number, and the timer and the controller are new.
  unfoldable pub fetch_with_timeout :
      (shown : ℕ → String)
      → (network : ℕ → Option (Settled A)) → (url : String) → (timeout_ms : ℕ)
      → (timer controller : ℕ) → (fuel : ℕ) → Loop
      → Option (Settled A × Loop)
  unfolding awaited
  fetch_with_timeout shown network url timeout_ms timer controller fuel loop =
      finished url (shown timeout_ms) timer
        (awaited network (some controller) fuel 0 (set_timeout timer controller timeout_ms loop))

pub record Response : Type 0 where
  pub is_ok : Bool
  pub status : ℕ
  pub status_text : String
  -- the body as JSON, or what reading it throws
  pub json : Settled String

-- after the response of `fetchJsonWithTimeout`
abbrev pub json_of : (shown : ℕ → String) → Settled Response → Settled String
json_of shown (rejected thrown) = rejected thrown
json_of shown (resolved response) =
    if response.is_ok
    then response.json
    else rejected
        (error "Error" ("HTTP " +s (shown response.status +s (": " +s response.status_text))))

abbrev pub json_finished :
    (shown : ℕ → String) → Option (Settled Response × Loop) → Option (Settled String × Loop)
json_finished shown none = none
json_finished shown (some (settled, loop)) = some (json_of shown settled, loop)

-- `fetchJsonWithTimeout`
unfoldable pub fetch_json_with_timeout :
    (shown : ℕ → String)
    → (network : ℕ → Option (Settled Response)) → (url : String) → (timeout_ms : ℕ)
    → (timer controller : ℕ) → (fuel : ℕ) → Loop
    → Option (Settled String × Loop)
unfolding fetch_with_timeout
fetch_json_with_timeout shown network url timeout_ms timer controller fuel loop =
    json_finished shown (fetch_with_timeout shown network url timeout_ms timer controller fuel loop)
