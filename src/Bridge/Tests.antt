-- ===== src/Bridge/Tests.antt =====
-- Runs of the bridge, and instances of its theorems.
use vero_audit_guard.Base.{
  ℕ, zero, suc, ◌≡◌, refl, ◌⊎◌, ◌↔◌, true, false, Option, none, some, List, [], ◌∷◌, String, take,
  length, suc, ◌≤◌, ◌+◌, ◌*◌,
}
use vero_audit_guard.Bridge.Quorum.{failed, Votes, Completes, tally, HasMajority, tally-failed_iff}
use vero_audit_guard.Bridge.Effort.{relay-le}
use vero_audit_guard.Bridge.Replay.{relay-once}
use vero_audit_guard.Bridge.{
  Endpoint, get, post, Request, Options, is_replayable, sort_endpoints, distinct_from, relay,
  relay_from, rounds, attempt, verify_atomicity, judge, conclude, answer, secondaries, votes, vote,
  sent_to, has_empty_key, sort_from, insert_endpoint,
}

abbrev first : Endpoint
first = record { url = "https://a"; priority = 1 }

abbrev second : Endpoint
second = record { url = "https://b"; priority = 5 }

abbrev both : List Endpoint
both = second ∷ first ∷ []

abbrev strict : Options
strict = record { max_retries = 3; require_atomic_verification = true }

-- The first HTTP request of a run fails, the others bring "x".
abbrev flaky : ℕ → Endpoint → Option String
flaky zero e = none
flaky (suc n) e = some "x"

abbrev as_is : String → Option String
as_is s = some s

abbrev by_url : Request → Endpoint → String
by_url r e = e.url

abbrev read : Request
read = record { id = "r"; method = get; idempotent = false; idempotency_key = none }

abbrev write : Request
write = record { id = "w"; method = post; idempotent = false; idempotency_key = none }

bridge : Unit {0}
unfolding relay relay_from rounds attempt verify_atomicity judge conclude answer secondaries
    distinct_from votes vote sent_to tally is_replayable has_empty_key sort_endpoints sort_from
    insert_endpoint
bridge = tt

relay_tests :
    ((relay flaky as_is by_url strict both [] read).1.success ≡ true)
    × ((relay flaky as_is by_url strict both [] read).1.data_of ≡ some 1)
    × (length (relay flaky as_is by_url strict both [] read).0 ≡ 3)
    × ((relay flaky as_is by_url strict both [] write).1.success ≡ false)
    × ((relay flaky as_is by_url strict both [] write).0 ≡ second ∷ [])
    × (sort_endpoints (first ∷ second ∷ []) ≡ both)
unfolding bridge
relay_tests = (refl, refl, refl, refl, refl, refl)

tally-failed_iff_example :
    (tally "x" (some "y" ∷ none ∷ []) ≡ failed)
    ↔ ((ws : Votes) → Completes (some "y" ∷ none ∷ []) ws → ¬ HasMajority "x" ws)
tally-failed_iff_example = tally-failed_iff "x" (some "y" ∷ none ∷ [])

relay-once_example :
    ((relay flaky as_is by_url strict both [] write).0 ≡ [])
    ⊎ ((e : Endpoint) × (take 1 both ≡ e ∷ [])
        × ((relay flaky as_is by_url strict both [] write).0 ≡ e ∷ []))
unfolding is_replayable
relay-once_example = relay-once flaky as_is by_url strict both [] write refl

relay-le_example : length (relay flaky as_is by_url strict both [] read).0 ≤ 0 + 2 * (3 * suc 2)
unfolding is_replayable
relay-le_example = relay-le flaky as_is by_url strict both [] read refl
