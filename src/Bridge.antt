-- ===== src/Bridge.antt =====
-- atomic-rpc-relayer-bridge/src/index.ts: relaying a request with failover, and verification of the
-- answer by the other endpoints. The network is a parameter: what the n-th HTTP request of the run,
-- to a given endpoint, brings (`none` is an exception); so are the projection with its canonical text
-- (`none` is an exception) and the identity of an endpoint's resolved URL. Latencies and times of the
-- response are left out. The concurrent requests to the secondaries are numbered in their order.
pub mod Quorum
pub mod Voters
pub mod Replay
pub mod Effort
mod Tests
use vero_audit_guard.Base.{
  ℕ, zero, suc, Bool, true, false, not, ◌&&◌, ◌||◌, Option, none, some, List, [], ◌∷◌, ◌++◌, String,
  ltb, if◌then◌else◌, length, take, str_eq, includes, is_blank,
}
use Quorum.{VerificationStatus, verified, failed, unavailable, skipped, Votes, tally}

pub record Endpoint : Type 0 where
  pub url : String
  pub priority : ℕ

pub data Method : Type 0 where
  get post put delete : Method

pub record Request : Type 0 where
  pub id : String
  pub method : Method
  pub idempotent : Bool
  pub idempotency_key : Option String

pub data Error : Type 0 where
  empty_key endpoint_failed no_secondary projection_failed no_quorum disagreement : Error
  all_failed : Error

pub record Response : Type 0 where
  pub request_id : String
  pub success : Bool
  -- The data's number: the HTTP request that brought it.
  pub data_of : Option ℕ
  pub error : Option Error
  pub endpoint_used : Option Endpoint
  pub verification_status : VerificationStatus

pub record Options : Type 0 where
  pub max_retries : ℕ
  pub require_atomic_verification : Bool

-- `sort((a, b) => b.priority - a.priority)`, which is stable.
insert_endpoint : Endpoint → List Endpoint → List Endpoint
insert_endpoint e [] = e ∷ []
insert_endpoint e (x ∷ xs) =
    if ltb e.priority x.priority || not (ltb x.priority e.priority)
    then x ∷ insert_endpoint e xs
    else e ∷ x ∷ xs

sort_from : List Endpoint → List Endpoint → List Endpoint
sort_from done [] = done
sort_from done (e ∷ es) = sort_from (insert_endpoint e done) es

pub sort_endpoints : List Endpoint → List Endpoint
sort_endpoints es = sort_from [] es

abbrev is_get : Method → Bool
is_get get = true
is_get _ = false

abbrev is_some {ℓ} : {A : Type ℓ} → Option A → Bool
is_some none = false
is_some (some a) = true

pub is_replayable : Request → Bool
is_replayable r = is_get r.method || r.idempotent || is_some r.idempotency_key

has_empty_key : Request → Bool
has_empty_key r = elim r.idempotency_key [ none ↦ false | some k ↦ is_blank k ]

-- The endpoints whose identity has not been seen, each identity once.
pub distinct_from : (Endpoint → String) → List String → List Endpoint → List Endpoint
distinct_from identity seen [] = []
distinct_from identity seen (e ∷ es) =
    if includes seen (identity e)
    then distinct_from identity seen es
    else e ∷ distinct_from identity (identity e ∷ seen) es

-- The requests sent so far, the last one first.
abbrev pub Sent : Type 0
Sent = List Endpoint

pub data Verification : Type 0 where
  verdict : VerificationStatus → Option Error → Verification

-- What one attempt leaves: an answer to return, or the loop goes on.
pub data Attempt : Type 0 where
  respond : Response → Attempt
  retry : Error → VerificationStatus → Attempt

module _ {A : Type 0} (execute : ℕ → Endpoint → Option A) (canonical : A → Option String)
    (identity : Request → Endpoint → String) (o : Options) (endpoints : List Endpoint) where
  -- `distinctSecondaryEndpoints`
  pub secondaries : Request → Endpoint → List Endpoint
  secondaries r e = distinct_from (identity r) (identity r e ∷ []) endpoints

  vote : ℕ → Endpoint → Option String
  vote n e = elim (execute n e) [ none ↦ none | some a ↦ canonical a ]

  -- The answers of the secondaries, asked as the requests `n`, `n + 1`, …
  pub votes : ℕ → List Endpoint → Votes
  votes n [] = []
  votes n (e ∷ es) = vote n e ∷ votes (suc n) es

  pub sent_to : Sent → List Endpoint → Sent
  sent_to s [] = s
  sent_to s (e ∷ es) = sent_to (e ∷ s) es

  abbrev explain : VerificationStatus → Verification
  explain failed = verdict failed (some disagreement)
  explain unavailable = verdict unavailable (some no_quorum)
  explain st = verdict st none

  judge : Sent → List Endpoint → Option String → Sent × Verification
  judge s [] primary = (s, verdict unavailable (some no_secondary))
  judge s (e ∷ es) none = (s, verdict unavailable (some projection_failed))
  judge s (e ∷ es) (some p) = (sent_to s (e ∷ es), explain (tally p (votes (length s) (e ∷ es))))

  pub verify_atomicity : Sent → Request → A → Endpoint → Sent × Verification
  verify_atomicity s r a e = judge s (secondaries r e) (canonical a)

  answer :
      Request → Bool → Option ℕ → Option Error → Option Endpoint → VerificationStatus → Response
  answer r success n err e st = record {
    request_id = r.id;
    success = success;
    data_of = n;
    error = err;
    endpoint_used = e;
    verification_status = st;
  }

  conclude : Request → Endpoint → ℕ → Verification → Attempt
  conclude r e n (verdict verified err) = respond (answer r true (some n) none (some e) verified)
  conclude r e n (verdict unavailable err) = respond (answer r false none err (some e) unavailable)
  conclude r e n (verdict st err) = retry disagreement st

  -- The body of the `while` loop.
  pub attempt : Sent → Request → VerificationStatus → Endpoint → Sent × Attempt
  attempt s r last e = elim (execute (length s) e) [
    | none ↦ (e ∷ s, retry endpoint_failed last)
    | some a ↦
        if not o.require_atomic_verification || not (is_replayable r)
        then (e ∷ s, respond (answer r true (some (length s)) none (some e) skipped))
        else let checked = verify_atomicity (e ∷ s) r a e in
          (checked.0, conclude r e (length s) checked.1)
  ]

  abbrev Loop : Type 0
  Loop = Sent → Option Error → VerificationStatus → Sent × Response

  -- The rounds left on one endpoint; then what follows, with the last error and verdict.
  pub rounds : Request → Endpoint → Loop → ℕ → Loop
  rounds r e next zero s err last = next s err last
  rounds r e next (suc n) s err last =
      let x = attempt s r last e in
      elim (x.1) [
        | respond y ↦ (x.0, y)
        | retry err' last' ↦ rounds r e next n (x.0) (some err') last'
      ]

  abbrev last_error : Option Error → Error
  last_error none = all_failed
  last_error (some x) = x

  pub relay_from : Request → ℕ → List Endpoint → Loop
  relay_from r attempts [] s err last = (s, answer r false none (some (last_error err)) none last)
  relay_from r attempts (e ∷ es) s err last =
      rounds r e (relay_from r attempts es) attempts s err last

  pub relay : Sent → Request → Sent × Response
  relay s r =
      if has_empty_key r
      then (s, answer r false none (some empty_key) none skipped)
      else if is_replayable r
      then relay_from r o.max_retries endpoints s none skipped
      else relay_from r 1 (take 1 endpoints) s none skipped

  -- `recordResponse`: the audit log grows by the response of each call.
  pub relay_logged : Sent × List Response → Request → (Sent × List Response) × Response
  relay_logged (s, log) r = let x = relay s r in ((x.0, log ++ x.1 ∷ []), x.1)
