-- ===== src/Bridge/Effort.antt =====
-- How many HTTP requests one relayed request can cost.
use vero_audit_guard.Base.{
  ℕ, zero, suc, ◌+◌, ◌*◌, ◌≤◌, ◌≡◌, inl, inr, true, not, ◌||◌, Option, none, some, List, [], ◌∷◌,
  String, arith, length, Bool-cases, Option-cases,
}
use vero_audit_guard.Bridge.Quorum.{VerificationStatus, skipped}
use vero_audit_guard.Bridge.Replay.{round_of, rounds-suc}
use vero_audit_guard.Bridge.{
  Endpoint, Request, Error, Options, is_replayable, has_empty_key, distinct_from, Sent, Attempt,
  respond, retry, secondaries, sent_to, judge, verify_atomicity, attempt, rounds, relay_from, relay,
  Loop,
}

length-distinct_from-le :
    (identity : Endpoint → String) (seen : List String) (es : List Endpoint)
    → length (distinct_from identity seen es) ≤ length es
unfolding distinct_from
length-distinct_from-le identity seen [] = omega arith
length-distinct_from-le identity seen (e ∷ es) = ground (
  arith,
  length-distinct_from-le identity seen es,
  length-distinct_from-le identity (identity e ∷ seen) es,
)

module _ {A : Type 0} (execute : ℕ → Endpoint → Option A) (canonical : A → Option String)
    (identity : Request → Endpoint → String) (o : Options) (endpoints : List Endpoint) where
  length-sent_to :
      (s : Sent) (es : List Endpoint)
      → length (sent_to execute canonical identity o endpoints s es) ≡ length s + length es
  unfolding sent_to
  length-sent_to s [] = omega arith
  length-sent_to s (e ∷ es) = omega (arith, length-sent_to (e ∷ s) es)

  length-judge-le :
      (s : Sent) (es : List Endpoint) (p : Option String)
      → length (judge execute canonical identity o endpoints s es p).0 ≤ length s + length es
  unfolding judge
  length-judge-le s [] p = omega arith
  length-judge-le s (e ∷ es) none = omega arith
  length-judge-le s (e ∷ es) (some p) = omega (arith, length-sent_to s (e ∷ es))

  length-attempt-le :
      (s : Sent) (r : Request) (last : VerificationStatus) (e : Endpoint)
      → length (attempt execute canonical identity o endpoints s r last e).0
        ≤ length s + suc (length endpoints)
  unfolding attempt verify_atomicity secondaries
  length-attempt-le s r last e = elim (Option-cases (execute (length s) e)) [
    | inl p ↦ rw (p, attempt) (omega arith)
    | inr (a, p) ↦
        let es = distinct_from (identity r) (identity r e ∷ []) endpoints in
        let d = length-distinct_from-le (identity r) (identity r e ∷ []) endpoints in
        let j = length-judge-le (e ∷ s) es (canonical a) in
        rw (p, attempt)
          (elim (Bool-cases (not o.require_atomic_verification || not (is_replayable r))) [
            | inl b ↦ rw b (omega arith)
            | inr b ↦ rw b (omega (arith, d, j))
          ])
  ]

  -- At most `k` requests, whatever has been sent before.
  abbrev Costs : ℕ → Loop execute canonical identity o endpoints → Type 0
  Costs k next =
      (s : Sent) (x : Option Error) (l : VerificationStatus) → length (next s x l).0 ≤ length s + k

  round_of-le :
      (k : ℕ) (q : Attempt) (s : Sent) (next : Loop execute canonical identity o endpoints)
      → Costs k next
      → length (round_of execute canonical identity o endpoints q s next).0 ≤ length s + k
  round_of-le k (respond y) s next h = omega arith
  round_of-le k (retry x l) s next h = h s (some x) l

  rounds-Costs :
      (k : ℕ) (r : Request) (e : Endpoint) (next : Loop execute canonical identity o endpoints)
      (n : ℕ)
      → Costs k next
      → Costs
          (n * suc (length endpoints) + k)
          (rounds execute canonical identity o endpoints r e next n)
  rounds-Costs k r e next zero h s x l = unfold rounds in (let c = h s x l in omega (arith, c))
  rounds-Costs k r e next (suc n) h s x l =
      let q = attempt execute canonical identity o endpoints s r l e in
      let a = length-attempt-le s r l e in
      let rest =
        round_of-le (n * suc (length endpoints) + k) (q.1) (q.0)
          (rounds execute canonical identity o endpoints r e next n)
          (rounds-Costs k r e next n h) in
      rw (rounds-suc execute canonical identity o endpoints r e next n s x l)
        (omega (arith, a, rest))

  relay_from-Costs :
      (r : Request) (n : ℕ) (es : List Endpoint)
      → Costs
          (length es * (n * suc (length endpoints)))
          (relay_from execute canonical identity o endpoints r n es)
  unfolding relay_from
  relay_from-Costs r n [] = λ s x l. omega arith
  relay_from-Costs r n (e ∷ es) = λ s x l.
      let rest =
        rounds-Costs (length es * (n * suc (length endpoints))) r e
          (relay_from execute canonical identity o endpoints r n es) n (relay_from-Costs r n es) s x
          l in
      omega (arith, rest)

  -- The loop is bounded: a replayable request costs at most one request and one for each voter, for
  -- each retry at each endpoint, whatever the network does.
  pub relay-le :
      (s : Sent) (r : Request)
      → is_replayable r ≡ true
      → length (relay execute canonical identity o endpoints s r).0
        ≤ length s + length endpoints * (o.max_retries * suc (length endpoints))
  unfolding relay
  relay-le s r h = elim (Bool-cases (has_empty_key r)) [
    | inl k ↦ rw k (omega arith)
    | inr k ↦ simp (k, h) (relay_from-Costs r o.max_retries endpoints s none skipped)
  ]
