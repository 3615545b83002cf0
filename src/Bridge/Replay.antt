-- ===== src/Bridge/Replay.antt =====
-- What a relayed request may have done to the upstream, and what a success rests on.
use vero_audit_guard.Base.{
  ℕ, suc, ◌≡◌, refl, ◌∙◌, ◌⊎◌, inl, inr, Bool, true, false, Option, none, some, List, [], ◌∷◌,
  String, arith, length, take, Bool-cases, Option-cases, All, includes,
}
use vero_audit_guard.Bridge.Quorum.{verified, skipped, VerificationStatus, HasMajority}
use mathlib.Core.List.{Mem}
use vero_audit_guard.Bridge.Voters.{Fresh, identities}
use vero_audit_guard.Bridge.{
  Endpoint, Request, Error, Response, Options, is_replayable, has_empty_key, Sent, Verification,
  verdict, Attempt, respond, retry, votes, attempt, rounds, relay_from, relay,
}

module _ {A : Type 0} (execute : ℕ → Endpoint → Option A) (canonical : A → Option String)
    (identity : Request → Endpoint → String) (o : Options) (endpoints : List Endpoint) where
  attempt-once :
      (s : Sent) (r : Request) (last : VerificationStatus) (e : Endpoint)
      → is_replayable r ≡ false
      → (attempt execute canonical identity o endpoints s r last e).0 ≡ e ∷ s
  unfolding attempt
  attempt-once s r last e h = elim (Option-cases (execute (length s) e)) [
    | inl p ↦ rw (p, attempt) refl
    | inr (a, p) ↦ rw (p, attempt) (rw h (ground arith))
  ]

  abbrev pub Loop : Type 0
  Loop = Sent → Option Error → VerificationStatus → Sent × Response

  -- What a round makes of its attempt's outcome.
  abbrev pub round_of : Attempt → Sent → Loop → Sent × Response
  round_of (respond y) s next = (s, y)
  round_of (retry err last) s next = next s (some err) last

  pub rounds-suc :
      (r : Request) (e : Endpoint) (next : Loop) (n : ℕ) (s : Sent) (err : Option Error)
      (last : VerificationStatus)
      → let x = attempt execute canonical identity o endpoints s r last e in
        rounds execute canonical identity o endpoints r e next (suc n) s err last
        ≡ round_of (x.1) (x.0) (rounds execute canonical identity o endpoints r e next n)
  unfolding rounds
  rounds-suc r e next n s err last =
      round_lem (attempt execute canonical identity o endpoints s r last e).1
    where
      round_lem :
          (q : Attempt)
          → ◌≡◌ {A = Sent × Response}
              (elim q [
                | respond y ↦ ((attempt execute canonical identity o endpoints s r last e).0, y)
                | retry err' last' ↦
                    rounds execute canonical identity o endpoints r e next n
                      ((attempt execute canonical identity o endpoints s r last e).0)
                      (some err')
                      last'
              ])
              (round_of q
                ((attempt execute canonical identity o endpoints s r last e).0)
                (rounds execute canonical identity o endpoints r e next n))
      round_lem (respond y) = refl
      round_lem (retry x l) = refl

  round_of-sent :
      (q : Attempt) (s : Sent) (next : Loop)
      → ((x : Option Error) (l : VerificationStatus) → (next s x l).0 ≡ s)
      → (round_of q s next).0 ≡ s
  round_of-sent (respond y) s next k = refl
  round_of-sent (retry x l) s next k = k (some x) l

  rounds-once :
      (s : Sent) (r : Request) (e : Endpoint) (err : Option Error) (last : VerificationStatus)
      → is_replayable r ≡ false
      → (rounds execute canonical identity o endpoints r e
          (relay_from execute canonical identity o endpoints r 1 [])
          1
          s
          err
          last).0
        ≡ e ∷ s
  rounds-once s r e err last h =
      let next = relay_from execute canonical identity o endpoints r 1 [] in
      let x = attempt execute canonical identity o endpoints s r last e in
      rw (rounds-suc r e next 0 s err last) (
        round_of-sent (x.1) (x.0) (rounds execute canonical identity o endpoints r e next 0)
          (λ y l. unfold rounds relay_from in refl)
        ∙ attempt-once s r last e h)

  relay_from-once :
      (s : Sent) (r : Request) (es : List Endpoint)
      → is_replayable r ≡ false
      → ((relay_from execute canonical identity o endpoints r 1 (take 1 es) s none skipped).0 ≡ s)
        ⊎ ((e : Endpoint) × (take 1 es ≡ e ∷ [])
            × ((relay_from execute canonical identity o endpoints r 1 (take 1 es) s none skipped).0
                ≡ e ∷ s))
  unfolding relay_from
  relay_from-once s r [] h = inl refl
  relay_from-once s r (e ∷ es) h = inr (e, refl, rounds-once s r e none skipped h)

  -- A request that is not idempotent and has no idempotency key is sent upstream at most once,
  -- whatever the network does: to no endpoint at all or, once, to the first.
  pub relay-once :
      (s : Sent) (r : Request)
      → is_replayable r ≡ false
      → ((relay execute canonical identity o endpoints s r).0 ≡ s)
        ⊎ ((e : Endpoint) × (take 1 endpoints ≡ e ∷ [])
            × ((relay execute canonical identity o endpoints s r).0 ≡ e ∷ s))
  unfolding relay
  relay-once s r h = elim (Bool-cases (has_empty_key r)) [
    | inl k ↦ inl (rw k refl)
    | inr k ↦ simp (k, h) (relay_from-once s r endpoints h)
  ]

  -- The answer is that of the HTTP request it names. The other voters are endpoints of the list, with
  -- identities that are distinct from each other and from that of the request's endpoint, and every
  -- identity of the list is a voter's; a strict majority of all voters gave the same canonical text.
  pub record Confirmed (r : Request) (y : Response) : Type 0 where
    pub number : ℕ
    pub endpoint : Endpoint
    pub data_of : A
    pub text : String
    pub brought : execute number endpoint ≡ some data_of
    pub projected : canonical data_of ≡ some text
    pub voters : List Endpoint
    pub distinct : Fresh (identity r) (identity r endpoint ∷ []) voters
    pub listed : All (λ e. Mem e endpoints) voters
    pub all_asked :
        All
          (λ e. includes (identities (identity r) (endpoint ∷ voters)) (identity r e) ≡ true)
          endpoints
    pub majority :
        HasMajority text (votes execute canonical identity o endpoints (suc number) voters)
    pub numbered : y.data_of ≡ some number
    pub used : y.endpoint_used ≡ some endpoint

  abbrev SoundAttempt : Request → Attempt → Type 0
  SoundAttempt r (respond y) = y.success ≡ true → Confirmed r y
  SoundAttempt r (retry x l) = Unit

  abbrev SoundLoop : Request → Loop → Type 0
  SoundLoop r next =
      (s : Sent) (x : Option Error) (l : VerificationStatus)
      → (next s x l).1.success ≡ true
      → Confirmed r (next s x l).1

  abbrev verifies : Verification → Bool
  verifies (verdict verified x) = true
  verifies _ = false
