-- ===== src/Bridge/Quorum.antt =====
-- atomic-rpc-relayer-bridge/src/index.ts, the count of `verifyAtomicity`: the primary's answer against
-- the answers of the secondary endpoints, of which `none` is one that could not be had.
use vero_audit_guard.Base.{
  ℕ, suc, ◌+◌, ◌*◌, ◌/◌, ◌≤◌, ◌<◌, ◌≡◌, refl, ◌↔◌, Option, none, some, List, [], ◌∷◌, String, arith,
  leb, if◌then◌else◌, length, str_eq, eq_iff,
}

pub data VerificationStatus : Type 0 where
  verified failed unavailable skipped : VerificationStatus

-- A secondary's canonical answer.
abbrev pub Votes : Type 0
Votes = List (Option String)

abbrev agrees : String → Option String → ℕ
agrees primary none = 0
agrees primary (some v) = if str_eq v primary then 1 else 0

abbrev absent : Option String → ℕ
absent none = 1
absent (some v) = 0

-- `matchingVotes`, without the primary's own, and `unavailableVotes`.
abbrev pub matching : String → Votes → ℕ
matching primary [] = 0
matching primary (v ∷ vs) = agrees primary v + matching primary vs

abbrev pub missing : Votes → ℕ
missing [] = 0
missing (v ∷ vs) = absent v + missing vs

unfoldable pub tally : String → Votes → VerificationStatus
tally primary votes =
    let required = suc (length votes) / 2 + 1 in
    if leb required (suc (matching primary votes))
    then verified
    else if leb required (suc (matching primary votes) + missing votes)
    then unavailable
    else failed

-- More than half of the voters, the primary among them, gave the primary's answer.
abbrev pub HasMajority : String → Votes → Type 0
HasMajority primary votes = suc (length votes) < 2 * suc (matching primary votes)

-- `full` is `votes` with an answer, whichever, in place of each missing one.
pub data Completes : Votes → Votes → Type 0 where
  nil : Completes [] []
  given : {v : String} {vs ws : Votes} → Completes vs ws → Completes (some v ∷ vs) (some v ∷ ws)
  filled : {v : String} {vs ws : Votes} → Completes vs ws → Completes (none ∷ vs) (some v ∷ ws)

length-Completes : {vs ws : Votes} → Completes vs ws → length ws ≡ length vs
length-Completes nil = refl
length-Completes (given c) = omega (arith, length-Completes c)
length-Completes (filled c) = omega (arith, length-Completes c)

matching-Completes-le :
    (p : String) {vs ws : Votes} → Completes vs ws → matching p ws ≤ matching p vs + missing vs
matching-Completes-le p nil = omega arith
matching-Completes-le p (given c) = omega (arith, matching-Completes-le p c)
matching-Completes-le p (filled {v} c) = ground (arith, matching-Completes-le p c)

-- Every missing answer as one text.
fill : String → Votes → Votes
fill p [] = []
fill p (none ∷ vs) = some p ∷ fill p vs
fill p (some v ∷ vs) = some v ∷ fill p vs

fill-Completes : (p : String) (vs : Votes) → Completes vs (fill p vs)
unfolding fill
fill-Completes p [] = nil
fill-Completes p (none ∷ vs) = filled (fill-Completes p vs)
fill-Completes p (some v ∷ vs) = given (fill-Completes p vs)

matching-fill : (p : String) (vs : Votes) → matching p (fill p vs) ≡ matching p vs + missing vs
unfolding fill
matching-fill p [] = omega arith
matching-fill p (none ∷ vs) = ground (arith, eq_iff p p, matching-fill p vs)
matching-fill p (some v ∷ vs) = omega (arith, matching-fill p vs)

-- The verdict is "verified" exactly if a strict majority of all voters gave the primary's answer.
pub tally-verified_iff : (p : String) (vs : Votes) → (tally p vs ≡ verified) ↔ HasMajority p vs
unfolding tally
tally-verified_iff p vs = (λ h. ground arith, λ h. ground arith)

tally-failed :
    (p : String) (vs : Votes)
    → (tally p vs ≡ failed) ↔ (2 * (suc (matching p vs) + missing vs) ≤ suc (length vs))
unfolding tally
tally-failed p vs = (λ h. ground arith, λ h. ground arith)

-- The verdict is "failed" exactly if the primary has no majority however the missing voters would
-- have answered.
pub tally-failed_iff :
    (p : String) (vs : Votes)
    → (tally p vs ≡ failed) ↔ ((ws : Votes) → Completes vs ws → ¬ HasMajority p ws)
tally-failed_iff p vs = (
  λ h ws c m.
      let b = (tally-failed p vs).0 h in
      absurd (omega (arith, length-Completes c, matching-Completes-le p c)),
  λ h.
      let c = fill-Completes p vs in
      let n = h (fill p vs) c in
      (tally-failed p vs).1 (omega (arith, length-Completes c, matching-fill p vs)),
)
