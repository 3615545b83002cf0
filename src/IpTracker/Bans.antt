-- ===== src/IpTracker/Bans.antt =====
-- How long a refused address stays banned.
use vero_audit_guard.Base.{
  ℕ, String, List, Option, none, some, true, false, ltb, length, ◌++◌, ◌∷◌, [], ◌+◌, ◌≤◌, ◌≡◌, refl,
  ap, ◌∙◌, inl, inr, Bool-cases, arith, eq_iff,
}
use vero_audit_guard.Base.Dict.{Dict, lookup, insert, delete, has, lookup-insert, lookup-delete}
use vero_audit_guard.Base.Keys.{has-delete_self}
use mathlib.Core.Path.{subst}
use vero_audit_guard.Base.{sym, All, if◌then◌else◌, str_eq}
use vero_audit_guard.IpTracker.{
  get_request_count, unban, recent, or_none, IpTracker, sweep, sweep_bans, evict, enforce_caps, ban,
  count_request, record_request, is_banned, is_banned_by, record_by,
}

lookup-sweep_bans :
    (now : ℕ) (k : String) (m : Dict ℕ) (e : ℕ)
    → now ≤ e
    → lookup k m ≡ some e
    → lookup k (sweep_bans now m) ≡ some e
unfolding lookup sweep_bans
lookup-sweep_bans now k [] e l h = h
lookup-sweep_bans now k ((j, w) ∷ m) e l h =
    ground (arith, eq_iff j k, lookup-sweep_bans now k m e l)

lookup-evict :
    (max : ℕ) (k : String) (v : ℕ) (m : Dict ℕ)
    → 1 ≤ max
    → has k m ≡ false
    → lookup k (evict max (insert k v m)) ≡ some v
unfolding lookup evict insert has
lookup-evict max k v [] l h = ground (arith, eq_iff k k)
lookup-evict max k v ((j, w) ∷ m) l h =
    ground (arith, eq_iff j k, eq_iff k k, lookup-evict max k v m l, lookup-insert k k m v)

-- Up to its expiry.
is_banned-true :
    (t : IpTracker) (ip : String) (e later : ℕ)
    → lookup ip t.ban_list ≡ some e
    → later ≤ e
    → (is_banned t ip later).1 ≡ true
unfolding is_banned sweep is_banned_by
is_banned-true t ip e later h l =
    let q = lookup-sweep_bans later ip t.ban_list e l h in
    ap (λ o. (is_banned_by (sweep t later) ip later o).1) q ∙ ground (arith, l)

lookup-ban :
    (t : IpTracker) (ip : String) (now : ℕ)
    → 1 ≤ t.max_tracked_ips
    → lookup ip (ban t ip now).ban_list ≡ some (now + t.ban_ttl)
unfolding ban enforce_caps
lookup-ban t ip now m =
    lookup-evict t.max_tracked_ips ip (now + t.ban_ttl) (delete ip t.ban_list) m
      (has-delete_self ip t.ban_list)

count_request-refused :
    (t : IpTracker) (ip : String) (now : ℕ)
    → 1 ≤ t.max_tracked_ips
    → (count_request t ip now).1 ≡ false
    → lookup ip (count_request t ip now).0.ban_list ≡ some (now + t.ban_ttl)
unfolding count_request enforce_caps
count_request-refused t ip now m r = elim (Bool-cases (ltb t.max_req_per_min (length timestamps))) [
  | inl b ↦ rw b (lookup-ban counted ip now m)
  | inr b ↦ absurd (ground (arith, r, b))
]
  where
    timestamps : List ℕ
    timestamps = recent now (or_none (lookup ip t.requests)) ++ now ∷ []

    counted : IpTracker
    counted = enforce_caps (record t { requests = insert ip timestamps (delete ip t.requests) })

-- The expiry that a refusal leaves on the list: that of a ban in force, or else that of a new one.
abbrev expiry_by : (now ttl : ℕ) → Option ℕ → ℕ
expiry_by now ttl none = now + ttl
expiry_by now ttl (some x) = if ltb x now then now + ttl else x

abbrev pub ban_end : IpTracker → String → (now : ℕ) → ℕ
ban_end t ip now = expiry_by now t.ban_ttl (lookup ip (sweep t now).ban_list)

record_by-refused :
    (t : IpTracker) (ip : String) (now : ℕ) (o : Option ℕ)
    → 1 ≤ t.max_tracked_ips
    → lookup ip t.ban_list ≡ o
    → (record_by t ip now o).1 ≡ false
    → lookup ip (record_by t ip now o).0.ban_list ≡ some (expiry_by now t.ban_ttl o)
unfolding record_by
record_by-refused t ip now none m e r = count_request-refused t ip now m r
record_by-refused t ip now (some x) m e r = elim (Bool-cases (ltb x now)) [
  | inl b ↦
      let unbanned = record t { ban_list = delete ip t.ban_list } in
      let r' : (count_request unbanned ip now).1 ≡ false = ground (arith, b, r) in
      rw b (count_request-refused unbanned ip now m r')
  | inr b ↦ rw b e
]

-- The calls that a ban outlasts: checks and counts of any address, requests of the banned address
-- itself, and the lifting of another address's ban.
pub data Call : Type 0 where
  checks : String → (now : ℕ) → Call
  counts : String → (now : ℕ) → Call
  retries : (now : ℕ) → Call
  lifts : String → Call

unfoldable pub step : String → IpTracker → Call → IpTracker
step ip t (checks j now) = (is_banned t j now).0
step ip t (counts j now) = (get_request_count t j now).0
step ip t (retries now) = (record_request t ip now).0
step ip t (lifts j) = unban t j

unfoldable pub run : String → IpTracker → List Call → IpTracker
run ip t [] = t
run ip t (c ∷ cs) = run ip (step ip t c) cs

-- The call is made no later than `e`, and does not lift the ban of `ip`.
abbrev pub IsWithin : String → ℕ → Call → Type 0
IsWithin ip e (checks j now) = now ≤ e
IsWithin ip e (counts j now) = now ≤ e
IsWithin ip e (retries now) = now ≤ e
IsWithin ip e (lifts j) = str_eq j ip ≡ false

is_banned_by-kept :
    (t : IpTracker) (ip j : String) (now e : ℕ) (o : Option ℕ)
    → now ≤ e
    → lookup j t.ban_list ≡ o
    → lookup ip t.ban_list ≡ some e
    → lookup ip (is_banned_by t j now o).0.ban_list ≡ some e
unfolding is_banned_by
is_banned_by-kept t ip j now e none l q h = h
is_banned_by-kept t ip j now e (some x) l q h = elim (Bool-cases (ltb x now)) [
  | inl b ↦ rw b (
      lookup-delete j ip t.ban_list ∙ elim (Bool-cases (str_eq j ip)) [
        | inl same ↦
            let p : lookup ip t.ban_list ≡ some x =
              ap (λ k. lookup k t.ban_list) (sym ((eq_iff j ip).0 same)) ∙ q in
            absurd (ground (arith, p, h, b, l))
        | inr other ↦ rw other h
      ])
  | inr b ↦ rw b h
]

record_by-kept :
    (t : IpTracker) (ip : String) (now e : ℕ)
    → now ≤ e
    → lookup ip t.ban_list ≡ some e
    → lookup ip (record_by t ip now (some e)).0.ban_list ≡ some e
unfolding record_by
record_by-kept t ip now e l h = let b : ltb e now ≡ false = ground (arith, l) in rw b h

step-kept :
    (ip : String) (e : ℕ) (t : IpTracker) (c : Call)
    → IsWithin ip e c
    → lookup ip t.ban_list ≡ some e
    → lookup ip (step ip t c).ban_list ≡ some e
unfolding step is_banned get_request_count record_request sweep unban
step-kept ip e t (checks j now) l h =
    let q = lookup-sweep_bans now ip t.ban_list e l h in
    is_banned_by-kept (sweep t now) ip j now e _ l refl (unfold sweep in q)
step-kept ip e t (counts j now) l h = lookup-sweep_bans now ip t.ban_list e l h
step-kept ip e t (retries now) l h =
    let q = lookup-sweep_bans now ip t.ban_list e l h in
    subst (λ o. lookup ip (record_by (sweep t now) ip now o).0.ban_list ≡ some e) (sym q)
      (record_by-kept (sweep t now) ip now e l q)
step-kept ip e t (lifts j) l h = lookup-delete j ip t.ban_list ∙ rw l h

run-kept :
    (ip : String) (e : ℕ) (t : IpTracker) (cs : List Call)
    → All (IsWithin ip e) cs
    → lookup ip t.ban_list ≡ some e
    → lookup ip (run ip t cs).ban_list ≡ some e
unfolding run
run-kept ip e t [] a h = h
run-kept ip e t (c ∷ cs) a h = run-kept ip e (step ip t c) cs a.1 (step-kept ip e t c a.0 h)

-- Where at least one address may be tracked: a refused request leaves the address banned, until the end
-- of the ban that was in force, or else for the whole of `banTtl` from now on. Checks and counts of any
-- address, further requests of this one and the lifting of other bans do not end that ban before then:
-- as long as no other call is made, a check no later than the end answers that the address is banned.
pub record_request-banned :
    (t : IpTracker) (ip : String) (now : ℕ) (cs : List Call) (later : ℕ)
    → 1 ≤ t.max_tracked_ips
    → (record_request t ip now).1 ≡ false
    → All (IsWithin ip (ban_end t ip now)) cs
    → later ≤ ban_end t ip now
    → (is_banned (run ip (record_request t ip now).0 cs) ip later).1 ≡ true
unfolding record_request sweep
record_request-banned t ip now cs later m r a l =
    let swept = sweep t now in
    let e = ban_end t ip now in
    let listed = record_by-refused swept ip now (lookup ip swept.ban_list) m refl r in
    is_banned-true (run ip (record_request t ip now).0 cs) ip e later
      (run-kept ip e (record_request t ip now).0 cs a listed) l
