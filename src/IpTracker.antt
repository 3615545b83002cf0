-- ===== src/IpTracker.antt =====
-- src/audit-guard/src/ip-tracker.ts: the request counts and bans of addresses. The clock's reading in
-- milliseconds is an argument of each call, and `now - 60 * 1000` is written on the other side of each
-- comparison.
pub mod Bans
mod Tests
use vero_audit_guard.Base.{
  ℕ, suc, Bool, String, List, Option, none, some, true, false, if◌then◌else◌, ltb, leb, length,
  keep, ◌++◌, ◌∷◌, [], ◌+◌,
}
use vero_audit_guard.Base.Dict.{Dict, lookup, insert, delete}

pub record IpTracker : Type 0 where
  pub requests : Dict (List ℕ)
  pub max_req_per_min : ℕ
  pub ban_list : Dict ℕ
  pub max_tracked_ips : ℕ
  pub ban_ttl : ℕ

-- No time stamps, or the last one a minute old.
unfoldable pub is_stale : (now : ℕ) → List ℕ → Bool
is_stale now [] = true
is_stale now (t ∷ []) = leb (t + 60000) now
is_stale now (t ∷ u ∷ ts) = is_stale now (u ∷ ts)

unfoldable pub sweep_requests : (now : ℕ) → Dict (List ℕ) → Dict (List ℕ)
sweep_requests now [] = []
sweep_requests now ((ip, ts) ∷ m) =
    let rest = sweep_requests now m in if is_stale now ts then rest else (ip, ts) ∷ m

unfoldable pub sweep_bans : (now : ℕ) → Dict ℕ → Dict ℕ
sweep_bans now [] = []
sweep_bans now ((ip, expiry) ∷ m) =
    let rest = sweep_bans now m in if ltb expiry now then rest else (ip, expiry) ∷ m

unfoldable pub sweep : IpTracker → (now : ℕ) → IpTracker
sweep t now = record t {
  requests = sweep_requests now t.requests;
  ban_list = sweep_bans now t.ban_list;
}

-- The oldest entry is the first one.
unfoldable pub evict {ℓ} : {V : Type ℓ} → (max : ℕ) → Dict V → Dict V
evict max [] = []
evict max ((ip, v) ∷ m) =
    let rest = evict max m in if ltb max (suc (length m)) then rest else (ip, v) ∷ m

unfoldable pub enforce_caps : IpTracker → IpTracker
enforce_caps t = record t {
  requests = evict t.max_tracked_ips t.requests;
  ban_list = evict t.max_tracked_ips t.ban_list;
}

abbrev pub or_none : Option (List ℕ) → List ℕ
or_none none = []
or_none (some ts) = ts

unfoldable pub recent : (now : ℕ) → List ℕ → List ℕ
recent now ts = keep (λ time. ltb now (time + 60000)) ts

unfoldable pub ban : IpTracker → String → (now : ℕ) → IpTracker
ban t ip now =
    enforce_caps (record t { ban_list = insert ip (now + t.ban_ttl) (delete ip t.ban_list) })

-- What `recordRequest` does for an address that is not banned.
unfoldable pub count_request : IpTracker → String → (now : ℕ) → IpTracker × Bool
count_request t ip now =
    let timestamps = recent now (or_none (lookup ip t.requests)) ++ now ∷ [] in
    let counted =
      enforce_caps (record t { requests = insert ip timestamps (delete ip t.requests) }) in
    if ltb t.max_req_per_min (length timestamps)
    then (ban counted ip now, false)
    else (counted, true)

-- `recordRequest` after the sweep, by the address's expiry on the ban list.
unfoldable pub record_by : IpTracker → String → (now : ℕ) → Option ℕ → IpTracker × Bool
record_by t ip now none = count_request t ip now
record_by t ip now (some expiry) =
    if ltb expiry now
    then count_request (record t { ban_list = delete ip t.ban_list }) ip now
    else (t, false)

unfoldable pub record_request : IpTracker → String → (now : ℕ) → IpTracker × Bool
record_request t ip now =
    let swept = sweep t now in record_by swept ip now (lookup ip swept.ban_list)

-- `isBanned` after the sweep, likewise.
unfoldable pub is_banned_by : IpTracker → String → (now : ℕ) → Option ℕ → IpTracker × Bool
is_banned_by t ip now none = (t, false)
is_banned_by t ip now (some expiry) =
    if ltb expiry now then (record t { ban_list = delete ip t.ban_list }, false) else (t, true)

unfoldable pub is_banned : IpTracker → String → (now : ℕ) → IpTracker × Bool
is_banned t ip now = let swept = sweep t now in is_banned_by swept ip now (lookup ip swept.ban_list)

unfoldable pub get_request_count : IpTracker → String → (now : ℕ) → IpTracker × ℕ
get_request_count t ip now =
    let swept = sweep t now in
    let timestamps = or_none (lookup ip swept.requests) in
    let touched =
      if ltb 0 (length timestamps)
      then insert ip timestamps (delete ip swept.requests)
      else swept.requests in
    (record swept { requests = touched }, length (recent now timestamps))

unfoldable pub unban : IpTracker → String → IpTracker
unban t ip = record t { ban_list = delete ip t.ban_list; requests = delete ip t.requests }
