-- ===== src/IpTracker/Tests.antt =====
-- Tests of the tracker of addresses.
use vero_audit_guard.Base.{All, true, false, ◌∷◌, [], ◌≡◌, ◌≤◌, refl, arith}
use vero_audit_guard.Base.Dict.{insert, lookup, delete}
use vero_audit_guard.IpTracker.{
  IpTracker, is_stale, sweep, sweep_requests, sweep_bans, evict, enforce_caps, recent, ban,
  count_request, record_by, record_request, is_banned, is_banned_by, get_request_count, unban,
}
use vero_audit_guard.IpTracker.Bans.{record_request-banned, IsWithin, ban_end, run, checks, retries}

abbrev fresh : IpTracker
fresh = record {
  requests = [];
  max_req_per_min = 2;
  ban_list = [];
  max_tracked_ips = 1;
  ban_ttl = 1000;
}

abbrev busy : IpTracker
busy = record fresh { requests = ("a", 70000 ∷ 70500 ∷ []) ∷ [] }

tracker : Unit {0}
unfolding insert lookup delete is_stale sweep sweep_requests sweep_bans evict enforce_caps recent
    ban count_request record_by record_request is_banned is_banned_by get_request_count unban
tracker = tt

-- An address at its limit is banned; where one address is tracked, the next one that is banned takes
-- its place on the list.
tracker_tests :
    ((record_request fresh "a" 70000).1 ≡ true)
    × ((record_request busy "a" 70900).1 ≡ false)
    × ((record_request busy "a" 130200).1 ≡ true)
    × ((get_request_count busy "a" 130200).1 ≡ 1)
    × ((is_banned (record_request busy "a" 70900).0 "a" 71900).1 ≡ true)
    × ((is_banned (record_request busy "a" 70900).0 "a" 71901).1 ≡ false)
    × ((is_banned (unban (record_request busy "a" 70900).0 "a") "a" 71000).1 ≡ false)
    × ((is_banned (ban (record_request busy "a" 70900).0 "b" 70901) "a" 70902).1 ≡ false)
unfolding tracker
tracker_tests = (refl, refl, refl, refl, refl, refl, refl, refl)

is_refused : (record_request busy "a" 70900).1 ≡ false
unfolding tracker
is_refused = refl

within : All (IsWithin "a" (ban_end busy "a" 70900)) (checks "b" 71000 ∷ retries 71100 ∷ [])
unfolding tracker
within = (omega arith, (omega arith, tt))

before_end : 71900 ≤ ban_end busy "a" 70900
unfolding tracker
before_end = omega arith

record_request-banned_example :
    (is_banned
      (run "a" (record_request busy "a" 70900).0 (checks "b" 71000 ∷ retries 71100 ∷ []))
      "a"
      71900).1
    ≡ true
record_request-banned_example =
    record_request-banned busy "a" 70900 (checks "b" 71000 ∷ retries 71100 ∷ []) 71900 (omega arith)
      is_refused within before_end
