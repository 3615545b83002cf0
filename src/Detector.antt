-- ===== src/Detector.antt =====
-- anomaly-detector/src/index.ts: the analysis of the relayer's metrics, behind the ingestion guard,
-- and the nonces it keeps in memory and in a file. The health checker of the RPC nodes is in
-- Detector/Health. The file is the object it holds, read as empty when it cannot be read; whether its
-- lock can be had in time is an argument. The threat feed, and the texts of numbers and of times, are
-- parameters. Details of alerts, logging and the dispatch to the dashboard are left out.
pub mod Nonces
pub mod Health
pub mod Rounds
mod Tests
use vero_audit_guard.Base.{
  ◌∷◌, [], String, ℕ, suc, ltb, Bool, Option, List, some, true, ◌-◌, if◌then◌else◌, ◌&&◌, ◌++◌, [],
  false, none, leb, ◌*◌, length, not, includes, ◌∷◌,
}
use vero_audit_guard.Base.Dict.{Dict, lookup, has, insert}
use Prim.Native.String.{◌++◌ as joined}
use vero_audit_guard.Ingestion as Guards

pub record RelayerMetrics : Type 0 where
  pub address : String
  pub nonce : ℕ
  pub failed_tx_count : ℕ
  pub timestamp : ℕ

pub data AlertType : Type 0 where
  nonce_spike failed_tx_burst unauthorized_address threat_feed_match nonce_reuse : AlertType

pub data Severity : Type 0 where
  high critical : Severity

pub record AnomalyAlert : Type 0 where
  pub kind : AlertType
  pub severity : Severity
  pub address : String
  pub timestamp : ℕ

pub record Settings : Type 0 where
  pub authorized_addresses : List String
  pub nonce_spike_threshold : ℕ
  pub failed_tx_threshold : ℕ

-- `Math.max(existing, nonce)`, where there is an entry.
unfoldable pub higher : Option ℕ → ℕ → ℕ
higher none n = n
higher (some m) n = if ltb m n then n else m

-- The merge of `persistNonceMap` and what it writes. Addresses are no names of `Object.prototype`, whose
-- properties the source would read as nonces.
unfoldable pub persist_nonce_map : Dict ℕ → Dict ℕ → Dict ℕ
persist_nonce_map merged [] = merged
persist_nonce_map merged ((addr, nonce) ∷ local) =
    persist_nonce_map (insert addr (higher (lookup addr merged) nonce) merged) local

abbrev alert : RelayerMetrics → AlertType → Severity → AnomalyAlert
alert m kind severity = record {
  kind = kind;
  severity = severity;
  address = m.address;
  timestamp = m.timestamp;
}

abbrev when : Bool → AnomalyAlert → List AnomalyAlert
when b a = if b then a ∷ [] else []

abbrev or_nonce : ℕ → Option ℕ → ℕ
or_nonce n none = n
or_nonce n (some p) = p

abbrev graded : Bool → Severity
graded b = if b then critical else high

module _ (o : Settings) (is_threat : String → Bool) where
  -- The alerts of one metric. A nonce that falls has no positive difference.
  pub alerts_of : Dict ℕ → RelayerMetrics → List AnomalyAlert
  alerts_of previous m =
      let prev = or_nonce m.nonce (lookup m.address previous) in
      let delta = m.nonce - prev in
      when (has m.address previous && leb m.nonce prev) (alert m nonce_reuse high)
      ++ when (ltb o.nonce_spike_threshold delta)
          (alert m nonce_spike (graded (ltb (o.nonce_spike_threshold * 2) delta)))
      ++ when (leb o.failed_tx_threshold m.failed_tx_count)
          (alert m failed_tx_burst (graded (leb (o.failed_tx_threshold * 3) m.failed_tx_count)))
      ++ when
          (ltb 0 (length o.authorized_addresses) && not (includes o.authorized_addresses m.address))
          (alert m unauthorized_address high)
      ++ when (is_threat m.address) (alert m threat_feed_match critical)

  -- The loop of `analyze`, and the nonces after it.
  pub analyze_each : Dict ℕ → List RelayerMetrics → List AnomalyAlert × Dict ℕ
  analyze_each previous [] = ([], previous)
  analyze_each previous (m ∷ ms) =
      let rest = analyze_each (insert m.address m.nonce previous) ms in
      (alerts_of previous m ++ rest.0, rest.1)

pub record Detector : Type 0 where
  pub guard : Guards.Guard RelayerMetrics
  pub previous_nonces : Dict ℕ
  pub alerts : List AnomalyAlert
  pub nonce_db : Dict ℕ

module _ (o : Settings) (is_threat : String → Bool) where
  -- `analyze`: without the lock, `saveNonces` throws after the loop.
  pub analyze : Detector → Bool → List RelayerMetrics → Detector × Option (List AnomalyAlert)
  analyze d locked ms =
      let found = analyze_each o is_threat d.previous_nonces ms in
      let merged = persist_nonce_map d.nonce_db (found.1) in
      if locked
      then (record d { previous_nonces = merged; nonce_db = merged }, some (found.0))
      else (record d { previous_nonces = found.1 }, none)

module _ (o : Settings) (guard_options : Guards.Options) (is_threat parses : String → Bool)
    (show iso : ℕ → String) where
  abbrev event_of : RelayerMetrics → Guards.Raw RelayerMetrics
  event_of m =
      Guards.object (some (joined m.address (joined "-" (show m.timestamp))))
        (some (iso m.timestamp)) (some m)

  abbrev is_let_in : Guards.IngestionOutcome → Bool
  is_let_in Guards.accepted = true
  is_let_in Guards.queue_full_drop = true
  is_let_in _ = false

  -- The metrics that the guard lets in, each with its two clock readings.
  pub admitted :
      Guards.Guard RelayerMetrics
      → List (RelayerMetrics × ℕ × ℕ)
      → Guards.Guard RelayerMetrics × List RelayerMetrics
  admitted g [] = (g, [])
  admitted g ((m, now, later) ∷ ms) =
      let result = Guards.ingest parses guard_options g (event_of m) now later in
      let rest = admitted (result.0) ms in
      (rest.0, if is_let_in (result.1).outcome then m ∷ rest.1 else rest.1)

  -- `none` where the analysis throws; then nothing is emitted.
  abbrev emitted : Detector × Option (List AnomalyAlert) → Detector × Option (List AnomalyAlert)
  emitted (d, none) = (d, none)
  emitted (d, some found) = (record d { alerts = d.alerts ++ found }, some found)

  pub run_once :
      Detector → Bool → List (RelayerMetrics × ℕ × ℕ) → Detector × Option (List AnomalyAlert)
  run_once d locked ms =
      let let_in = admitted d.guard ms in
      emitted (analyze o is_threat (record d { guard = let_in.0 }) locked (let_in.1))

-- What reaches the file: a batch of this process, or another writer's nonces.
pub data Call : Type 0 where
  batch : (locked : Bool) → List (RelayerMetrics × ℕ × ℕ) → Call
  other_writer : Dict ℕ → Call

module _ (o : Settings) (guard_options : Guards.Options) (is_threat parses : String → Bool)
    (show iso : ℕ → String) where
  pub step : Detector → Call → Detector
  step d (batch locked ms) = (run_once o guard_options is_threat parses show iso d locked ms).0
  step d (other_writer local) = record d { nonce_db = persist_nonce_map d.nonce_db local }

  pub run : Detector → List Call → Detector
  run d [] = d
  run d (x ∷ xs) = run (step d x) xs
