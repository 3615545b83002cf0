-- ===== src/Lib.antt =====
-- Verification library of vero-audit-guard: models of the audit guard's own logic, in TypeScript under
-- src/audit-guard/src, anomaly-detector/src, atomic-rpc-relayer-bridge/src and
-- verifiable-audit-trail/src, and what holds of them.
--
-- The parts. Most are classes with private state; each has its own file here, and its operations are
-- functions from its state, the arguments and the clock readings of a call to its new state and result.
-- Sequences of calls are lists of a type `Call`, run by `step` and `run`. The parts meet as in the
-- source: the policy engine drives the state machine and asks the bundle's verifier (Engine uses
-- Protocol and Bundle), the anomaly detector reads behind the ingestion guard and probes through the
-- failover monitor (Detector uses Ingestion and Failover), the notifier checks fields as the
-- dispatcher does and pages the roster, and the tiering pages the roster's contacts.
--   Protocol    src/audit-guard/src/protocol-state-machine.ts: `apply`, its guards in order
--               (`violate`, `dispatch`), `_applyReset`, `_commit`, `_notifyObservers` (`reject`,
--               `commit`), `computeSnapshotHash` (Protocol/Hash). Session: the legal steps. History: the record.
--               Alert: `tryApply`, and the alert that an observer makes of an error.
--   Emergency   src/audit-guard/src/core/emergency-exit.ts: `triggerEmergencyExit`, `recoverEngine`,
--               `withdrawFunds`, `requireAuth`, `safeAdd`, `safeSub`; the signed text in
--               Emergency/Payload, the guards in Laws, whole calls in Outcomes.
--   RateLimit   src/audit-guard/src/rate-limit-monitor.ts: `record` is `record_request`. Window is the
--               description by a count over the history, Sound and Exact the comparison with it.
--   Bridge      atomic-rpc-relayer-bridge/src/index.ts: `relay` with its loop over endpoints and rounds,
--               `verifyAtomicity` with the count in Quorum, the voters in Voters; Replay and Effort
--               are about what is sent.
--   Ingestion   src/audit-guard/src/telemetry-ingestion-guard.ts: the token bucket and the queue.
--   Gate        src/audit-guard/src/security-gate.ts: the build gate over scanner reports.
--   Roster      src/audit-guard/src/oncall-roster.ts: the rotation. The tiering pages its contacts.
--   Tiering     src/audit-guard/src/severity-tiering.ts: tiers, escalation and telemetry.
--   Failover    anomaly-detector/src/rpc-failover-monitor.ts: health windows, outages, failover events;
--               Tracking compares them with the history of calls.
--   Bundle      src/audit-guard/src/policy-bundle-verifier.ts: `verify`, its checks in order, the
--               manifests (Bundle/Manifest) and their canonical text (Canonical).
--   Engine      src/audit-guard/src/policy-engine.ts: the evaluation of a pull request over the state
--               machine, which it meets before its awaits and after them, with the steps of overlapping
--               evaluations in between; the fallback rules are in Engine/Rules.
--   Detector    anomaly-detector/src/index.ts: the analysis of metrics and the nonces in memory and on
--               file (Nonces), the probes of the RPC nodes (Health) and their rounds (Rounds).
--   Dispatcher  src/audit-guard/src/anomaly-alert-dispatcher.ts: the checks of an alert and batches.
--   Notifier    src/audit-guard/src/multisig-webhook-notifier.ts: signed webhooks to the signers.
--   Trail       verifiable-audit-trail/src/index.ts: a report against its anchor, the command line
--               (Trail/Cli) and the encodings of a digest (Encoding, Roundtrip).
--   Processor   src/audit-guard/src/batch-contract-call-processor.ts: the pool of workers (Pool) and
--               the batch around it; Schedule and Entries are about every order of its tasks.
--   Diff        src/audit-guard/src/diff-engine.ts: the comparison of a scan report with the previous.
--   IpTracker   src/audit-guard/src/ip-tracker.ts: request counts and bans of addresses.
--   Base        numbers, lists, texts, sorting, ECMAScript's `Map`, `JSON.stringify` of texts.
--
-- Choices. Numbers are native natural numbers, for counts and for times in milliseconds; differences
-- that can be negative in the source are rewritten so that they are not, or stop at 0 where the source
-- takes a maximum with 0. The emergency engine's `bigint` values are signed integers with the 64-bit
-- bound written out, and `Number()` rounds to 53 bits. The snapshot hash is 32-bit arithmetic, modulo
-- 2 ^ 32. Fuel stands in three places, each with enough of it: the digits of a number (a number has
-- no more digits than its size), the 16 digits of a hash, and the doublings of a spacing in `Number()`
-- (twelve reach past 2 ^ 64). The bridge's rounds are the source's own bound on its loop.
--
-- Parameters, and what is asked of them: the signature check and SHA-256 of the Stellar SDK, HMAC, the
-- network of the bridge and of the notifier, the ledger's transactions, OPA's answer, the gas profiler,
-- the projection and its canonical text, `Date.parse`, `JSON.parse`, the case mappings of Unicode, and
-- `JSON.stringify` of events and metadata. Some results assume of them that an empty
-- text is no public key, or that SHA-256 gives 32 bytes, and say so.
--
-- Not modelled: logging, file, network and environment access, texts of messages, callbacks that call
-- a part again, and floating point (the tokens of the bucket are exact thousandths). Of the modelled
-- files, the run of OPA itself, the security tips and the markdown report, the transaction that anchors
-- a digest, and the integrity hash of a batch. Of the packages, the mapper of roles, the monitor of
-- input sanitisation, the logic patterns and the smaller watchers are not modelled. The rest of the
-- repository, and its Rust and shell sources, are outside this library.
pub mod Base
pub mod Notifier
pub mod Processor
pub mod Protocol
pub mod Detector
pub mod Dispatcher
pub mod Emergency
pub mod RateLimit
pub mod Bridge
pub mod Bundle
pub mod IpTracker
pub mod Diff
pub mod Ingestion
pub mod Gate
pub mod Roster
pub mod Tiering
pub mod Trail
pub mod Engine
pub mod Failover
