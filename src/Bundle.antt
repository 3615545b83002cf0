-- ===== src/Bundle.antt =====
-- src/audit-guard/src/policy-bundle-verifier.ts: the verifier of a signed policy bundle. Manifests,
-- their canonical text and their comparison are in Bundle/Manifest. `JSON.parse`, SHA-256, the
-- lower-casing of file names and the signature check of the Stellar SDK are parameters; a check that
-- throws is `none`. File sizes that are no whole numbers, the texts of errors and the time of the
-- check are left out.
pub mod Manifest
pub mod Canonical
pub mod Verdict
mod Tests
use vero_audit_guard.Base.Json.{code_points}
use vero_audit_guard.Base.{
  ◌>>=◌, ℕ, String, if◌then◌else◌, Option, Bool, List, false, ltb, not, ◌&&◌, none, true, leb, some,
  map, [], ◌∷◌, ◌-◌, length, ◌+◌, str_eq, trim, ◌++◌, ◌||◌, ◌==◌, ◌*◌,
}
use vero_audit_guard.Bundle.Manifest.{
  PolicyBundleErrorCode, manifest_missing, manifest_malformed, signature_missing,
  signature_malformed, no_trusted_signers, signature_invalid, bundle_tampered, untrusted_signer,
  PolicyBundleManifest, PolicyBundleDrift, Directory, Computed, failed, computed,
  PolicyBundleFileEntry, compute_bundle_manifest, diff_manifests, canonicalize_manifest,
}

-- What `JSON.parse` gives; a property of another type counts as missing.
pub record RawEntry : Type 0 where
  pub path : Option String
  pub sha256 : Option String
  pub bytes : Option ℕ

pub record RawManifest : Type 0 where
  pub version : Option ℕ
  pub algorithm : Option String
  pub files : Option (List RawEntry)
  pub bundle_digest : Option String

pub data Json : Type 0 where
  not_json other_value : Json
  object : RawManifest → Json

pub data ManifestFile : Type 0 where
  no_manifest unreadable_manifest : ManifestFile
  contents : String → ManifestFile

pub record Disk : Type 0 where
  pub policies_dir : Directory
  pub manifest : ManifestFile

pub record PolicyBundleVerifier : Type 0 where
  pub signature : Option String
  pub trusted_signers : List String

pub record PolicyBundleVerificationResult : Type 0 where
  pub verified : Bool
  pub bundle_digest : String
  pub signer : Option String
  pub errors : List PolicyBundleErrorCode
  pub drift : Option PolicyBundleDrift

pub data Level : Type 0 where
  info warn critical : Level

-- `none` is the code POLICY_BUNDLE_VERIFIED.
pub record TelemetryEvent : Type 0 where
  pub level : Level
  pub code : Option PolicyBundleErrorCode

-- The signer whose signature verified, or the error that `verifySignature` pushes.
pub data SignatureCheck : Type 0 where
  signed_by : String → SignatureCheck
  refused : PolicyBundleErrorCode → SignatureCheck

unfoldable pub parse_entry : RawEntry → Option PolicyBundleFileEntry
parse_entry r = do
  path ← r.path
  sha256 ← r.sha256
  bytes ← r.bytes
  some (record { path = path; sha256 = sha256; bytes = bytes })

unfoldable pub parse_entries : List RawEntry → Option (List PolicyBundleFileEntry)
parse_entries [] = some []
parse_entries (r ∷ rs) = do f ← parse_entry r; fs ← parse_entries rs; some (f ∷ fs)

unfoldable pub parse_object : RawManifest → Option PolicyBundleManifest
parse_object m = do
  version ← m.version
  algorithm ← m.algorithm
  files ← m.files
  digest ← m.bundle_digest
  if (version == 1) && str_eq algorithm "sha256"
      then (do
        entries ← parse_entries files
        some (record { files = entries; bundle_digest = digest }))
      else none

abbrev or_malformed : Option PolicyBundleManifest → Computed
or_malformed none = failed manifest_malformed
or_malformed (some m) = computed m

unfoldable pub parse_signed_manifest : Json → Computed
parse_signed_manifest not_json = failed manifest_malformed
parse_signed_manifest other_value = failed manifest_malformed
parse_signed_manifest (object m) = or_malformed (parse_object m)

unfoldable pub load_manifest : (String → Json) → ManifestFile → Computed
load_manifest parse no_manifest = failed manifest_missing
load_manifest parse unreadable_manifest = failed manifest_malformed
load_manifest parse (contents raw) = parse_signed_manifest (parse raw)

-- `toLowerCase`, as far as it reaches the hexadecimal digits.
abbrev ascii_lower : ℕ → ℕ
ascii_lower c = if leb 65 c && leb c 90 then c + 32 else c

unfoldable pub hex_value : ℕ → Option ℕ
hex_value c =
    if leb 48 c && leb c 57
    then some (c - 48)
    else if leb 97 c && leb c 102
    then some (c - 87)
    else none

-- Two digits to a byte; `none` at a digit too many or a character that is no digit.
unfoldable pub hex_bytes : List ℕ → Option (List ℕ)
hex_bytes [] = some []
hex_bytes (c ∷ []) = none
hex_bytes (c ∷ d ∷ cs) = do
  high ← hex_value c
  low ← hex_value d
  rest ← hex_bytes cs
  some ((high * 16 + low) ∷ rest)

abbrev or_empty : List ℕ → Option (List ℕ)
or_empty [] = none
or_empty cs = hex_bytes cs

unfoldable pub hex_to_buffer : String → Option (List ℕ)
hex_to_buffer hex = or_empty (map ascii_lower (trim (code_points hex)))

abbrev is_missing : Option String → Bool
is_missing none = true
is_missing (some s) = str_eq s ""

abbrev truthy : Option String → Bool
truthy s = not (is_missing s)

unfoldable pub is_configured : PolicyBundleVerifier → Bool
is_configured v = truthy v.signature && ltb 0 (length v.trusted_signers)

abbrev pub is_critical : PolicyBundleErrorCode → Bool
is_critical bundle_tampered = true
is_critical signature_invalid = true
is_critical untrusted_signer = true
is_critical _ = false

abbrev event_of : PolicyBundleErrorCode → TelemetryEvent
event_of x = record { level = if is_critical x then critical else warn; code = some x }

unfoldable pub emit_telemetry : PolicyBundleVerificationResult → List TelemetryEvent
emit_telemetry r =
    if r.verified then record { level = info; code = none } ∷ [] else map event_of r.errors

unfoldable pub has_drift : PolicyBundleDrift → Bool
has_drift d = ltb 0 (length d.added) || ltb 0 (length d.removed) || ltb 0 (length d.modified)

-- Step 4 and the result: an error of the signature check comes last.
abbrev errors_of : SignatureCheck → List PolicyBundleErrorCode
errors_of (signed_by key) = []
errors_of (refused x) = x ∷ []

abbrev signer_of : SignatureCheck → Option String
signer_of (signed_by key) = some key
signer_of (refused x) = none

abbrev accepts : Option Bool → Bool
accepts (some true) = true
accepts _ = false

module _ (verifies : String → List ℕ → List ℕ → Option Bool) where
  -- The loop over the trusted signers: a key that throws is skipped.
  unfoldable pub first_signer : List String → List ℕ → List ℕ → SignatureCheck
  first_signer [] payload bytes = refused signature_invalid
  first_signer (key ∷ keys) payload bytes =
      let rest = first_signer keys payload bytes in
      if accepts (verifies key payload bytes) then signed_by key else rest

  unfoldable pub check_bytes :
      PolicyBundleVerifier → PolicyBundleManifest → Option (List ℕ) → SignatureCheck
  check_bytes v signed none = refused signature_malformed
  check_bytes v signed (some bytes) =
      first_signer v.trusted_signers (canonicalize_manifest signed) bytes

  unfoldable pub check_signature :
      PolicyBundleVerifier → PolicyBundleManifest → Option String → SignatureCheck
  check_signature v signed none = refused signature_missing
  check_signature v signed (some s) =
      if str_eq s ""
      then refused signature_missing
      else if length v.trusted_signers == 0
      then refused no_trusted_signers
      else check_bytes v signed (hex_to_buffer s)

  unfoldable pub verify_signature : PolicyBundleVerifier → PolicyBundleManifest → SignatureCheck
  verify_signature v signed = check_signature v signed v.signature

  unfoldable pub judge :
      PolicyBundleVerifier → PolicyBundleManifest → Computed → PolicyBundleVerificationResult
  judge v live (failed x) = record {
    verified = false;
    bundle_digest = live.bundle_digest;
    signer = none;
    errors = x ∷ [];
    drift = none;
  }
  judge v live (computed signed) =
      let drift = diff_manifests live signed in
      let checked = verify_signature v signed in
      let errors = (if has_drift drift then bundle_tampered ∷ [] else []) ++ errors_of checked in
      record {
        verified = (length errors == 0) && truthy (signer_of checked);
        bundle_digest = live.bundle_digest;
        signer = signer_of checked;
        errors = errors;
        drift = if has_drift drift then some drift else none;
      }

  -- The result and the telemetry. A bundle that cannot be computed is returned before any is emitted.
  unfoldable pub conclude :
      PolicyBundleVerifier
      → Computed
      → Computed
      → PolicyBundleVerificationResult × List TelemetryEvent
  conclude v (failed x) loaded = (
    record { verified = false; bundle_digest = ""; signer = none; errors = x ∷ []; drift = none },
    [],
  )
  conclude v (computed live) loaded = let r = judge v live loaded in (r, emit_telemetry r)

module _ (lower : String → String) (extensions : List String)
    (sha256_bytes sha256_text : List ℕ → String) (parse : String → Json)
    (verifies : String → List ℕ → List ℕ → Option Bool) where
  unfoldable pub verify :
      PolicyBundleVerifier → Disk → PolicyBundleVerificationResult × List TelemetryEvent
  verify v disk =
      conclude verifies v
        (compute_bundle_manifest sha256_bytes sha256_text lower extensions disk.policies_dir)
        (load_manifest parse disk.manifest)
