-- ===== src/Bundle/Tests.antt =====
-- Runs of the bundle verifier, and instances of its theorems.
use vero_audit_guard.Base.{
  some, ◌∷◌, List, String, [], ℕ, Option, Bool, ◌==◌, if◌then◌else◌, str_eq, false, none, ◌&&◌, ◌≡◌,
  refl, ◌↔◌, true, trim,
}
use vero_audit_guard.Base.Dict.{insert, lookup, has}
use vero_audit_guard.Base.Sort.{sort, insert_sorted}
use vero_audit_guard.Bundle.Manifest.{
  Entries, directory, file, other, no_more, followed, listing, collect_bundle_files, in_bundle,
  walk, walk_entry, canonicalize_manifest, PolicyBundleFileEntry, PolicyBundleManifest,
  compute_bundle_manifest, bundle_tampered, diff_manifests, hashes_from, added_to, modified_in,
  differs,
}
use vero_audit_guard.Bundle.{
  Json, object, contents, Disk, PolicyBundleVerifier, verify, PolicyBundleVerificationResult,
  TelemetryEvent, RawEntry, conclude, judge, verify_signature, critical, load_manifest,
  check_signature, check_bytes, first_signer, hex_to_buffer, hex_bytes, hex_value,
  parse_signed_manifest, parse_object, parse_entries, parse_entry, has_drift, emit_telemetry,
}
use mathlib.Core.List.{Perm}
use vero_audit_guard.Bundle.Canonical.{canonicalize_manifest-inj}
use vero_audit_guard.Bundle.Verdict.{Genuine, verify_iff}

abbrev lower : String → String
lower s = s

-- Two toy digests, and the only key that signs, with one byte.
abbrev sha256_bytes : List ℕ → String
sha256_bytes [] = "empty"
sha256_bytes (c ∷ cs) = "full"

abbrev sha256_text : List ℕ → String
sha256_text cs = "digest"

abbrev one_byte : List ℕ → Bool
one_byte (b ∷ []) = b == 0xab
one_byte _ = false

abbrev verifies : String → List ℕ → List ℕ → Option Bool
verifies key payload bytes =
    if str_eq key "" then none else some (str_eq key "GA" && one_byte bytes)

abbrev tree : Entries
tree = followed (other "link") (
    followed (directory "sub" (followed (file "b.rego" (1 ∷ [])) no_more))
      (followed (file "notes.md" []) (followed (file "a.rego" []) no_more)))

abbrev entry : String → String → ℕ → RawEntry
entry p h n = record { path = some p; sha256 = some h; bytes = some n }

abbrev parse : String → Json
parse s = object (record {
  version = some 1;
  algorithm = some "sha256";
  files = some (entry "sub/b.rego" "full" 1 ∷ entry "a.rego" s 0 ∷ []);
  bundle_digest = some "digest";
})

abbrev disk : String → Disk
disk hash = record { policies_dir = listing tree; manifest = contents hash }

abbrev verifier : PolicyBundleVerifier
verifier = record { signature = some " AB "; trusted_signers = "" ∷ "GA" ∷ [] }

abbrev run : Disk → PolicyBundleVerificationResult × List TelemetryEvent
run d = verify lower (".rego" ∷ []) sha256_bytes sha256_text parse verifies verifier d

bundle : Unit {0}
unfolding verify conclude judge verify_signature check_signature check_bytes first_signer
    hex_to_buffer hex_bytes hex_value trim load_manifest parse_signed_manifest parse_object
    parse_entries parse_entry compute_bundle_manifest collect_bundle_files in_bundle walk walk_entry
    sort insert_sorted diff_manifests hashes_from insert added_to modified_in differs has_drift
    emit_telemetry lookup has
bundle = tt

bundle_tests :
    ((run (disk "empty")).0.verified ≡ true)
    × ((run (disk "empty")).0.signer ≡ some "GA")
    × ((run (disk "other")).0.errors ≡ bundle_tampered ∷ [])
    × ((run (disk "other")).1 ≡ record { level = critical; code = some bundle_tampered } ∷ [])
unfolding bundle
bundle_tests = (refl, refl, refl, refl)

no_empty_key : (payload bytes : List ℕ) → verifies "" payload bytes ≡ none
no_empty_key payload bytes = refl

verify_iff_example :
    ((run (disk "empty")).0.verified ≡ true)
    ↔ Genuine lower
        (".rego" ∷ [])
        sha256_bytes
        sha256_text
        parse
        verifies
        verifier
        (compute_bundle_manifest sha256_bytes sha256_text lower (".rego" ∷ []) (listing tree))
        (load_manifest parse (contents "empty"))
verify_iff_example =
    verify_iff lower (".rego" ∷ []) sha256_bytes sha256_text parse verifies verifier (disk "empty")
      no_empty_key

abbrev a_file : PolicyBundleFileEntry
a_file = record { path = "a"; sha256 = "1"; bytes = 10 }

abbrev b_file : PolicyBundleFileEntry
b_file = record { path = "b"; sha256 = "2"; bytes = 0 }

abbrev manifest : List PolicyBundleFileEntry → PolicyBundleManifest
manifest fs = record { files = fs; bundle_digest = "digest" }

-- The order of the entries does not matter.
same_text :
    canonicalize_manifest (manifest (a_file ∷ b_file ∷ []))
    ≡ canonicalize_manifest (manifest (b_file ∷ a_file ∷ []))
unfolding canonicalize_manifest sort insert_sorted
same_text = refl

canonicalize_manifest-inj_example :
    Perm (manifest (a_file ∷ b_file ∷ [])).files (manifest (b_file ∷ a_file ∷ [])).files
    × ◌≡◌ {A = String} "digest" "digest"
canonicalize_manifest-inj_example =
    canonicalize_manifest-inj (manifest (a_file ∷ b_file ∷ [])) (manifest (b_file ∷ a_file ∷ []))
      same_text
