-- ===== src/Bundle/Manifest.antt =====
-- src/audit-guard/src/policy-bundle-verifier.ts: the manifest of a policy bundle, its canonical JSON
-- text, and the comparison of two manifests. A directory is the tree that `readdirSync` gives.
-- SHA-256 in hexadecimal digits and the lower-casing of names are parameters.
use vero_audit_guard.Base.{
  ℕ, Bool, not, List, [], ◌∷◌, ◌++◌, String, if◌then◌else◌, length, some_of, str_eq, decimal,
  Option, none, some, true, ◌&&◌, ◌==◌, ◌||◌, false, map,
}
use Prim.Native.String.{◌++◌ as joined}
use vero_audit_guard.Base.Dict.{Dict, insert, lookup, has}
use vero_audit_guard.Base.Json.{code_points, quote}
use vero_audit_guard.Base.Sort.{text_ltb, sort}

pub data PolicyBundleErrorCode : Type 0 where
  bundle_dir_not_found empty_bundle manifest_missing manifest_malformed : PolicyBundleErrorCode
  signature_missing signature_malformed no_trusted_signers untrusted_signer : PolicyBundleErrorCode
  signature_invalid bundle_tampered : PolicyBundleErrorCode

pub record PolicyBundleFileEntry : Type 0 where
  pub path : String
  pub sha256 : String
  pub bytes : ℕ

-- `version` is 1 and `algorithm` is "sha256" in every manifest.
pub record PolicyBundleManifest : Type 0 where
  pub files : List PolicyBundleFileEntry
  pub bundle_digest : String

pub record PolicyBundleDrift : Type 0 where
  pub added : List String
  pub removed : List String
  pub modified : List String

-- A directory's entries: a directory, a file with its contents, or something else such as a link.
mutual
  pub data Entry : Type 0 where
    directory : String → Entries → Entry
    file : String → List ℕ → Entry
    other : String → Entry

  pub data Entries : Type 0 where
    no_more : Entries
    followed : Entry → Entries → Entries

-- What `statSync` and the walk find at the policies directory: `unreadable` throws below it.
pub data Directory : Type 0 where
  no_such_path not_a_directory unreadable : Directory
  listing : Entries → Directory

pub data Computed : Type 0 where
  failed : PolicyBundleErrorCode → Computed
  computed : PolicyBundleManifest → Computed

same_points : List ℕ → List ℕ → Bool
same_points [] [] = true
same_points (p ∷ ps) (x ∷ xs) = (p == x) && same_points ps xs
same_points _ _ = false

-- `endsWith`
ends : List ℕ → List ℕ → Bool
unfolding same_points
ends suffix [] = same_points suffix []
ends suffix (x ∷ xs) = same_points suffix (x ∷ xs) || ends suffix xs

-- A name below a directory: `path.relative` with `/` for the separator.
abbrev below : String → String → String
below prefix name = joined prefix name

module _ (lower : String → String) (extensions : List String) where
  unfoldable pub in_bundle : String → Bool
  unfolding ends
  in_bundle name = some_of (λ ext. ends (code_points ext) (code_points (lower name))) extensions

-- `walk`: the paths of the bundle's files with their contents, in the order they are listed.
unfoldable mutual
  pub walk_entry : (String → Bool) → String → Entry → List (String × List ℕ)
  walk_entry wanted prefix (directory name es) = walk wanted (joined (joined prefix name) "/") es
  walk_entry wanted prefix (file name contents) =
      if wanted name then (joined prefix name, contents) ∷ [] else []
  walk_entry wanted prefix (other name) = []

  pub walk : (String → Bool) → String → Entries → List (String × List ℕ)
  walk wanted prefix no_more = []
  walk wanted prefix (followed e es) = walk_entry wanted prefix e ++ walk wanted prefix es

abbrev by_path : String × List ℕ → String × List ℕ → Bool
by_path a b = text_ltb a.0 b.0

unfoldable pub collect_bundle_files :
    (lower : String → String) (extensions : List String) → Entries → List (String × List ℕ)
collect_bundle_files lower extensions es = sort by_path (walk (in_bundle lower extensions) "" es)

-- `JSON.stringify` of a file entry, and of an array of them, before what follows.
abbrev pub entry_json : PolicyBundleFileEntry → List ℕ → List ℕ
entry_json f rest =
    code_points "{"
    ++ quote "path" (
        b':'
        ∷ quote f.path (
            b','
            ∷ quote "sha256" (
                b':'
                ∷ quote f.sha256 (b',' ∷ quote "bytes" (b':' ∷ decimal f.bytes ++ b'}' ∷ rest)))))

unfoldable pub more_json : List PolicyBundleFileEntry → List ℕ → List ℕ
more_json [] rest = b']' ∷ rest
more_json (f ∷ fs) rest = b',' ∷ entry_json f (more_json fs rest)

unfoldable pub files_json : List PolicyBundleFileEntry → List ℕ → List ℕ
unfolding more_json
files_json [] rest = b'[' ∷ b']' ∷ rest
files_json (f ∷ fs) rest = b'[' ∷ entry_json f (more_json fs rest)

abbrev pub earlier : PolicyBundleFileEntry → PolicyBundleFileEntry → Bool
earlier a b = text_ltb a.path b.path

unfoldable pub canonicalize_manifest : PolicyBundleManifest → List ℕ
canonicalize_manifest m =
    code_points "{\"version\":1,\"algorithm\":\"sha256\",\"files\":"
    ++ files_json (sort earlier m.files)
        (b',' ∷ quote "bundle_digest" (b':' ∷ quote m.bundle_digest (b'}' ∷ [])))

module _ (sha256_bytes sha256_text : List ℕ → String) where
  abbrev file_entry : String × List ℕ → PolicyBundleFileEntry
  file_entry (path, contents) = record {
    path = path;
    sha256 = sha256_bytes contents;
    bytes = length contents;
  }

  abbrev manifest_of : List PolicyBundleFileEntry → PolicyBundleManifest
  manifest_of files = record { files = files; bundle_digest = sha256_text (files_json files []) }

  -- The exception of an unreadable directory reaches the caller as a malformed manifest.
  unfoldable pub compute_bundle_manifest :
      (lower : String → String) (extensions : List String) → Directory → Computed
  compute_bundle_manifest lower extensions no_such_path = failed bundle_dir_not_found
  compute_bundle_manifest lower extensions not_a_directory = failed bundle_dir_not_found
  compute_bundle_manifest lower extensions unreadable = failed manifest_malformed
  compute_bundle_manifest lower extensions (listing es) =
      let found = collect_bundle_files lower extensions es in
      if length found == 0
      then failed empty_bundle
      else computed (manifest_of (map file_entry found))

-- `new Map(files.map((f) => [f.path, f.sha256]))`
unfoldable pub hashes_from : Dict String → List PolicyBundleFileEntry → Dict String
hashes_from m [] = m
hashes_from m (f ∷ fs) = hashes_from (insert f.path f.sha256 m) fs

abbrev pub hashes : PolicyBundleManifest → Dict String
hashes m = hashes_from [] m.files

-- The two loops of `diffManifests`.
unfoldable pub added_to : Dict String → Dict String → List String
added_to signed [] = []
added_to signed ((p, hash) ∷ live) =
    let rest = added_to signed live in if has p signed then rest else p ∷ rest

unfoldable pub differs : Option String → String → Bool
differs none hash = true
differs (some h) hash = not (str_eq h hash)

unfoldable pub modified_in : Dict String → Dict String → List String
modified_in signed [] = []
modified_in signed ((p, hash) ∷ live) =
    let rest = modified_in signed live in
    if has p signed && differs (lookup p signed) hash then p ∷ rest else rest

unfoldable pub diff_manifests : PolicyBundleManifest → PolicyBundleManifest → PolicyBundleDrift
diff_manifests live signed =
    let a = hashes live in
    let b = hashes signed in
    record {
      added = sort text_ltb (added_to b a);
      removed = sort text_ltb (added_to a b);
      modified = sort text_ltb (modified_in b a);
    }
