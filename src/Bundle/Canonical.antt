-- ===== src/Bundle/Canonical.antt =====
-- What a signature over the canonical text of a manifest covers.
use vero_audit_guard.Base.{ℕ, ◌≡◌, refl, List, [], ◌∷◌, arith}
use vero_audit_guard.Base.Json.{code_points, quote-inj, after, after_key, after_text, decimal-inj}
use vero_audit_guard.Base.Sort.{sort, sort-perm}
use mathlib.Core.Path.{ap₂}
use mathlib.Core.List.{Perm, append_cancel_left}
use mathlib.Core.List.Perm
use vero_audit_guard.Bundle.Manifest.{
  PolicyBundleFileEntry, PolicyBundleManifest, entry_json, more_json, files_json, earlier,
  canonicalize_manifest,
}

entry-eq :
    (f g : PolicyBundleFileEntry)
    → f.path ≡ g.path
    → f.sha256 ≡ g.sha256
    → f.bytes ≡ g.bytes
    → f ≡ g
entry-eq f g a b c = λ i. record { path = a i; sha256 = b i; bytes = c i }

entry_json-inj :
    (f g : PolicyBundleFileEntry) (r r' : List ℕ)
    → entry_json f r ≡ entry_json g r'
    → (f ≡ g) × (r ≡ r')
entry_json-inj f g r r' e =
    let e1 = after_key "path" _ _ (after b'{' _ _ e) in
    let (path, e2) = after_text f.path g.path _ _ e1 in
    let e3 = after_key "sha256" _ _ e2 in
    let (sha256, e4) = after_text f.sha256 g.sha256 _ _ e3 in
    let (bytes, rest) = decimal-inj f.bytes g.bytes r r' (after_key "bytes" _ _ e4) in
    (entry-eq f g path sha256 bytes, rest)

more_json-inj :
    (fs gs : List PolicyBundleFileEntry) (r r' : List ℕ)
    → more_json fs r ≡ more_json gs r'
    → (fs ≡ gs) × (r ≡ r')
unfolding more_json
more_json-inj [] [] r r' e = (refl, cc)
more_json-inj [] (g ∷ gs) r r' e = let p : ◌≡◌ {A = ℕ} b']' b',' = cc in absurd (omega (arith, p))
more_json-inj (f ∷ fs) [] r r' e = let p : ◌≡◌ {A = ℕ} b',' b']' = cc in absurd (omega (arith, p))
more_json-inj (f ∷ fs) (g ∷ gs) r r' e =
    let (p, q) = entry_json-inj f g _ _ (after b',' _ _ e) in
    let (ps, t) = more_json-inj fs gs r r' q in (ap₂ (λ x y. x ∷ y) p ps, t)

files_json-inj :
    (fs gs : List PolicyBundleFileEntry) (r r' : List ℕ)
    → files_json fs r ≡ files_json gs r'
    → (fs ≡ gs) × (r ≡ r')
unfolding files_json
files_json-inj [] [] r r' e = (refl, cc)
files_json-inj [] (g ∷ gs) r r' e = let p : ◌≡◌ {A = ℕ} b']' b'{' = cc in absurd (omega (arith, p))
files_json-inj (f ∷ fs) [] r r' e = let p : ◌≡◌ {A = ℕ} b'{' b']' = cc in absurd (omega (arith, p))
files_json-inj (f ∷ fs) (g ∷ gs) r r' e =
    let (p, q) = entry_json-inj f g _ _ (after b'[' _ _ e) in
    let (ps, t) = more_json-inj fs gs r r' q in (ap₂ (λ x y. x ∷ y) p ps, t)

-- Two manifests with one canonical text have the same files, in some order, and the same digest: a
-- signature over the text covers every path, hash and size.
pub canonicalize_manifest-inj :
    (m n : PolicyBundleManifest)
    → canonicalize_manifest m ≡ canonicalize_manifest n
    → Perm m.files n.files × (m.bundle_digest ≡ n.bundle_digest)
unfolding canonicalize_manifest
canonicalize_manifest-inj m n e =
    let head = code_points "{\"version\":1,\"algorithm\":\"sha256\",\"files\":" in
    let e1 = append_cancel_left head _ _ e in
    let (fs, e2) = files_json-inj (sort earlier m.files) (sort earlier n.files) _ _ e1 in
    let e3 = after_key "bundle_digest" _ _ (after b',' _ _ e2) in
    let (digest, e4) = quote-inj m.bundle_digest n.bundle_digest _ _ e3 in
    (Perm.trans (Perm.symm (sort-perm earlier m.files)) (rw fs (sort-perm earlier n.files)), digest)
