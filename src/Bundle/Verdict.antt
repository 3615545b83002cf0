-- ===== src/Bundle/Verdict.antt =====
-- When a bundle is verified.
use vero_audit_guard.Base.{
  ℕ, ◌++◌, ◌==◌, if◌then◌else◌, ◌≡◌, refl, ◌↔◌, inl, inr, true, false, Option, none, some, List, [],
  ◌∷◌, String, arith, length, All, Bool-cases, Option-cases, includes, str_eq, ◌∙◌, eq_iff, sym, ap,
  ◌≢◌, Bool, ◌⊎◌, trim,
}
use vero_audit_guard.Base.Dict.{Dict, has, lookup, insert}
use vero_audit_guard.Base.Keys.{Distinct, Distinct-insert}
use vero_audit_guard.Base.Sort.{length-sort, text_ltb}
use vero_audit_guard.Bundle.Manifest.{
  PolicyBundleFileEntry, PolicyBundleManifest, hashes_from, hashes, added_to, modified_in, differs,
  diff_manifests, canonicalize_manifest, PolicyBundleErrorCode, computed, bundle_tampered, Computed,
  failed, compute_bundle_manifest,
}
use vero_audit_guard.Bundle.{
  has_drift, first_signer, signed_by, accepts, PolicyBundleVerifier, hex_to_buffer, SignatureCheck,
  check_bytes, verify_signature, check_signature, refused, judge, hex_bytes, Json, errors_of,
  conclude, verify, Disk, load_manifest,
}

-- A map built by `set` has each key once.
hashes_from-Distinct :
    (m : Dict String) (fs : List PolicyBundleFileEntry) → Distinct m → Distinct (hashes_from m fs)
unfolding hashes_from
hashes_from-Distinct m [] d = d
hashes_from-Distinct m (f ∷ fs) d =
    hashes_from-Distinct (insert f.path f.sha256 m) fs (Distinct-insert f.path f.sha256 m d)

some-inj : {a b : String} → ◌≡◌ {A = Option String} (some a) (some b) → a ≡ b
some-inj h = cc

-- Every entry of `a` stands in `b`.
abbrev Within : Dict String → Dict String → Type 0
Within b a = All (λ e. lookup e.0 b ≡ some e.1) a

has-lookup : (k : String) (m : Dict String) (v : String) → lookup k m ≡ some v → has k m ≡ true
unfolding has lookup
has-lookup k [] v h = cc
has-lookup k ((j, w) ∷ m) v h = ground (arith, has-lookup k m v)

lookup-has : (k : String) (m : Dict String) → lookup k m ≡ none → has k m ≡ false
unfolding has lookup
lookup-has k [] h = refl
lookup-has k ((j, w) ∷ m) h = ground (arith, lookup-has k m)

-- The loops find nothing exactly if every entry stands in the other map.
loops_iff :
    (b a : Dict String)
    → ((length (added_to b a) ≡ 0) × (length (modified_in b a) ≡ 0)) ↔ Within b a
unfolding added_to modified_in differs
loops_iff b [] = (λ h. tt, λ h. (refl, refl))
loops_iff b ((p, hash) ∷ a) =
    let (to, from) = loops_iff b a in
    elim (Option-cases (lookup p b)) [
      | inl q ↦ let g = lookup-has p b q in simp (q, g) (λ (h, k). cc, λ (h, k). cc)
      | inr (h, q) ↦
          let g = has-lookup p b h q in
          elim (Bool-cases (str_eq h hash)) [
            | inl e ↦
                let same : h ≡ hash = ground (arith, eq_iff h hash) in
                simp (q, g, e) (λ k. (ap some same, to k), λ (x, y). from y)
            | inr e ↦
                let other : h ≢ hash = ground (arith, eq_iff h hash) in
                simp (q, g, e) (λ (x, y). cc, λ (x, y). absurd (other (some-inj x)))
          ]
    ]

Within-lookup :
    (b a : Dict String) → Within b a → (p h : String) → lookup p a ≡ some h → lookup p b ≡ some h
unfolding lookup
Within-lookup b [] w p h l = cc
Within-lookup b ((q, g) ∷ a) w p h l = ground (arith, eq_iff q p, Within-lookup b a w.1 p h)

-- Two maps with the same entries.
abbrev pub Same : Dict String → Dict String → Type 0
Same a b = (p : String) → lookup p a ≡ lookup p b

Same-of-Within : (a b : Dict String) → Within b a → Within a b → Same a b
Same-of-Within a b v w p = elim (Option-cases (lookup p a)) [
  | inr (h, e) ↦ e ∙ sym (Within-lookup b a v p h e)
  | inl e ↦ elim (Option-cases (lookup p b)) [
    | inl f ↦ e ∙ sym f
    | inr (h, f) ↦ let g = Within-lookup a b w p h f in cc
  ]
]

Within-of-Distinct :
    (b a : Dict String)
    → Distinct a
    → ((p h : String) → lookup p a ≡ some h → lookup p b ≡ some h)
    → Within b a
unfolding lookup
Within-of-Distinct b [] d f = tt
Within-of-Distinct b ((p, h) ∷ a) d f = (
  f p h (ground (arith, eq_iff p p)),
  Within-of-Distinct b a d.1
      (λ q g l. let k = has-lookup q a g l in f q g (ground (arith, eq_iff p q, d.0))),
)

added_to-has :
    (a b : Dict String) (p h : String)
    → length (added_to a b) ≡ 0
    → lookup p b ≡ some h
    → has p a ≡ true
unfolding added_to lookup
added_to-has a [] p h n l = cc
added_to-has a ((q, g) ∷ b) p h n l = ground (arith, eq_iff q p, added_to-has a b p h)

-- What was added nothing to and had nothing removed has the same keys, so the converse holds too.
Within-back : (a b : Dict String) → Distinct b → length (added_to a b) ≡ 0 → Within b a → Within a b
Within-back a b d n w = Within-of-Distinct a b d (λ p h l. elim (Option-cases (lookup p a)) [
  | inl e ↦ let g = added_to-has a b p h n l in let k = lookup-has p a e in cc
  | inr (g, e) ↦ let k = Within-lookup b a w p g e in cc
])

-- No drift is reported exactly if both manifests give every path the same hash.
pub has_drift_iff :
    (live signed : PolicyBundleManifest)
    → (has_drift (diff_manifests live signed) ≡ false) ↔ Same (hashes live) (hashes signed)
unfolding has_drift diff_manifests
has_drift_iff live signed =
    let a = hashes live in
    let b = hashes signed in
    let da = hashes_from-Distinct [] live.files tt in
    let db = hashes_from-Distinct [] signed.files tt in
    let n1 = length-sort text_ltb (added_to b a) in
    let n2 = length-sort text_ltb (added_to a b) in
    let n3 = length-sort text_ltb (modified_in b a) in
    let (to, from) = loops_iff b a in
    let (to', from') = loops_iff a b in
    (
      λ h.
          let w = to (ground arith, ground arith) in
          Same-of-Within a b w (Within-back a b db (ground arith) w),
      λ h.
          let v = Within-of-Distinct b a da (λ p g l. sym (h p) ∙ l) in
          let w = Within-of-Distinct a b db (λ p g l. h p ∙ l) in
          let (x, y) = from v in let z = (from' w).0 in ground arith,
    )

includes-length :
    (keys : List String) (key : String) → includes keys key ≡ true → (length keys == 0) ≡ false
includes-length [] key h = absurd cc
includes-length (k ∷ keys) key h = ground arith

no_bytes : hex_to_buffer "" ≡ none
unfolding hex_to_buffer trim hex_bytes
no_bytes = refl

hex_to_buffer-ne-empty :
    (s : String) (bytes : List ℕ) → hex_to_buffer s ≡ some bytes → str_eq s "" ≡ false
hex_to_buffer-ne-empty s bytes q = elim (Bool-cases (str_eq s "")) [
  | inl b ↦ absurd (let e : s ≡ "" = ground (arith, eq_iff s "") in let z = no_bytes in cc)
  | inr b ↦ b
]

check-cases :
    (c : SignatureCheck)
    → ((key : String) × (c ≡ signed_by key)) ⊎ ((x : PolicyBundleErrorCode) × (c ≡ refused x))
check-cases (signed_by key) = inl (key, refl)
check-cases (refused x) = inr (x, refl)

accepts-some : (o : Option Bool) → accepts o ≡ true → o ≡ some true
accepts-some (some true) h = refl
accepts-some (some false) h = absurd cc
accepts-some none h = absurd cc

module _ (verifies : String → List ℕ → List ℕ → Option Bool) where
  -- A trusted key under which the signature over the manifest's canonical text is genuine.
  abbrev pub SignedBy : List String → List ℕ → List ℕ → Type 0
  SignedBy keys payload bytes =
      (key : String) × (includes keys key ≡ true) × (verifies key payload bytes ≡ some true)

  first_signer-finds :
      (keys : List String) (payload bytes : List ℕ)
      → SignedBy keys payload bytes
      → (key : String) × (first_signer verifies keys payload bytes ≡ signed_by key)
  unfolding first_signer
  first_signer-finds [] payload bytes (key, m, v) = absurd cc
  first_signer-finds (k ∷ keys) payload bytes (key, m, v) =
      elim (Bool-cases (accepts (verifies k payload bytes))) [
        | inl b ↦ (k, rw b refl)
        | inr b ↦
            let other : str_eq k key ≡ false = ground (arith, eq_iff k key, v, b) in
            let (x, e) = first_signer-finds keys payload bytes (key, ground arith, v) in (x, rw b e)
      ]

  first_signer-SignedBy :
      (keys : List String) (payload bytes : List ℕ) (key : String)
      → first_signer verifies keys payload bytes ≡ signed_by key
      → (includes keys key ≡ true) × (accepts (verifies key payload bytes) ≡ true)
  unfolding first_signer
  first_signer-SignedBy [] payload bytes key e = absurd cc
  first_signer-SignedBy (k ∷ keys) payload bytes key e =
      elim (Bool-cases (accepts (verifies k payload bytes))) [
        | inl b ↦ let same : k ≡ key = cc in (ground (arith, eq_iff k key), rw (sym same) b)
        | inr b ↦
            let (m, a) = first_signer-SignedBy keys payload bytes key (simp b at e) in
            (ground arith, a)
      ]

  -- The signature text is hexadecimal, and a trusted key made it over the manifest.
  abbrev pub Signed : PolicyBundleVerifier → PolicyBundleManifest → Type 0
  Signed v m =
      (s : String) × (v.signature ≡ some s)
      × ((bytes : List ℕ) × (hex_to_buffer s ≡ some bytes)
          × SignedBy v.trusted_signers (canonicalize_manifest m) bytes)

  named :
      (key : String) (payload bytes : List ℕ)
      → accepts (verifies key payload bytes) ≡ true
      → verifies "" payload bytes ≡ none
      → str_eq key "" ≡ false
  named key payload bytes a no_key = elim (Bool-cases (str_eq key "")) [
    | inl b ↦
        absurd
          (let e : key ≡ "" = ground (arith, eq_iff key "") in let r = simp (e, no_key) at a in cc)
    | inr b ↦ b
  ]

  check_bytes-Signed :
      (v : PolicyBundleVerifier) (m : PolicyBundleManifest) (s key : String)
      → v.signature ≡ some s
      → check_bytes verifies v m (hex_to_buffer s) ≡ signed_by key
      → Signed v m
  unfolding check_bytes
  check_bytes-Signed v m s key p e = elim (Option-cases (hex_to_buffer s)) [
    | inl q ↦ absurd (let r = simp q at e in cc)
    | inr (bytes, q) ↦
        let r = simp q at e in
        let (i, a) =
          first_signer-SignedBy v.trusted_signers (canonicalize_manifest m) bytes key r in
        (s, p, (bytes, q, (key, i, accepts-some _ a)))
  ]

  verify_signature-Signed :
      (v : PolicyBundleVerifier) (m : PolicyBundleManifest) (key : String)
      → verify_signature verifies v m ≡ signed_by key
      → Signed v m
  unfolding verify_signature check_signature
  verify_signature-Signed v m key e = elim (Option-cases v.signature) [
    | inl p ↦ absurd (let r = simp p at e in cc)
    | inr (s, p) ↦
        check_bytes-Signed v m s key p (let r = simp (p, check_signature) at e in ground arith)
  ]

  Signed-finds :
      (v : PolicyBundleVerifier) (m : PolicyBundleManifest)
      → Signed v m
      → ((payload bytes : List ℕ) → verifies "" payload bytes ≡ none)
      → (key : String) × (verify_signature verifies v m ≡ signed_by key) × (str_eq key "" ≡ false)
  unfolding verify_signature check_signature check_bytes
  Signed-finds v m (s, p, (bytes, q, by)) no_key =
      let (key, e) = first_signer-finds v.trusted_signers (canonicalize_manifest m) bytes by in
      let some_key = includes-length v.trusted_signers by.0 by.1 in
      let some_text = hex_to_buffer-ne-empty s bytes q in
      let (i, a) = first_signer-SignedBy v.trusted_signers (canonicalize_manifest m) bytes key e in
      (
        key,
        simp (p, check_signature, some_text, some_key, q) e,
        named key (canonicalize_manifest m) bytes a (no_key (canonicalize_manifest m) bytes),
      )

  nothing_wrong :
      (a : Bool) (c : SignatureCheck)
      → (length ((if a then bundle_tampered ∷ [] else []) ++ errors_of c) == 0) ≡ true
      → (a ≡ false) × ((key : String) × (c ≡ signed_by key))
  nothing_wrong false (signed_by key) h = (refl, (key, refl))
  nothing_wrong false (refused x) h = absurd cc
  nothing_wrong true (signed_by key) h = absurd cc
  nothing_wrong true (refused x) h = absurd cc

  judge_iff :
      (v : PolicyBundleVerifier) (live m : PolicyBundleManifest)
      → ((payload bytes : List ℕ) → verifies "" payload bytes ≡ none)
      → ((judge verifies v live (computed m)).verified ≡ true)
        ↔ (Same (hashes live) (hashes m) × Signed v m)
  unfolding judge
  judge_iff v live m no_key =
      let (to, from) = has_drift_iff live m in
      (
        λ h.
            let (a, (key, e)) =
              nothing_wrong (has_drift (diff_manifests live m)) (verify_signature verifies v m)
                (ground arith) in
            (to a, verify_signature-Signed v m key e),
        λ (h, k).
            let (key, e, n) = Signed-finds v m k no_key in let a = from h in simp (a, e, n) refl,
      )

module _ (lower : String → String) (extensions : List String)
    (sha256_bytes sha256_text : List ℕ → String) (parse : String → Json)
    (verifies : String → List ℕ → List ℕ → Option Bool) where
  -- The disk's bundle and its manifest can both be read, they give every path the same hash, and the
  -- manifest is signed by a trusted key.
  abbrev pub Genuine : PolicyBundleVerifier → Computed → Computed → Type 0
  Genuine v here loaded =
      (live : PolicyBundleManifest) × ((signed : PolicyBundleManifest) × (here ≡ computed live)
        × (loaded ≡ computed signed)
        × Same (hashes live) (hashes signed)
        × Signed verifies v signed)

  conclude_iff :
      (v : PolicyBundleVerifier) (here loaded : Computed)
      → ((payload bytes : List ℕ) → verifies "" payload bytes ≡ none)
      → ((conclude verifies v here loaded).0.verified ≡ true) ↔ Genuine v here loaded
  unfolding conclude judge
  conclude_iff v (failed x) loaded no_key = (λ h. absurd cc, λ (live, (m, p, q, r, t)). absurd cc)
  conclude_iff v (computed live) (failed x) no_key =
      (λ h. absurd cc, λ (l, (m, p, q, r, t)). absurd cc)
  conclude_iff v (computed live) (computed m) no_key =
      let (to, from) = judge_iff verifies v live m no_key in
      (
        λ h. let (a, b) = to h in (live, (m, refl, refl, a, b)),
        λ (l, (n, p, q, a, b)).
            let el : live ≡ l = cc in let em : m ≡ n = cc in from (rw (el, em) a, rw em b),
      )

  -- Where the empty text is no public key: a bundle is verified exactly if the directory and the
  -- signed manifest can both be read, give every path the same hash, and the manifest's canonical
  -- text carries a genuine signature of one of the trusted signers.
  pub verify_iff :
      (v : PolicyBundleVerifier) (disk : Disk)
      → ((payload bytes : List ℕ) → verifies "" payload bytes ≡ none)
      → ((verify lower extensions sha256_bytes sha256_text parse verifies v disk).0.verified ≡ true)
        ↔ Genuine v
            (compute_bundle_manifest sha256_bytes sha256_text lower extensions disk.policies_dir)
            (load_manifest parse disk.manifest)
  unfolding verify
  verify_iff v disk no_key =
      conclude_iff v
        (compute_bundle_manifest sha256_bytes sha256_text lower extensions disk.policies_dir)
        (load_manifest parse disk.manifest) no_key
