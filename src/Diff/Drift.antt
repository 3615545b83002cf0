-- ===== src/Diff/Drift.antt =====
-- When the comparison of two reports finds a drift.
use mathlib.Core.Path.{subst}
use vero_audit_guard.Base.Keys.{Distinct, Distinct-insert}
use vero_audit_guard.Base.Dict.{Dict, lookup, has, insert, lookup-insert}
use vero_audit_guard.Base.{
  ℕ, Bool, String, List, Option, none, some, true, false, str_eq, if◌then◌else◌, length, ◌∷◌, [],
  ◌≡◌, refl, sym, ap, ◌∙◌, ◌↔◌, ◌+◌, ◌⊎◌, inl, inr, arith, eq_iff, Bool-cases, All, length-append,
  ◌≢◌, ◌≤◌,
}
use vero_audit_guard.Diff.{
  DiffFinding, ScanReport, DiffReport, is_modified, place, sort_current, find_removed,
  create_findings_key, create_findings_map, compare, blank_report, same_text,
}

-- What makes a finding of a key differ from the previous one.
abbrev pub details : Option DiffFinding → Option (Option String × Option String)
details none = none
details (some f) = some (f.severity, f.snippet)

abbrev or_else : Option DiffFinding → Option DiffFinding → Option DiffFinding
or_else none other = other
or_else (some f) other = some f

same_text_iff : (s t : Option String) → (same_text s t ≡ true) ↔ (s ≡ t)
same_text_iff none none = ((λ h. refl), λ h. refl)
same_text_iff none (some t) = ((λ h. cc), λ h. cc)
same_text_iff (some s) none = ((λ h. cc), λ h. cc)
same_text_iff (some s) (some t) = ground (arith, eq_iff s t)

abbrev Kept : Dict DiffFinding → (String × DiffFinding) → Type 0
Kept previous e = details (lookup e.0 previous) ≡ details (some e.1)

alarms : DiffReport → ℕ
alarms r = length r.added + length r.modified

is_modified_iff :
    (f p : DiffFinding) → (is_modified f p ≡ false) ↔ (details (some p) ≡ details (some f))
unfolding is_modified
is_modified_iff f p =
    let a = same_text_iff f.severity p.severity in
    let b = same_text_iff f.snippet p.snippet in ground (arith, a, b)

place-quiet :
    (p : Option DiffFinding) (f : DiffFinding) (r : DiffReport)
    → ((details p ≡ details (some f)) × (alarms (place p f r) ≡ alarms r))
      ⊎ ((details p ≢ details (some f)) × (alarms (place p f r) ≡ alarms r + 1))
unfolding place alarms
place-quiet none f r = inr ((λ e. cc), omega (arith, length-append r.added (f ∷ [])))
place-quiet (some p) f r = elim (Bool-cases (is_modified f p)) [
  | inl b ↦ inr (
    (λ e. absurd (ground (arith, b, e, is_modified_iff f p))),
    ground (arith, b, length-append r.modified (f ∷ [])),
  )
  | inr b ↦ inl (ground (arith, b, is_modified_iff f p), ground (arith, b))
]

sort_current-quiet :
    (previous m : Dict DiffFinding) (r : DiffReport)
    → (alarms r ≤ alarms (sort_current previous m r))
      × ((alarms (sort_current previous m r) ≡ alarms r) ↔ All (Kept previous) m)
unfolding sort_current
sort_current-quiet previous [] r = (omega arith, ((λ h. tt), λ h. refl))
sort_current-quiet previous ((k, f) ∷ m) r =
    let now = place-quiet (lookup k previous) f r in
    let (low, (there, back)) = sort_current-quiet previous m (place (lookup k previous) f r) in
    elim now [
      | inl (same, q) ↦
          (omega (arith, low, q), ((λ h. (same, there (h ∙ sym q))), λ h. back h.1 ∙ q))
      | inr (other, q) ↦ (
        omega (arith, low, q),
        ((λ h. absurd (omega (arith, low, q, h))), λ h. absurd (other h.0)),
      )
    ]

find_removed-none :
    (current m : Dict DiffFinding)
    → (length (find_removed current m) ≡ 0) ↔ All (λ e. has e.0 current ≡ true) m
unfolding find_removed
find_removed-none current [] = ((λ h. tt), λ h. refl)
find_removed-none current ((k, f) ∷ m) = ground (arith, find_removed-none current m)

has-lookup : (k : String) (m : Dict DiffFinding) → (has k m ≡ false) ↔ (lookup k m ≡ none)
unfolding has lookup
has-lookup k [] = ground arith
has-lookup k ((j, w) ∷ m) = ground (arith, has-lookup k m)

-- A property of the entries is one of what the keys look up.
All-lookup :
    (P : String × DiffFinding → Type 0) (m : Dict DiffFinding)
    → Distinct m
    → All P m ↔ ((k : String) (f : DiffFinding) → lookup k m ≡ some f → P (k, f))
unfolding lookup
All-lookup P [] d = ((λ a k f e. cc), λ h. tt)
All-lookup P ((j, w) ∷ m) d =
    let (there, back) = All-lookup P m d.1 in
    (
      (λ a k f e. elim (Bool-cases (str_eq j k)) [
        | inl b ↦ subst P (ground (arith, b, e, eq_iff j k)) a.0
        | inr b ↦ there a.1 k f (ground (arith, b, e))
      ]),
      λ h. (
        h j w (ground (arith, eq_iff j j)),
        back (λ k f e. h k f (ground (arith, e, d.0, eq_iff j k, has-lookup k m))),
      ),
    )

found : (o : Option DiffFinding) → (o ≡ none) ⊎ ((f : DiffFinding) × (o ≡ some f))
found none = inl refl
found (some f) = inr (f, refl)

Kept-lookup :
    (c p : Dict DiffFinding)
    → Distinct c
    → Distinct p
    → (All (Kept p) c × All (λ e. has e.0 c ≡ true) p)
      ↔ ((k : String) → details (lookup k c) ≡ details (lookup k p))
Kept-lookup c p dc dp =
    let (kept, all_kept) = All-lookup (Kept p) c dc in
    let (there, all_there) = All-lookup (λ e. has e.0 c ≡ true) p dp in
    (
      (λ (a, b) k. elim (found (lookup k c)) [
        | inr (f, e) ↦ ap details e ∙ sym (kept a k f e)
        | inl e ↦ elim (found (lookup k p)) [
          | inr (f, e') ↦ absurd (ground (arith, e, there b k f e', has-lookup k c))
          | inl e' ↦ ap details (e ∙ sym e')
        ]
      ]),
      λ h. (
        all_kept (λ k f e. sym (h k) ∙ ap details e),
        all_there (λ k f e. missing k f (h k ∙ ap details e)),
      ),
    )
  where
    missing :
        (k : String) (f : DiffFinding) → details (lookup k c) ≡ details (some f) → has k c ≡ true
    missing k f e = elim (Bool-cases (has k c)) [
      | inl b ↦ b
      | inr b ↦ absurd (ground (arith, e, has-lookup k c, b))
    ]

chosen :
    (later : Option DiffFinding) (b : Bool) (f : DiffFinding) (o : Option DiffFinding)
    → or_else later (if b then some f else o)
      ≡ or_else (or_else later (if b then some f else none)) o
chosen none true f o = refl
chosen none false f o = refl
chosen (some g) b f o = refl

or_else-none : (o : Option DiffFinding) → or_else o none ≡ o
or_else-none none = refl
or_else-none (some f) = refl

-- The last finding of a key in a report.
unfoldable pub latest : (ℕ → String) → String → List DiffFinding → Option DiffFinding
latest number_text k [] = none
latest number_text k (f ∷ fs) =
    or_else (latest number_text k fs)
      (if str_eq (create_findings_key number_text f) k then some f else none)

module _ (number_text : ℕ → String) where
  lookup-create_findings_map :
      (k : String) (m : Dict DiffFinding) (fs : List DiffFinding)
      → lookup k (create_findings_map number_text m fs)
        ≡ or_else (latest number_text k fs) (lookup k m)
  unfolding create_findings_map latest
  lookup-create_findings_map k m [] = refl
  lookup-create_findings_map k m (f ∷ fs) =
      let key = create_findings_key number_text f in
      let later = latest number_text k fs in
      lookup-create_findings_map k (insert key f m) fs
      ∙ ap (or_else later) (lookup-insert key k m f)
      ∙ chosen later (str_eq key k) f (lookup k m)

  create_findings_map-Distinct :
      (m : Dict DiffFinding) (fs : List DiffFinding)
      → Distinct m
      → Distinct (create_findings_map number_text m fs)
  unfolding create_findings_map
  create_findings_map-Distinct m [] d = d
  create_findings_map-Distinct m (f ∷ fs) d =
      let key = create_findings_key number_text f in
      create_findings_map-Distinct (insert key f m) fs (Distinct-insert key f m d)

  last_of :
      (k : String) (fs : List DiffFinding)
      → lookup k (create_findings_map number_text [] fs) ≡ latest number_text k fs
  unfolding lookup
  last_of k fs = lookup-create_findings_map k [] fs ∙ or_else-none (latest number_text k fs)

  -- Two reports, the previous one present: no drift is detected exactly if every key is on the same
  -- footing in both, that is, missing from both or with the same severity and the same snippet in
  -- the last finding of that key.
  pub compare-drift_detected_iff :
      (current previous : ScanReport)
      → ((compare number_text current (some previous)).drift_detected ≡ false) ↔ (
          (k : String)
          → details (latest number_text k current.findings)
            ≡ details (latest number_text k previous.findings))
  unfolding compare alarms
  compare-drift_detected_iff current previous =
      let c = create_findings_map number_text [] current.findings in
      let p = create_findings_map number_text [] previous.findings in
      let quiet = sort_current-quiet p c (blank_report current previous) in
      let gone = find_removed-none c p in
      let (same, kept) =
        Kept-lookup c p (create_findings_map-Distinct [] current.findings tt)
          (create_findings_map-Distinct [] previous.findings tt) in
      (
        (λ e k.
            ap details (sym (last_of k current.findings))
            ∙ same (quiet.1.0 (ground (arith, e)), gone.0 (ground (arith, e))) k
            ∙ ap details (last_of k previous.findings)),
        λ h.
            let (a, b) = kept (λ k.
              ap details (last_of k current.findings)
              ∙ h k
              ∙ ap details (sym (last_of k previous.findings))) in
            ground (arith, quiet.1.1 a, gone.1 b),
      )
