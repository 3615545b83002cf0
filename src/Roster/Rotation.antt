-- ===== src/Roster/Rotation.antt =====
-- Who is on call after any number of rotations.
use native.Mathlib.Nat.{
  lt_of_lt_of_le, mod-eq_of_lt, mod-lt, mod-add-mod, add-mod-mod, add-mod_right,
}
use vero_audit_guard.Base.{
  ℕ, zero, suc, ◌+◌, ◌-◌, ◌%◌, ◌≤◌, ◌<◌, ◌≡◌, refl, sym, ap, ◌∙◌, ◌⊎◌, inl, inr, true, Option, some,
  List, [], ◌∷◌, arith, length, Bool-cases, get_elem?,
}
use vero_audit_guard.Roster.{
  Role, primary, secondary, manager, OnCallContact, RotationState, has_role, of_role, nobody, pick,
  primary_count, rotate, get_current_on_call, rotations,
}

some-inj : {A : Type 0} {a b : A} → ◌≡◌ {A = Option A} (some a) (some b) → a ≡ b
some-inj h = cc

Nat-cases : (n : ℕ) → (n ≡ 0) ⊎ (0 < n)
Nat-cases zero = inl refl
Nat-cases (suc n) = inr (omega arith)

get_elem?-some :
    {A : Type 0} (xs : List A) (i : ℕ) → i < length xs → (x : A) × (get_elem? xs i ≡ some x)
get_elem?-some [] i h = absurd (omega arith)
get_elem?-some (x ∷ xs) zero h = (x, refl)
get_elem?-some (x ∷ xs) (suc i) h = get_elem?-some xs i (omega arith)

get_elem?-lt : {A : Type 0} (xs : List A) (i : ℕ) (x : A) → get_elem? xs i ≡ some x → i < length xs
get_elem?-lt [] i x h = cc
get_elem?-lt (y ∷ ys) zero x h = omega arith
get_elem?-lt (y ∷ ys) (suc i) x h = let p = get_elem?-lt ys i x h in omega arith

pick-get_elem? :
    (r : Role) (cs : List OnCallContact) (i : ℕ)
    → 0 < length cs
    → get_elem? cs (i % length cs) ≡ some (pick r cs i)
unfolding pick
pick-get_elem? r [] i h = absurd (omega arith)
pick-get_elem? r (c ∷ cs) i h =
    let (d, p) = get_elem?-some (c ∷ cs) (i % length (c ∷ cs)) (mod-lt i h) in rw (p, pick) refl

has_role-nobody : (r : Role) → has_role r (nobody r) ≡ true
has_role-nobody primary = refl
has_role-nobody secondary = refl
has_role-nobody manager = refl

has_role-of_role :
    (r : Role) (cs : List OnCallContact) (i : ℕ) (c : OnCallContact)
    → get_elem? (of_role r cs) i ≡ some c
    → has_role r c ≡ true
has_role-of_role r [] i c h = cc
has_role-of_role r (d ∷ cs) zero c h = elim (Bool-cases (has_role r d)) [
  | inl p ↦ let q : d ≡ c = some-inj (simp p at h) in rw (← q) p
  | inr p ↦ has_role-of_role r cs zero c (simp p at h)
]
has_role-of_role r (d ∷ cs) (suc i) c h = elim (Bool-cases (has_role r d)) [
  | inl p ↦ has_role-of_role r cs i c (simp p at h)
  | inr p ↦ has_role-of_role r cs (suc i) c (simp p at h)
]

pick-empty :
    (r : Role) (cs : List OnCallContact) (i : ℕ)
    → length cs ≡ 0
    → has_role r (pick r cs i) ≡ has_role r (nobody r)
unfolding pick
pick-empty r [] i h = refl
pick-empty r (c ∷ cs) i h = absurd (omega (arith, h))

has_role-pick :
    (r : Role) (cs : List OnCallContact) (i : ℕ) → has_role r (pick r (of_role r cs) i) ≡ true
has_role-pick r cs i = elim (Nat-cases (length (of_role r cs))) [
  | inl p ↦ pick-empty r (of_role r cs) i p ∙ has_role-nobody r
  | inr p ↦ has_role-of_role r cs _ _ (pick-get_elem? r (of_role r cs) i p)
]

module _ (contacts : List OnCallContact) where
  rotate-index :
      (s : RotationState) (now : ℕ)
      → 0 < primary_count contacts
      → (rotate contacts s now).current_primary_index
        ≡ (s.current_primary_index + 1) % primary_count contacts
  unfolding rotate
  rotate-index s now h = ground arith

  -- The n-th rotation from an index is the n-th primary after it, around the list.
  rotations-index :
      (s : RotationState) (ts : List ℕ)
      → 0 < primary_count contacts
      → (rotations contacts s ts).current_primary_index % primary_count contacts
        ≡ (s.current_primary_index + length ts) % primary_count contacts
  unfolding rotations
  rotations-index s [] h = ap (λ i. i % primary_count contacts) (omega arith)
  rotations-index s (now ∷ ts) h =
      rotations-index (rotate contacts s now) ts h
      ∙ ap (λ i. (i + length ts) % primary_count contacts) (rotate-index s now h)
      ∙ mod-add-mod (s.current_primary_index + 1) (primary_count contacts) (length ts)
      ∙ ap (λ i. i % primary_count contacts) (omega arith)

  rotations-lt :
      (s : RotationState) (ts : List ℕ)
      → 0 < primary_count contacts
      → s.current_primary_index < primary_count contacts
      → (rotations contacts s ts).current_primary_index < primary_count contacts
  unfolding rotations
  rotations-lt s [] h l = l
  rotations-lt s (now ∷ ts) h l =
      rotations-lt (rotate contacts s now) ts h
        (rw (rotate-index s now h) (mod-lt (s.current_primary_index + 1) h))

  -- Every primary is reached: `k` rotations, fewer than there are primaries, put any given one on
  -- call, whenever they are made.
  pub rotations-reach :
      (s : RotationState) (j : ℕ) (c : OnCallContact)
      → get_elem? (of_role primary contacts) j ≡ some c
      → (k : ℕ) × (k < primary_count contacts)
        × ((ts : List ℕ)
            → length ts ≡ k
            → (get_current_on_call contacts (rotations contacts s ts)).primary_contact ≡ c)
  unfolding get_current_on_call
  rotations-reach s j c h =
      let n = primary_count contacts in
      let m = get_elem?-lt (of_role primary contacts) j c h in
      let pos : 0 < n = omega (arith, m) in
      let i = s.current_primary_index in
      let k = (j + (n - i % n)) % n in
      (
        k,
        mod-lt (j + (n - i % n)) pos,
        λ ts t.
            let last = (rotations contacts s ts).current_primary_index in
            let at : last % n ≡ j =
              rotations-index s ts pos
              ∙ ap (λ x. (i + x) % n) t
              ∙ add-mod-mod i (j + (n - i % n)) n
              ∙ sym (mod-add-mod i n (j + (n - i % n)))
              ∙ ap (λ x. x % n) (let b = mod-lt i pos in omega (arith, b))
              ∙ add-mod_right j n
              ∙ mod-eq_of_lt m in
            some-inj (
              sym (pick-get_elem? primary (of_role primary contacts) last pos)
              ∙ ap (get_elem? (of_role primary contacts)) at
              ∙ h),
      )

  -- With at least one primary, at least as many secondaries as primaries, and an index below the
  -- number of primaries: after any rotations the secondary on call is one of the first
  -- secondaries, as many as there are primaries.
  pub rotations-secondary :
      (s : RotationState) (ts : List ℕ)
      → 0 < primary_count contacts
      → s.current_primary_index < primary_count contacts
      → primary_count contacts ≤ length (of_role secondary contacts)
      → (i : ℕ) × (i < primary_count contacts)
        × (get_elem? (of_role secondary contacts) i
            ≡ some (get_current_on_call contacts (rotations contacts s ts)).secondary_contact)
  unfolding get_current_on_call
  rotations-secondary s ts h l k =
      let last = (rotations contacts s ts).current_primary_index in
      let m = rotations-lt s ts h l in
      let es = of_role secondary contacts in
      (
        last,
        m,
        ap (get_elem? es) (sym (mod-eq_of_lt (lt_of_lt_of_le m k)))
            ∙ pick-get_elem? secondary es last (lt_of_lt_of_le h k),
      )

  -- Whatever the contacts and the index, the three on call have the roles of primary, secondary
  -- and manager.
  pub get_current_on_call-has_role :
      (s : RotationState)
      → (has_role primary (get_current_on_call contacts s).primary_contact ≡ true)
        × (has_role secondary (get_current_on_call contacts s).secondary_contact ≡ true)
        × (has_role manager (get_current_on_call contacts s).manager_contact ≡ true)
  unfolding get_current_on_call
  get_current_on_call-has_role s = (
    has_role-pick primary contacts s.current_primary_index,
    has_role-pick secondary contacts s.current_primary_index,
    has_role-pick manager contacts s.current_primary_index,
  )
