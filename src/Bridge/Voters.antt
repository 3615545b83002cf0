-- ===== src/Bridge/Voters.antt =====
-- Who votes: the endpoints in order of priority, and the secondaries of a verification.
use vero_audit_guard.Base.{
  ℕ, ◌≤◌, ◌≡◌, refl, sym, true, false, not, ◌||◌, List, [], ◌∷◌, ◌++◌, String, arith, ltb, includes,
  All, Bool-cases, inl, inr, eq_iff,
}
use mathlib.Core.List.{Perm, perm_middle, append-nil, Mem, mem-cons_of_mem, mem-cons_self}
use mathlib.Core.List.Perm
use mathlib.Core.Path.{subst}
use vero_audit_guard.Bridge.{Endpoint, insert_endpoint, sort_from, sort_endpoints, distinct_from}

abbrev pub ByPriority : List Endpoint → Type 0
ByPriority [] = Unit
ByPriority (e ∷ es) = All (λ x. x.priority ≤ e.priority) es × ByPriority es

insert_endpoint-All :
    (bound : ℕ) (e : Endpoint) (es : List Endpoint)
    → e.priority ≤ bound
    → All (λ x. x.priority ≤ bound) es
    → All (λ x. x.priority ≤ bound) (insert_endpoint e es)
unfolding insert_endpoint
insert_endpoint-All bound e [] h a = (h, tt)
insert_endpoint-All bound e (x ∷ xs) h a = ground (arith, insert_endpoint-All bound e xs h a.1)

All-le :
    (a b : ℕ) (es : List Endpoint)
    → a ≤ b
    → All (λ x. x.priority ≤ a) es
    → All (λ x. x.priority ≤ b) es
All-le a b [] h k = tt
All-le a b (e ∷ es) h k = (omega arith, All-le a b es h k.1)

insert_endpoint-ByPriority :
    (e : Endpoint) (es : List Endpoint) → ByPriority es → ByPriority (insert_endpoint e es)
unfolding insert_endpoint
insert_endpoint-ByPriority e [] h = (tt, tt)
insert_endpoint-ByPriority e (x ∷ xs) h = ground (
  arith,
  insert_endpoint-ByPriority e xs h.1,
  insert_endpoint-All x.priority e xs,
  All-le x.priority e.priority xs,
)

insert_endpoint-perm : (e : Endpoint) (es : List Endpoint) → Perm (insert_endpoint e es) (e ∷ es)
unfolding insert_endpoint
insert_endpoint-perm e [] = Perm.refl (e ∷ [])
insert_endpoint-perm e (x ∷ xs) =
    elim (Bool-cases (ltb e.priority x.priority || not (ltb x.priority e.priority))) [
      | inl b ↦ rw b (Perm.trans (Perm.cons x (insert_endpoint-perm e xs)) (Perm.swap e x xs))
      | inr b ↦ rw b (Perm.refl (e ∷ x ∷ xs))
    ]

sort_from-ByPriority : (done es : List Endpoint) → ByPriority done → ByPriority (sort_from done es)
unfolding sort_from
sort_from-ByPriority done [] h = h
sort_from-ByPriority done (e ∷ es) h =
    sort_from-ByPriority (insert_endpoint e done) es (insert_endpoint-ByPriority e done h)

sort_from-perm : (done es : List Endpoint) → Perm (sort_from done es) (done ++ es)
unfolding sort_from
sort_from-perm done [] = rw append-nil (Perm.refl done)
sort_from-perm done (e ∷ es) = Perm.trans (sort_from-perm (insert_endpoint e done) es) (
    Perm.trans (Perm.append (insert_endpoint-perm e done) (Perm.refl es))
      (Perm.symm (perm_middle done es)))

-- The endpoints are tried in falling order of priority, and none is lost or made up.
pub sort_endpoints_lem :
    (es : List Endpoint) → ByPriority (sort_endpoints es) × Perm (sort_endpoints es) es
unfolding sort_endpoints
sort_endpoints_lem es = (sort_from-ByPriority [] es tt, sort_from-perm [] es)

pub All-map :
    (P Q : Endpoint → Type 0) (es : List Endpoint)
    → ((x : Endpoint) → P x → Q x)
    → All P es
    → All Q es
All-map P Q [] f h = tt
All-map P Q (e ∷ es) f h = (f e h.0, All-map P Q es f h.1)

module _ (identity : Endpoint → String) where
  -- No identity is among `seen`, and none occurs twice.
  abbrev pub Fresh : List String → List Endpoint → Type 0
  Fresh seen [] = Unit
  Fresh seen (e ∷ es) = (includes seen (identity e) ≡ false) × Fresh (identity e ∷ seen) es

  -- The voters of a verification are distinct: no resolved URL occurs twice, and none is one seen
  -- before, as the primary's own is.
  pub distinct_from-Fresh :
      (seen : List String) (es : List Endpoint) → Fresh seen (distinct_from identity seen es)
  unfolding distinct_from
  distinct_from-Fresh seen [] = tt
  distinct_from-Fresh seen (e ∷ es) =
      ground (arith, distinct_from-Fresh seen es, distinct_from-Fresh (identity e ∷ seen) es)

  abbrev pub identities : List Endpoint → List String
  identities [] = []
  identities (e ∷ es) = identity e ∷ identities es

  pub distinct_from-listed :
      (seen : List String) (es all : List Endpoint)
      → ((x : Endpoint) → Mem x es → Mem x all)
      → All (λ x. Mem x all) (distinct_from identity seen es)
  unfolding distinct_from
  distinct_from-listed seen [] all h = tt
  distinct_from-listed seen (e ∷ es) all h = elim (Bool-cases (includes seen (identity e))) [
    | inl b ↦ rw b (distinct_from-listed seen es all (λ x m. h x (mem-cons_of_mem e m)))
    | inr b ↦ rw b (
      h e (mem-cons_self),
      distinct_from-listed (identity e ∷ seen) es all (λ x m. h x (mem-cons_of_mem e m)),
    )
  ]

  abbrev pub Asked : List String → List Endpoint → Endpoint → Type 0
  Asked seen voters x =
      (includes seen (identity x) || includes (identities voters) (identity x)) ≡ true

  -- Every endpoint's identity has been seen before or is a voter's.
  pub distinct_from-Asked :
      (seen : List String) (es : List Endpoint)
      → All (Asked seen (distinct_from identity seen es)) es
  unfolding distinct_from
  distinct_from-Asked seen [] = tt
  distinct_from-Asked seen (e ∷ es) =
      let key = identity e in
      elim (Bool-cases (includes seen key)) [
        | inl b ↦
            let q : distinct_from identity seen (e ∷ es) ≡ distinct_from identity seen es =
              rw b refl in
            subst (λ vs. All (Asked seen vs) (e ∷ es)) (sym q)
              (ground (arith, b), distinct_from-Asked seen es)
        | inr b ↦
            let rest = distinct_from identity (key ∷ seen) es in
            let q : distinct_from identity seen (e ∷ es) ≡ e ∷ rest = rw b refl in
            subst (λ vs. All (Asked seen vs) (e ∷ es)) (sym q)
              (
                ground (arith, eq_iff key key),
                All-map (Asked (key ∷ seen) (distinct_from identity (key ∷ seen) es))
                    (Asked seen (e ∷ distinct_from identity (key ∷ seen) es)) es
                    (λ x h. ground (arith, h)) (distinct_from-Asked (key ∷ seen) es),
              )
      ]
