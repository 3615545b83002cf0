-- ===== src/Detector/Nonces.antt =====
-- The nonces in the file, whoever writes them.
use vero_audit_guard.Base.{
  ℕ, ◌≤◌, ◌≡◌, refl, sym, ◌∙◌, ap, Option, none, some, List, [], ◌∷◌, String, arith, if◌then◌else◌,
  str_eq, Bool-cases, inl, inr, eq_iff, Bool, false, true,
}
use vero_audit_guard.Base.Dict.{Dict, lookup, insert, lookup-insert}
use mathlib.Core.List.{Permᴰ}
use vero_audit_guard.Ingestion as Guards
use vero_audit_guard.Detector.{
  higher, persist_nonce_map, Settings, step, run, Detector, run_once, analyze, Call, other_writer,
  batch,
}

-- The larger of two nonces, where one or both may be missing.
abbrev pub max? : Option ℕ → Option ℕ → Option ℕ
max? a none = a
max? a (some n) = some (higher a n)

-- What a writer's map says of a key: its largest nonce there.
unfoldable pub best : String → Dict ℕ → Option ℕ → Option ℕ
best k [] acc = acc
best k ((j, n) ∷ local) acc = best k local (if str_eq j k then max? acc (some n) else acc)

lookup-persist_nonce_map :
    (k : String) (merged local : Dict ℕ)
    → lookup k (persist_nonce_map merged local) ≡ best k local (lookup k merged)
unfolding persist_nonce_map best
lookup-persist_nonce_map k merged [] = refl
lookup-persist_nonce_map k merged ((j, n) ∷ local) =
    let next = insert j (higher (lookup j merged) n) merged in
    let r = lookup-persist_nonce_map k next local in
    let s = lookup-insert j k merged (higher (lookup j merged) n) in
    r
    ∙ ap (best k local) (
        s ∙ (elim (Bool-cases (str_eq j k)) [
          | inl b ↦ let e : j ≡ k = ground (arith, eq_iff j k) in simp b (rw e refl)
          | inr b ↦ simp b refl
        ]))

max?_comm :
    (a : Option ℕ) (m n : ℕ) → max? (max? a (some m)) (some n) ≡ max? (max? a (some n)) (some m)
unfolding higher
max?_comm none m n = ground arith
max?_comm (some a) m n = ground arith

best-max? :
    (k : String) (local : Dict ℕ) (acc : Option ℕ) (n : ℕ)
    → best k local (max? acc (some n)) ≡ max? (best k local acc) (some n)
unfolding best
best-max? k [] acc n = refl
best-max? k ((j, m) ∷ local) acc n = elim (Bool-cases (str_eq j k)) [
  | inl b ↦ simp b (ap (best k local) (max?_comm acc n m) ∙ best-max? k local (max? acc (some m)) n)
  | inr b ↦ simp b (best-max? k local acc n)
]

best_comm :
    (k : String) (a b : Dict ℕ) (acc : Option ℕ) → best k a (best k b acc) ≡ best k b (best k a acc)
unfolding best
best_comm k [] b acc = refl
best_comm k ((j, n) ∷ a) b acc = elim (Bool-cases (str_eq j k)) [
  | inl h ↦ simp h (ap (best k a) (sym (best-max? k b acc n)) ∙ best_comm k a b (max? acc (some n)))
  | inr h ↦ simp h (best_comm k a b acc)
]

-- Several writers, one after the other, each with a map of its own.
abbrev pub persist_all : Dict ℕ → List (Dict ℕ) → Dict ℕ
persist_all db [] = db
persist_all db (w ∷ ws) = persist_all (persist_nonce_map db w) ws

abbrev best_all : String → List (Dict ℕ) → Option ℕ → Option ℕ
best_all k [] acc = acc
best_all k (w ∷ ws) acc = best_all k ws (best k w acc)

lookup-persist_all :
    (k : String) (db : Dict ℕ) (ws : List (Dict ℕ))
    → lookup k (persist_all db ws) ≡ best_all k ws (lookup k db)
lookup-persist_all k db [] = refl
lookup-persist_all k db (w ∷ ws) =
    lookup-persist_all k (persist_nonce_map db w) ws
    ∙ ap (best_all k ws) (lookup-persist_nonce_map k db w)

best_all-perm :
    (k : String) {v w : List (Dict ℕ)}
    → Permᴰ v w
    → (acc : Option ℕ) → best_all k v acc ≡ best_all k w acc
best_all-perm k Permᴰ.nil acc = refl
best_all-perm k (Permᴰ.cons {a} {b} {l₁} {l₂} e p) acc =
    best_all-perm k p (best k a acc) ∙ ap (λ x. best_all k l₂ (best k x acc)) e
best_all-perm k (Permᴰ.swap {a} {b} {a'} {b'} {l} e f) acc = ap (best_all k l) (
    best_comm k b a acc
    ∙ ap (λ x. best k x (best k b acc)) e
    ∙ ap (λ x. best k b' (best k x acc)) f)
best_all-perm k (Permᴰ.trans p q) acc = best_all-perm k p acc ∙ best_all-perm k q acc

-- Concurrent writers cannot clobber each other: in whatever order they get the lock, every address
-- has the same nonce in the file in the end.
pub persist_all_perm :
    (db : Dict ℕ) {v w : List (Dict ℕ)}
    → Permᴰ v w
    → (k : String) → lookup k (persist_all db v) ≡ lookup k (persist_all db w)
persist_all_perm db {v} {w} p k =
    lookup-persist_all k db v ∙ best_all-perm k p (lookup k db) ∙ sym (lookup-persist_all k db w)

-- Every address of `a` has in `b` a nonce at least as high.
abbrev pub Grows : Dict ℕ → Dict ℕ → Type 0
Grows a b = (k : String) (n : ℕ) → lookup k a ≡ some n → (m : ℕ) × (lookup k b ≡ some m) × (n ≤ m)

best-le :
    (k : String) (local : Dict ℕ) (n : ℕ) → (m : ℕ) × (best k local (some n) ≡ some m) × (n ≤ m)
unfolding best higher
best-le k [] n = (n, refl, omega arith)
best-le k ((j, v) ∷ local) n = elim (Bool-cases (str_eq j k)) [
  | inl b ↦ let (m, e, h) = best-le k local (higher (some n) v) in simp b (m, e, ground arith)
  | inr b ↦ simp b (best-le k local n)
]

persist_nonce_map-Grows : (db local : Dict ℕ) → Grows db (persist_nonce_map db local)
persist_nonce_map-Grows db local k n e =
    let (m, f, h) = best-le k local n in
    (m, lookup-persist_nonce_map k db local ∙ ap (best k local) e ∙ f, h)

Grows-trans : (a b c : Dict ℕ) → Grows a b → Grows b c → Grows a c
Grows-trans a b c f g k n e =
    let (m, p, h) = f k n e in let (l, q, i) = g k m p in (l, q, omega arith)

Grows-refl : (a : Dict ℕ) → Grows a a
Grows-refl a k n e = (n, e, omega arith)

module _ (o : Settings) (guard_options : Guards.Options) (is_threat parses : String → Bool)
    (show iso : ℕ → String) where
  step-Grows :
      (d : Detector) (x : Call)
      → Grows d.nonce_db (step o guard_options is_threat parses show iso d x).nonce_db
  unfolding step run_once analyze
  step-Grows d (other_writer local) = persist_nonce_map-Grows d.nonce_db local
  step-Grows d (batch false ms) = Grows-refl d.nonce_db
  step-Grows d (batch true ms) = persist_nonce_map-Grows d.nonce_db _

  -- Whatever batches are analysed and whatever other processes write: no address loses its nonce in
  -- the file, and none goes down.
  pub run-Grows :
      (d : Detector) (xs : List Call)
      → Grows d.nonce_db (run o guard_options is_threat parses show iso d xs).nonce_db
  unfolding run
  run-Grows d [] = Grows-refl d.nonce_db
  run-Grows d (x ∷ xs) =
      let next = step o guard_options is_threat parses show iso d x in
      Grows-trans d.nonce_db next.nonce_db _ (step-Grows d x) (run-Grows next xs)
