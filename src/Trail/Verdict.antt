-- ===== src/Trail/Verdict.antt =====
-- When a report is verified.
use vero_audit_guard.Base.{
  ℕ, suc, zero, ◌≤◌, ◌≡◌, refl, sym, ap, ◌∙◌, ◌↔◌, inl, inr, Bool, true, false, Option, none, some,
  List, [], ◌∷◌, ◌++◌, String, arith, length, take, str_eq, Bool-cases, Option-cases, ◌<◌, ◌*◌, ◌/◌,
  ◌%◌, eq_iff, ◌&&◌,
}
use vero_audit_guard.Base.Json.{code_points}
use vero_audit_guard.Trail.Encoding.{to_hex, digit, hashes_match, same, decode_memo_hash, to_base64}
use vero_audit_guard.Trail.Roundtrip.{
  Bytes, from_hex-to_hex, same_refl, same-eq, decode_memo_hash-to_base64, decode_memo_hash-eq,
}
use vero_audit_guard.Trail.{
  VerificationProtocol, memo_hash, legacy_memo_text, HorizonTransactionRecord, VerifyReportOptions,
  Lookup, found, verified, returned, normalize_transaction_hash, is_legacy_memo,
  legacy_memo_identifier, resolve_horizon_timeout_ms, memo_text, check_memo_hash, check_legacy_memo,
  check_memo, check_transaction, after_lookup, verify_with, verify_report, lower_hex, same_hash,
  not_found, lookup_fails,
}

hashes_match_iff :
    (a b : List ℕ) → Bytes a → Bytes b → (hashes_match (to_hex a) (to_hex b) ≡ true) ↔ (a ≡ b)
unfolding hashes_match
hashes_match_iff a b ha hb =
    let p = from_hex-to_hex a ha in
    let q = from_hex-to_hex b hb in
    (λ h. same-eq a b (simp (p, q) at h), λ e. simp (p, q) (rw e (same_refl b)))

-- The memo that anchors the bytes of a hash, in each protocol.
abbrev pub Anchored : VerificationProtocol → Bool → List ℕ → HorizonTransactionRecord → Type 0
Anchored memo_hash allowed bs t =
    (str_eq t.memo_type "hash" ≡ true) × (memo_text t.memo ≡ to_base64 bs)
Anchored legacy_memo_text allowed bs t =
    (str_eq t.memo_type "text" ≡ true)
    × (allowed ≡ true)
    × (memo_text t.memo ≡ code_points "vero:" ++ take 22 (to_hex bs))

check_memo_hash_iff :
    (p : VerificationProtocol) (bs memo h : List ℕ)
    → Bytes bs
    → length bs ≡ 32
    → (check_memo_hash (to_hex bs) (decode_memo_hash memo) ≡ verified p h)
      ↔ ((p ≡ memo_hash) × (h ≡ to_hex bs) × (memo ≡ to_base64 bs))
unfolding check_memo_hash
check_memo_hash_iff p bs memo h hb l = (
  λ e. elim (Option-cases (decode_memo_hash memo)) [
    | inl q ↦ absurd (let f = simp q at e in cc)
    | inr (anchored, q) ↦
        let (cs, m, x, n, hc) = decode_memo_hash-eq memo anchored q in
        elim (Bool-cases (hashes_match (to_hex bs) anchored)) [
          | inr b ↦ absurd (let f = simp (q, b) at e in cc)
          | inl b ↦
              let f = simp (q, b) at e in
              let same_bytes = (hashes_match_iff bs cs hb hc).0 (rw (sym x) b) in
              (cc, cc, m ∙ ap to_base64 (sym same_bytes))
        ]
  ],
  λ (r, s, m).
      let d = decode_memo_hash-to_base64 bs hb l in
      let k = (hashes_match_iff bs bs hb hb).1 refl in simp (m, d, k) (rw (r, s) refl),
)

digit-lower : (v : ℕ) → v < 16 → lower_hex (digit v ∷ []) ≡ true
digit-lower v h = ground arith

-- The first 22 digits of a hash are a legacy memo.
to_hex-lower_hex : (bs : List ℕ) → Bytes bs → lower_hex (to_hex bs) ≡ true
unfolding to_hex
to_hex-lower_hex [] h = refl
to_hex-lower_hex (b ∷ bs) h =
    let hi = digit-lower (b / 16) (omega (arith, h.0)) in
    let lo = digit-lower (b % 16) (omega arith) in
    let rest = to_hex-lower_hex bs h.1 in ground (arith, hi, lo, rest)

lower_hex-take : (n : ℕ) (cs : List ℕ) → lower_hex cs ≡ true → lower_hex (take n cs) ≡ true
lower_hex-take zero cs h = refl
lower_hex-take (suc n) [] h = refl
lower_hex-take (suc n) (c ∷ cs) h = ground (arith, lower_hex-take n cs)

length-take-eq : (n : ℕ) (cs : List ℕ) → n ≤ length cs → length (take n cs) ≡ n
length-take-eq zero cs h = refl
length-take-eq (suc n) [] h = absurd (omega (arith, h))
length-take-eq (suc n) (c ∷ cs) h = omega (arith, length-take-eq n cs (omega (arith, h)))

length-to_hex : (bs : List ℕ) → length (to_hex bs) ≡ length bs * 2
unfolding to_hex
length-to_hex [] = refl
length-to_hex (b ∷ bs) = omega (arith, length-to_hex bs)

legacy_memo_identifier-matches :
    (bs : List ℕ)
    → Bytes bs
    → length bs ≡ 32
    → is_legacy_memo (legacy_memo_identifier (to_hex bs)) ≡ true
unfolding is_legacy_memo legacy_memo_identifier
legacy_memo_identifier-matches bs h l =
    let n = length-take-eq 22 (to_hex bs) (omega (arith, length-to_hex bs, l)) in
    let k = lower_hex-take 22 (to_hex bs) (to_hex-lower_hex bs h) in ground (arith, n, k)

check_legacy_memo_iff :
    (p : VerificationProtocol) (allowed : Bool) (bs memo h : List ℕ)
    → (check_legacy_memo allowed (to_hex bs) memo ≡ verified p h) ↔ (
        (p ≡ legacy_memo_text)
        × (h ≡ to_hex bs)
        × (allowed ≡ true)
        × (memo ≡ legacy_memo_identifier (to_hex bs)))
unfolding check_legacy_memo
check_legacy_memo_iff p false bs memo h = (λ e. absurd cc, λ (r, s, a, m). absurd cc)
check_legacy_memo_iff p true bs memo h =
    elim (Bool-cases (same memo (legacy_memo_identifier (to_hex bs)))) [
      | inl b ↦ simp b (λ e. (cc, cc, refl, same-eq memo _ b), λ (r, s, a, m). rw (r, s) refl)
      | inr b ↦ simp b (
        λ e. absurd cc,
        λ (r, s, a, m).
            absurd
              (let k = same_refl (legacy_memo_identifier (to_hex bs)) in let f = rw m at b in cc),
      )
    ]

one_type : (s : String) → str_eq s "hash" ≡ true → str_eq s "text" ≡ true → ⊥
one_type s a b = let e : s ≡ "hash" = ground (arith, eq_iff s "hash") in let f = rw e at b in cc

check_memo_iff :
    (p : VerificationProtocol) (allowed : Bool) (bs h : List ℕ) (t : HorizonTransactionRecord)
    → Bytes bs
    → length bs ≡ 32
    → (check_memo allowed (to_hex bs) t ≡ verified p h)
      ↔ (Anchored p allowed bs t × (h ≡ to_hex bs))
unfolding check_memo legacy_memo_identifier
check_memo_iff memo_hash allowed bs h t hb l =
    let memo = memo_text t.memo in
    let (to, from) = check_memo_hash_iff memo_hash bs memo h hb l in
    let (to', from') = check_legacy_memo_iff memo_hash allowed bs memo h in
    elim (Bool-cases (str_eq t.memo_type "hash")) [
      | inl a ↦
          simp a (λ e. let (r, s, m) = to e in ((refl, m), s), λ ((x, m), s). from (refl, s, m))
      | inr a ↦ elim (Bool-cases (str_eq t.memo_type "text" && is_legacy_memo memo)) [
        | inl d ↦ simp (a, d) (λ e. let q = (to' e).0 in absurd cc, λ ((x, m), s). absurd cc)
        | inr d ↦ simp (a, d) (λ e. absurd cc, λ ((x, m), s). absurd cc)
      ]
    ]
check_memo_iff legacy_memo_text allowed bs h t hb l =
    let memo = memo_text t.memo in
    let (to, from) = check_memo_hash_iff legacy_memo_text bs memo h hb l in
    let (to', from') = check_legacy_memo_iff legacy_memo_text allowed bs memo h in
    elim (Bool-cases (str_eq t.memo_type "hash")) [
      | inl a ↦
          simp a (
            λ e. let q = (to e).0 in absurd cc,
            λ ((x, y, m), s). absurd (one_type t.memo_type a x),
          )
      | inr a ↦ elim (Bool-cases (str_eq t.memo_type "text" && is_legacy_memo memo)) [
        | inl d ↦
            simp (a, d)
              (
                λ e. let (r, s, y, m) = to' e in ((ground arith, y, m), s),
                λ ((x, y, m), s). from' (refl, s, y, m),
              )
        | inr d ↦
            simp (a, d)
              (
                λ e. absurd cc,
                λ ((x, y, m), s).
                    let k = legacy_memo_identifier-matches bs hb l in
                    let w : is_legacy_memo memo ≡ true = ap is_legacy_memo m ∙ k in
                    absurd (ground (arith, x, w, d)),
              )
      ]
    ]

-- What the checks after the second reading ask of the two hashes and the transaction.
abbrev pub Genuine :
    VerificationProtocol
    → Bool
    → List ℕ
    → String
    → (first second : List ℕ) → HorizonTransactionRecord
    → Type 0
Genuine p allowed wanted account first second t =
    (first ≡ second)
    × (t.successful ≡ true)
    × (normalize_transaction_hash t.hash ≡ some wanted)
    × (str_eq t.source_account account ≡ true)
    × Anchored p allowed second t

same_hash_iff : (o : Option (List ℕ)) (w : List ℕ) → (same_hash o w ≡ true) ↔ (o ≡ some w)
same_hash_iff none w = (λ h. absurd cc, λ h. absurd cc)
same_hash_iff (some v) w =
    (λ h. ap some (same-eq v w h), λ e. let f : v ≡ w = cc in rw f (same_refl w))

check_transaction_iff :
    (p : VerificationProtocol) (allowed : Bool) (wanted : List ℕ) (account : String)
    (a b h : List ℕ) (t : HorizonTransactionRecord)
    → Bytes a
    → Bytes b
    → length b ≡ 32
    → (check_transaction allowed wanted account (to_hex a) (to_hex b) t ≡ verified p h)
      ↔ (Genuine p allowed wanted account a b t × (h ≡ to_hex b))
unfolding check_transaction
check_transaction_iff p allowed wanted account a b h t ha hb l =
    let (eq_to, eq_from) = hashes_match_iff a b ha hb in
    let (tx_to, tx_from) = same_hash_iff (normalize_transaction_hash t.hash) wanted in
    let (to, from) = check_memo_iff p allowed b h t hb l in
    elim (Bool-cases (hashes_match (to_hex a) (to_hex b))) [
      | inr c ↦ simp c (λ e. absurd cc, λ ((e, v, w, x, y), s). absurd (let k = eq_from e in cc))
      | inl c ↦ elim (Bool-cases t.successful) [
        | inr d ↦ simp (c, d) (λ e. absurd cc, λ ((x, y, z, r, q), s). absurd cc)
        | inl d ↦ elim (Bool-cases (same_hash (normalize_transaction_hash t.hash) wanted)) [
          | inr f ↦
              simp (c, d, f)
                (λ e. absurd cc, λ ((x, y, z, r, q), s). absurd (let k = tx_from z in cc))
          | inl f ↦ elim (Bool-cases (str_eq t.source_account account)) [
            | inr g ↦ simp (c, d, f, g) (λ e. absurd cc, λ ((x, y, z, r, q), s). absurd cc)
            | inl g ↦
                simp (c, d, f, g)
                  (
                    λ e. let (k, s) = to e in ((eq_to c, refl, tx_to f, refl, k), s),
                    λ ((x, y, z, r, k), s). from (k, s),
                  )
          ]
        ]
      ]
    ]

module _ (sha256 : List ℕ → List ℕ) (public_key : String → Option String)
    (env_timeout : Option (Option ℕ)) (first_reading second_reading : Option (List ℕ))
    (lookup : Lookup) where
  -- Both readings of the report succeed with one digest, whose hexadecimal text is the result's; the
  -- transaction is the one asked for, a successful one of the trusted account, and anchors that digest.
  pub record Confirmed (o : VerifyReportOptions) (p : VerificationProtocol) (h : List ℕ)
      : Type 0 where
    wanted : List ℕ
    account : String
    first : List ℕ
    second : List ℕ
    timeout : ℕ
    transaction : HorizonTransactionRecord
    normalized : normalize_transaction_hash o.transaction_hash ≡ some wanted
    trusted : public_key o.expected_anchor_account ≡ some account
    read_first : first_reading ≡ some first
    read_second : second_reading ≡ some second
    in_time : resolve_horizon_timeout_ms o.lookup_timeout_ms env_timeout ≡ some timeout
    on_ledger : lookup ≡ found transaction
    genuine :
        Genuine p o.allow_legacy_memo_text wanted account (sha256 first) (sha256 second) transaction
    digest : h ≡ to_hex (sha256 second)

  after_lookup-verified :
      (o : VerifyReportOptions) (wanted : List ℕ) (account : String) (first : List ℕ)
      (answer : Lookup) (second : Option (List ℕ)) (p : VerificationProtocol) (h : List ℕ)
      → after_lookup sha256 public_key env_timeout first_reading second_reading lookup o wanted
          account first answer second
        ≡ returned (verified p h)
      → (t : HorizonTransactionRecord) × ((b : List ℕ) × (answer ≡ found t)
          × (second ≡ some b)
          × (check_transaction o.allow_legacy_memo_text wanted account first (to_hex (sha256 b)) t
              ≡ verified p h))
  unfolding after_lookup
  after_lookup-verified o wanted account first not_found second p h e = absurd cc
  after_lookup-verified o wanted account first lookup_fails second p h e = absurd cc
  after_lookup-verified o wanted account first (found t) none p h e = absurd cc
  after_lookup-verified o wanted account first (found t) (some b) p h e = (t, (b, refl, refl, cc))

  verify_with-verified :
      (o : VerifyReportOptions) (w : Option (List ℕ)) (key : Option String)
      (reading : Option (List ℕ)) (time : Option ℕ) (p : VerificationProtocol) (h : List ℕ)
      → verify_with sha256 public_key env_timeout first_reading second_reading lookup o w key
          reading time
        ≡ returned (verified p h)
      → (wanted : List ℕ) × ((account : String) × ((first : List ℕ) × ((timeout : ℕ) × (w
                ≡ some wanted)
              × (key ≡ some account)
              × (reading ≡ some first)
              × (time ≡ some timeout)
              × (after_lookup sha256 public_key env_timeout first_reading second_reading lookup o
                    wanted account
                    (to_hex (sha256 first))
                    lookup
                    second_reading
                  ≡ returned (verified p h)))))
  unfolding verify_with
  verify_with-verified o none key reading time p h e = absurd cc
  verify_with-verified o (some w) none reading time p h e = absurd cc
  verify_with-verified o (some w) (some key) none time p h e = absurd cc
  verify_with-verified o (some w) (some key) (some a) none p h e = absurd cc
  verify_with-verified o (some w) (some key) (some a) (some t) p h e =
      (w, (key, (a, (t, refl, refl, refl, refl, e))))

  -- A report is verified exactly if both readings succeed with one digest and the transaction of the
  -- requested hash is on the ledger, successful, of the trusted account, and carries the anchor: the
  -- base64 text of the digest as its hash memo, or, where that is allowed, `vero:` and the first 22
  -- digits. This asks of SHA-256 that it gives 32 bytes.
  pub verify_report_iff :
      (o : VerifyReportOptions) (p : VerificationProtocol) (h : List ℕ)
      → ((contents : List ℕ) → Bytes (sha256 contents) × (length (sha256 contents) ≡ 32))
      → (verify_report sha256 public_key env_timeout first_reading second_reading lookup o
          ≡ returned (verified p h))
        ↔ Confirmed o p h
  unfolding verify_report verify_with after_lookup
  verify_report_iff o p h digests = (
    λ e.
        let (wanted, (account, (first, (timeout, n, k, r, i, f)))) =
          verify_with-verified o (normalize_transaction_hash o.transaction_hash)
            (public_key o.expected_anchor_account) first_reading
            (resolve_horizon_timeout_ms o.lookup_timeout_ms env_timeout) p h e in
        let (t, (second, l, s, g)) =
          after_lookup-verified o wanted account (to_hex (sha256 first)) lookup second_reading p h
            f in
        let (genuine, digest) =
          (check_transaction_iff p o.allow_legacy_memo_text wanted account (sha256 first)
              (sha256 second) h t (digests first).0 (digests second).0 (digests second).1).0
            g in
        record {
          wanted = wanted;
          account = account;
          first = first;
          second = second;
          timeout = timeout;
          transaction = t;
          normalized = n;
          trusted = k;
          read_first = r;
          read_second = s;
          in_time = i;
          on_ledger = l;
          genuine = genuine;
          digest = digest;
        },
    λ c.
        let iff =
          check_transaction_iff p o.allow_legacy_memo_text c.wanted c.account (sha256 c.first)
            (sha256 c.second) h c.transaction (digests c.first).0 (digests c.second).0
            (digests c.second).1 in
        simp (c.normalized, c.trusted, c.read_first, c.read_second, c.in_time, c.on_ledger)
          (ap returned (iff.1 (c.genuine, c.digest))),
  )
