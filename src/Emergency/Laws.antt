-- ===== src/Emergency/Laws.antt =====
-- The operations of the emergency engine: their guards, and what a success rests on.
use vero_audit_guard.Base.{
  ℕ, ◌+◌, ◌-◌, ◌≤◌, ◌≡◌, refl, ◌≢◌, ◌↔◌, Bool, true, false, List, [], ◌∷◌, String, arith, includes,
}
use vero_audit_guard.Base.Int.{ℤ, pos, negsuc}
use vero_audit_guard.Emergency.Payload.{canonical_payload}
use vero_audit_guard.Emergency.{
  halted, EngineState, SignedEmergencyAuth, EmergencyReceipt, Result, ok, err, ◌>>=◌, ◌>>◌,
  safe_sub, Config, require_auth, next_version, check_halt, check_halted, halt_receipt,
  recovery_receipt, halting, recovering, is_empty,
}

-- Checked subtraction succeeds exactly on 0 ≤ b ≤ a, with the difference.
pub safe_sub_ok :
    (a b r : ℤ) → safe_sub a b ≡ ok r → (x y : ℕ) × (a ≡ pos (x + y)) × (b ≡ pos y) × (r ≡ pos x)
unfolding safe_sub
safe_sub_ok (pos a) (pos b) r h = (a - b, b, ground arith, refl, ground arith)
safe_sub_ok (pos a) (negsuc b) r h = cc
safe_sub_ok (negsuc a) b r h = cc

includes-nonempty : (xs : List String) (s : String) → includes xs s ≡ true → is_empty xs ≡ false
includes-nonempty [] s h = cc
includes-nonempty (x ∷ xs) s h = refl

pub >>-eq-ok :
    {A : Type 0} (m : Result (Unit {0})) (k : Result A) {a : A}
    → (m >> k) ≡ ok a
    → (m ≡ ok tt) × (k ≡ ok a)
>>-eq-ok (ok u) k h = (refl, h)
>>-eq-ok (err e) k h = cc

pub >>=-eq-ok :
    {A B : Type 0} (first : Result A) (next : A → Result B) {y : B}
    → (first >>= next) ≡ ok y
    → (x : A) × (first ≡ ok x) × (next x ≡ ok y)
>>=-eq-ok (err e) next h = cc
>>=-eq-ok (ok x) next h = (x, refl, h)

check_halt_iff : (s : EngineState) → (check_halt s ≡ ok tt) ↔ (s.status ≢ halted)
unfolding check_halt
check_halt_iff s = (λ h e. ground arith, λ h. ground arith)

pub check_halted_iff : (s : EngineState) → (check_halted s ≡ ok tt) ↔ (s.status ≡ halted)
unfolding check_halted
check_halted_iff s = (λ h. ground arith, λ h. ground arith)

pub ok-inj : {A : Type 0} {a b : A} → ok a ≡ ok b → a ≡ b
ok-inj e = cc

module _ (verifies : String → List ℕ → String → Bool) (sha256 : List ℕ → List ℕ) (c : Config) where
  pub record IsAuthorized (auth : SignedEmergencyAuth) (now : ℕ) : Type 0 where
    pub fresh : (now - auth.payload.timestamp) + (auth.payload.timestamp - now) ≤ c.auth_window_ms
    pub listed : includes c.authorized_addresses auth.payload.caller_public_key ≡ true
    pub genuine :
        verifies auth.payload.caller_public_key (canonical_payload auth.payload) auth.signature
        ≡ true

  -- A payload is accepted exactly when it is fresh, its caller is authorised and its signature over
  -- the canonical text is genuine.
  pub require_auth_iff :
      (auth : SignedEmergencyAuth) (now : ℕ)
      → (require_auth verifies sha256 c auth now ≡ ok tt) ↔ IsAuthorized auth now
  unfolding require_auth
  require_auth_iff auth now = (
    λ h. record { fresh = ground arith; listed = ground arith; genuine = ground arith },
    λ h.
        ground
          (arith, includes-nonempty c.authorized_addresses auth.payload.caller_public_key h.listed),
  )

  -- The guards of a halt, with the version that it will write.
  pub record MayHalt (s : EngineState) (auth : SignedEmergencyAuth) (now : ℕ) (v : ℤ) : Type 0 where
    pub status : s.status ≢ halted
    pub authorized : IsAuthorized auth now
    pub version : next_version s ≡ ok v

  pub record MayRecover (s : EngineState) (auth : SignedEmergencyAuth) (now : ℕ) (v : ℤ)
      : Type 0 where
    pub status : s.status ≡ halted
    pub authorized : IsAuthorized auth now
    pub version : next_version s ≡ ok v

  -- A halt goes through exactly under its guards, and with this receipt.
  pub halting-ok :
      (s : EngineState) (auth : SignedEmergencyAuth) (now : ℕ) (r : EmergencyReceipt)
      → halting verifies sha256 c s auth now ≡ ok r
      → (v : ℤ) × MayHalt s auth now v × (halt_receipt verifies sha256 c s auth now v ≡ r)
  unfolding halting
  halting-ok s auth now r h =
      let (p, h1) = >>-eq-ok (check_halt s) _ h in
      let (q, h2) = >>-eq-ok (require_auth verifies sha256 c auth now) _ h1 in
      let (v, n, h3) = >>=-eq-ok (next_version s) _ h2 in
      (
        v,
        record {
          status = (check_halt_iff s).0 p;
          authorized = (require_auth_iff auth now).0 q;
          version = n;
        },
        ok-inj h3,
      )

  pub halting-accepts :
      (s : EngineState) (auth : SignedEmergencyAuth) (now : ℕ) (v : ℤ)
      → MayHalt s auth now v
      → halting verifies sha256 c s auth now ≡ ok (halt_receipt verifies sha256 c s auth now v)
  unfolding halting
  halting-accepts s auth now v h =
      rw ((check_halt_iff s).1 h.status, (require_auth_iff auth now).1 h.authorized, h.version)

  pub recovering-ok :
      (s : EngineState) (auth : SignedEmergencyAuth) (now : ℕ) (r : EmergencyReceipt)
      → recovering verifies sha256 c s auth now ≡ ok r
      → (v : ℤ) × MayRecover s auth now v × (recovery_receipt verifies sha256 c s auth now v ≡ r)
  unfolding recovering
  recovering-ok s auth now r h =
      let (p, h1) = >>-eq-ok (check_halted s) _ h in
      let (q, h2) = >>-eq-ok (require_auth verifies sha256 c auth now) _ h1 in
      let (v, n, h3) = >>=-eq-ok (next_version s) _ h2 in
      (
        v,
        record {
          status = (check_halted_iff s).0 p;
          authorized = (require_auth_iff auth now).0 q;
          version = n;
        },
        ok-inj h3,
      )

  pub recovering-accepts :
      (s : EngineState) (auth : SignedEmergencyAuth) (now : ℕ) (v : ℤ)
      → MayRecover s auth now v
      → recovering verifies sha256 c s auth now
        ≡ ok (recovery_receipt verifies sha256 c s auth now v)
  unfolding recovering
  recovering-accepts s auth now v h =
      rw ((check_halted_iff s).1 h.status, (require_auth_iff auth now).1 h.authorized, h.version)
