-- ===== src/Protocol/Hash.antt =====
-- src/audit-guard/src/protocol-state-machine.ts, `computeSnapshotHash`: two FNV-1a lanes of 32 bits,
-- printed as 16 hexadecimal digits. Texts are lists of UTF-16 code units.
use Prim.Native.Nat.{bit_xor}
use vero_audit_guard.Base.{
  ℕ, zero, suc, ◌+◌, ◌*◌, ◌/◌, ◌%◌, ◌^◌, ◌<◌, ◌≡◌, List, [], ◌∷◌, ◌++◌, arith, ltb, if◌then◌else◌,
  length, length-append,
}

-- `Math.imul(h ^ c, 0x01000193) >>> 0`
mix : ℕ → ℕ → ℕ
mix h c = (bit_xor h c * 0x01000193) % 2 ^ 32

lane : ℕ → List ℕ → ℕ
lane h [] = h
lane h (c ∷ cs) = lane (mix h c) cs

abbrev hex_digit : ℕ → ℕ
hex_digit d = if ltb d 10 then 48 + d else 87 + d

-- `h.toString(16).padStart(n, "0")` for h < 16 ^ n
hex : ℕ → ℕ → List ℕ → List ℕ
hex zero h acc = acc
hex (suc n) h acc = hex n (h / 16) (hex_digit (h % 16) ∷ acc)

unfoldable pub compute_snapshot_hash : List ℕ → List ℕ
unfolding mix lane hex
compute_snapshot_hash input = hex 8 (lane 0x811c9dc5 input) [] ++ hex 8 (lane 0xc4ceb9fe input) []

length-hex : (n h : ℕ) (acc : List ℕ) → length (hex n h acc) ≡ n + length acc
unfolding hex
length-hex zero h acc = omega arith
length-hex (suc n) h acc = omega (arith, length-hex n (h / 16) (hex_digit (h % 16) ∷ acc))

lane-lt : (h : ℕ) (input : List ℕ) → h < 2 ^ 32 → lane h input < 2 ^ 32
unfolding lane mix
lane-lt h [] p = p
lane-lt h (c ∷ cs) p = lane-lt (mix h c) cs (omega arith)

pub length-compute_snapshot_hash : (input : List ℕ) → length (compute_snapshot_hash input) ≡ 16
unfolding compute_snapshot_hash
length-compute_snapshot_hash input = omega (
  arith,
  length-append (hex 8 (lane 0x811c9dc5 input) []) (hex 8 (lane 0xc4ceb9fe input) []),
  length-hex 8 (lane 0x811c9dc5 input) [],
  length-hex 8 (lane 0xc4ceb9fe input) [],
)
