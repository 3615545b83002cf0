-- ===== src/Trail/Roundtrip.antt =====
-- Bytes, their hexadecimal and base64 texts, and what is read back from these.
use mathlib.Core.Path.{ap₂, ap, sym}
use vero_audit_guard.Base.{
  ℕ, ◌≡◌, refl, arith, List, [], ◌∷◌, All, length, ◌<◌, ◌/◌, true, ◌%◌, some, ◌==◌, false, ◌*◌, ◌+◌,
  ap, Bool-cases, ◌&&◌, inl, inr, not, ◌||◌, sym,
}
use vero_audit_guard.Trail.Encoding.{
  digit, to_hex, hex_value, from_hex, same, sextet, sextet_value, is_sextet, to_base64, from_base64,
  closed, decode_memo_hash,
}

abbrev pub Bytes : List ℕ → Type 0
Bytes = All (λ b. b < 256)

hex_value-digit : (v : ℕ) → v < 16 → hex_value (digit v) ≡ some v
unfolding hex_value
hex_value-digit v h = ground arith

pub from_hex-to_hex : (bs : List ℕ) → Bytes bs → from_hex (to_hex bs) ≡ bs
unfolding from_hex to_hex
from_hex-to_hex [] h = refl
from_hex-to_hex (b ∷ bs) h =
    let hi = hex_value-digit (b / 16) (omega (arith, h.0)) in
    let lo = hex_value-digit (b % 16) (omega arith) in
    simp (hi, lo) (ap₂ (λ x xs. x ∷ xs) (omega arith) (from_hex-to_hex bs h.1))

sextet_value-sextet : (v : ℕ) → v < 64 → sextet_value (sextet v) ≡ v
unfolding sextet sextet_value
sextet_value-sextet v h = ground arith

is_sextet-sextet : (v : ℕ) → v < 64 → (is_sextet (sextet v) ≡ true) × ((sextet v == b'=') ≡ false)
unfolding sextet is_sextet
is_sextet-sextet v h = (ground arith, ground arith)

pub same_refl : (cs : List ℕ) → same cs cs ≡ true
same_refl [] = refl
same_refl (c ∷ cs) = ground (arith, same_refl cs)

pub same-eq : (cs ds : List ℕ) → same cs ds ≡ true → cs ≡ ds
same-eq [] [] h = refl
same-eq [] (d ∷ ds) h = absurd cc
same-eq (c ∷ cs) [] h = absurd cc
same-eq (c ∷ cs) (d ∷ ds) h = ap₂ (λ x xs. x ∷ xs) (ground arith) (same-eq cs ds (ground arith))

-- The three bytes of a group come back from its four sextets.
first_byte : (a b : ℕ) → a < 256 → b < 256 → a / 4 * 4 + (a % 4 * 16 + b / 16) / 16 ≡ a
first_byte a b h k = omega arith

second_byte :
    (a b c : ℕ)
    → b < 256
    → c < 256
    → (a % 4 * 16 + b / 16) % 16 * 16 + (b % 16 * 4 + c / 64) / 4 ≡ b
second_byte a b c h k = omega arith

third_byte : (b c : ℕ) → c < 256 → (b % 16 * 4 + c / 64) % 4 * 64 + c % 64 ≡ c
third_byte b c h = omega arith

last_byte : (a b : ℕ) → b < 256 → (a % 4 * 16 + b / 16) % 16 * 16 + b % 16 * 4 / 4 ≡ b
last_byte a b h = omega arith

consed :
    {x x' y y' z z' : ℕ} {l l' : List ℕ}
    → x ≡ x'
    → y ≡ y'
    → z ≡ z'
    → l ≡ l'
    → ◌≡◌ {A = List ℕ} (x ∷ y ∷ z ∷ l) (x' ∷ y' ∷ z' ∷ l')
consed p q r s = cc

-- Bytes whose last group has two.
abbrev pub TwoLeft : List ℕ → Type 0
TwoLeft bs = length bs % 3 ≡ 2

from_base64-to_base64 : (bs : List ℕ) → Bytes bs → TwoLeft bs → from_base64 (to_base64 bs) ≡ bs
unfolding from_base64 to_base64
from_base64-to_base64 [] h t = absurd (omega (arith, t))
from_base64-to_base64 (a ∷ []) h t = absurd (omega (arith, t))
from_base64-to_base64 (a ∷ b ∷ []) h t =
    let p = sextet_value-sextet (a / 4) (omega (arith, h.0)) in
    let q = sextet_value-sextet (a % 4 * 16 + b / 16) (omega (arith, h.1.0)) in
    let r = sextet_value-sextet (b % 16 * 4) (omega arith) in
    simp (p, q, r)
      (ap₂ (λ x xs. x ∷ xs) (first_byte a b h.0 h.1.0) (ap (λ x. x ∷ []) (last_byte a b h.1.0)))
from_base64-to_base64 (a ∷ b ∷ c ∷ bs) h t =
    let p = sextet_value-sextet (a / 4) (omega (arith, h.0)) in
    let q = sextet_value-sextet (a % 4 * 16 + b / 16) (omega (arith, h.1.0)) in
    let r = sextet_value-sextet (b % 16 * 4 + c / 64) (omega (arith, h.1.1.0)) in
    let s = sextet_value-sextet (c % 64) (omega arith) in
    let n = (is_sextet-sextet (c % 64) (omega arith)).1 in
    simp (p, q, r, s, n)
      (consed (first_byte a b h.0 h.1.0) (second_byte a b c h.1.0 h.1.1.0) (third_byte b c h.1.1.0)
        (from_base64-to_base64 bs h.1.1.1 (omega (arith, t))))

closed_end : closed (b'=' ∷ []) ≡ true
unfolding closed
closed_end = refl

closed-cons : (c : ℕ) (cs : List ℕ) → is_sextet c ≡ true → closed cs ≡ true → closed (c ∷ cs) ≡ true
unfolding closed
closed-cons c [] h k = absurd cc
closed-cons c (d ∷ cs) h k = simp h k

closed-to_base64 : (bs : List ℕ) → Bytes bs → TwoLeft bs → closed (to_base64 bs) ≡ true
unfolding to_base64
closed-to_base64 [] h t = absurd (omega (arith, t))
closed-to_base64 (a ∷ []) h t = absurd (omega (arith, t))
closed-to_base64 (a ∷ b ∷ []) h t =
    closed-cons _ _ (is_sextet-sextet (a / 4) (omega (arith, h.0))).0 (
      closed-cons _ _ (is_sextet-sextet (a % 4 * 16 + b / 16) (omega (arith, h.1.0))).0
        (closed-cons _ _ (is_sextet-sextet (b % 16 * 4) (omega arith)).0 closed_end))
closed-to_base64 (a ∷ b ∷ c ∷ bs) h t =
    closed-cons _ _ (is_sextet-sextet (a / 4) (omega (arith, h.0))).0 (
      closed-cons _ _ (is_sextet-sextet (a % 4 * 16 + b / 16) (omega (arith, h.1.0))).0 (
        closed-cons _ _ (is_sextet-sextet (b % 16 * 4 + c / 64) (omega (arith, h.1.1.0))).0 (
          closed-cons _ _ (is_sextet-sextet (c % 64) (omega arith)).0
            (closed-to_base64 bs h.1.1.1 (omega (arith, t))))))

length-to_base64 : (bs : List ℕ) → TwoLeft bs → length (to_base64 bs) * 3 ≡ length bs * 4 + 4
unfolding to_base64
length-to_base64 [] t = absurd (omega (arith, t))
length-to_base64 (a ∷ []) t = absurd (omega (arith, t))
length-to_base64 (a ∷ b ∷ []) t = refl
length-to_base64 (a ∷ b ∷ c ∷ bs) t =
    let r = length-to_base64 bs (omega (arith, t)) in omega (arith, r)

-- A memo decodes exactly if it is the base64 text of 32 bytes, and then to their hexadecimal text.
pub decode_memo_hash-to_base64 :
    (bs : List ℕ) → Bytes bs → length bs ≡ 32 → decode_memo_hash (to_base64 bs) ≡ some (to_hex bs)
unfolding decode_memo_hash
decode_memo_hash-to_base64 bs h l =
    let t : TwoLeft bs = rw l refl in
    let n : (length (to_base64 bs) == 44) ≡ true =
      (let r = length-to_base64 bs t in ground (arith, r, l)) in
    let m : (length bs == 32) ≡ true = ground arith in
    simp (n, closed-to_base64 bs h t, from_base64-to_base64 bs h t, m, same_refl (to_base64 bs))
      refl

sextet_value-lt : (c : ℕ) → is_sextet c ≡ true → sextet_value c < 64
unfolding is_sextet sextet_value
sextet_value-lt c h = ground arith

-- What a closed text says of its first character.
closed_head :
    (c d : ℕ) (cs : List ℕ)
    → closed (c ∷ d ∷ cs) ≡ true
    → (sextet_value c < 64) × (closed (d ∷ cs) ≡ true)
unfolding closed
closed_head c d cs h = (sextet_value-lt c (ground arith), ground arith)

closed_tail :
    (s : ℕ) (cs : List ℕ)
    → (s == b'=') ≡ false
    → closed (s ∷ cs) ≡ true
    → (sextet_value s < 64) × (closed cs ≡ true)
unfolding closed
closed_tail s [] b h = absurd cc
closed_tail s (c ∷ cs) b h = closed_head s c cs h

from_base64-Bytes : (cs : List ℕ) → closed cs ≡ true → Bytes (from_base64 cs)
unfolding from_base64
from_base64-Bytes [] h = tt
from_base64-Bytes (p ∷ []) h = tt
from_base64-Bytes (p ∷ q ∷ []) h = tt
from_base64-Bytes (p ∷ q ∷ r ∷ []) h = tt
from_base64-Bytes (p ∷ q ∷ r ∷ s ∷ cs) h =
    let (hp, h1) = closed_head p q (r ∷ s ∷ cs) h in
    let (hq, h2) = closed_head q r (s ∷ cs) h1 in
    let (hr, h3) = closed_head r s cs h2 in
    elim (Bool-cases (s == b'=')) [
      | inl b ↦ simp b (omega arith, (omega arith, tt))
      | inr b ↦
          let (hs, h4) = closed_tail s cs b h3 in
          simp b (omega arith, (omega arith, (omega arith, from_base64-Bytes cs h4)))
    ]

pub decode_memo_hash-eq :
    (memo hash : List ℕ)
    → decode_memo_hash memo ≡ some hash
    → (bs : List ℕ) × (memo ≡ to_base64 bs) × (hash ≡ to_hex bs) × (length bs ≡ 32) × Bytes bs
unfolding decode_memo_hash
decode_memo_hash-eq memo hash e =
    let bs = from_base64 memo in
    elim (Bool-cases ((length memo == 44) && closed memo)) [
      | inr a ↦ absurd (let f = simp a at e in cc)
      | inl a ↦ elim (Bool-cases (not (length bs == 32) || not (same (to_base64 bs) memo))) [
        | inl b ↦ absurd (let f = simp (a, b) at e in cc)
        | inr b ↦
            let f = simp (a, b) at e in
            (
              bs,
              sym (same-eq (to_base64 bs) memo (ground arith)),
              cc,
              ground arith,
              from_base64-Bytes memo (ground arith),
            )
      ]
    ]
