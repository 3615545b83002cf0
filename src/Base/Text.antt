-- ===== src/Base/Text.antt =====
-- Texts. ECMAScript counts UTF-16 code units, and its `trim` strips the white space listed here.
use Prim.Native.Nat.{ℕ, zero, suc, ◌+◌, ◌-◌, ◌*◌, ◌/◌, ◌%◌, ◌<◌}
use Prim.Native.Char.{code}
use Prim.Native.String.{String}
use mathlib.Core.Path.{◌≡◌, ap, ◌∙◌}
use mathlib.Core.Logic.{inl, inr}
use mathlib.Core.Bool.{Bool, true, false, ◌&&◌, ◌||◌}
use mathlib.Core.List.{List, [], ◌∷◌}
use native.Mathlib.Omega.{arith}
use text.Mathlib.Text.{◌==◌}
use vero_audit_guard.Base.Lists.{All}
use vero_audit_guard.Base.Tests.{ltb, leb, if◌then◌else◌, ◌==◌ as nat_eq, Bool-cases}

abbrev pub str_eq : String → String → Bool
str_eq s t = s == t

-- The code units of one code point: itself, or a surrogate pair.
abbrev pub utf16 : ℕ → List ℕ → List ℕ
utf16 c rest =
    if ltb c 0x10000
    then c ∷ rest
    else (0xd800 + (c - 0x10000) / 0x400) ∷ (0xdc00 + (c - 0x10000) % 0x400) ∷ rest

-- What `charCodeAt` reads, in order.
abbrev pub code_units : String → List ℕ
code_units String.[] = []
code_units (String.◌∷◌ c s) = utf16 (code c) (code_units s)

unfoldable pub is_white : ℕ → Bool
is_white c =
    (leb 9 c && leb c 13)
    || nat_eq c 32
    || nat_eq c 0xa0
    || nat_eq c 0x1680
    || (leb 0x2000 c && leb c 0x200a)
    || nat_eq c 0x2028
    || nat_eq c 0x2029
    || nat_eq c 0x202f
    || nat_eq c 0x205f
    || nat_eq c 0x3000
    || nat_eq c 0xfeff

-- `s.trim() === ""`
unfoldable pub is_blank : String → Bool
unfolding is_white
is_blank String.[] = true
is_blank (String.◌∷◌ c s) = is_white (code c) && is_blank s

-- `s.trim()`, as code points.
trim_start : List ℕ → List ℕ
unfolding is_white
trim_start [] = []
trim_start (c ∷ cs) = if is_white c then trim_start cs else c ∷ cs

trim_end : List ℕ → List ℕ
unfolding is_white
trim_end [] = []
trim_end (c ∷ cs) =
    let rest = trim_end cs in
    elim rest [ [] ↦ if is_white c then [] else c ∷ [] | d ∷ ds ↦ c ∷ d ∷ ds ]

unfoldable pub trim : List ℕ → List ℕ
unfolding trim_start trim_end
trim cs = trim_end (trim_start cs)

-- `s.split(c)`, as code points: the parts between the separators, one more than these.
abbrev extend : ℕ → List (List ℕ) → List (List ℕ)
extend c [] = (c ∷ []) ∷ []
extend c (part ∷ parts) = (c ∷ part) ∷ parts

unfoldable pub split : ℕ → List ℕ → List (List ℕ)
split separator [] = [] ∷ []
split separator (c ∷ cs) =
    let rest = split separator cs in if nat_eq c separator then [] ∷ rest else extend c rest

-- `Array.prototype.includes` on texts
abbrev pub includes : List String → String → Bool
includes [] s = false
includes (t ∷ ts) s = t == s || includes ts s

-- The text of a number in base 10: `String(n)`. Each round leaves `n / 10`, so `n` rounds suffice.
decimal_from : ℕ → ℕ → List ℕ → List ℕ
decimal_from zero n acc = acc
decimal_from (suc f) n acc =
    let shorter = decimal_from f (n / 10) ((48 + n % 10) ∷ acc) in
    if nat_eq (n / 10) 0 then (48 + n % 10) ∷ acc else shorter

unfoldable pub decimal : ℕ → List ℕ
unfolding decimal_from
decimal n = decimal_from (suc n) n []

-- What the digits of a number stand for, read from the left.
abbrev pub value : ℕ → List ℕ → ℕ
value v [] = v
value v (d ∷ ds) = value (v * 10 + (d - 48)) ds

value-decimal_from : (f n : ℕ) (acc : List ℕ) → n < f → value 0 (decimal_from f n acc) ≡ value n acc
unfolding decimal_from
value-decimal_from zero n acc h = absurd (omega arith)
value-decimal_from (suc f) n acc h = elim (Bool-cases (nat_eq (n / 10) 0)) [
  | inl e ↦ rw e (ap (λ v. value v acc) (ground arith))
  | inr e ↦ rw e (
      value-decimal_from f (n / 10) ((48 + n % 10) ∷ acc) (ground arith)
      ∙ ap (λ v. value v acc) (omega arith))
]

pub value-decimal : (n : ℕ) → value 0 (decimal n) ≡ n
unfolding decimal
value-decimal n = value-decimal_from (suc n) n [] (omega arith)

digits-decimal_from :
    (f n : ℕ) (acc : List ℕ) → All (λ d. d < 58) acc → All (λ d. d < 58) (decimal_from f n acc)
unfolding decimal_from
digits-decimal_from zero n acc a = a
digits-decimal_from (suc f) n acc a =
    let digit : 48 + n % 10 < 58 = omega arith in
    ground (arith, digits-decimal_from f (n / 10) ((48 + n % 10) ∷ acc) (digit, a))

pub decimal-digits : (n : ℕ) → All (λ d. d < 58) (decimal n)
unfolding decimal
decimal-digits n = digits-decimal_from (suc n) n [] tt
