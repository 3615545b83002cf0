-- ===== src/Base/Json.antt =====
-- `JSON.stringify` of texts and whole numbers, as lists of code points, and its inverse on texts.
use Prim.Native.Char.{code}
use Prim.Native.Nat.{ℕ, ◌+◌, ◌-◌, ◌*◌, ◌/◌, ◌%◌, ◌<◌}
use Prim.Native.String.{String}
use mathlib.Core.Path.{◌≡◌, refl, sym, ap, ap₂, ◌∙◌}
use mathlib.Core.Option.{Option, none, some}
use mathlib.Core.List.{List, [], ◌∷◌, ◌++◌}
use native.Mathlib.Omega.{arith}
use text.Mathlib.TextEquality.{Char-path}
use vero_audit_guard.Base.Lists.{All}
use vero_audit_guard.Base.Text.{decimal, value, value-decimal, decimal-digits}
use vero_audit_guard.Base.Tests.{ltb, ◌==◌, if◌then◌else◌}

-- The code points of a text.
abbrev pub code_points : String → List ℕ
code_points (String.◌∷◌ first rest) = code first ∷ code_points rest
code_points String.[] = []

abbrev pub hex_digit : ℕ → ℕ
hex_digit d = if ltb d 10 then 48 + d else 87 + d

-- One code point inside a quoted text.
pub escape : ℕ → List ℕ
escape c =
    if c == 34
    then 92 ∷ 34 ∷ []
    else if c == 92
    then 92 ∷ 92 ∷ []
    else if c == 8
    then 92 ∷ b'b' ∷ []
    else if c == 9
    then 92 ∷ b't' ∷ []
    else if c == 10
    then 92 ∷ b'n' ∷ []
    else if c == 12
    then 92 ∷ b'f' ∷ []
    else if c == 13
    then 92 ∷ b'r' ∷ []
    else if ltb c 32
    then 92 ∷ b'u' ∷ 48 ∷ 48 ∷ hex_digit (c / 16) ∷ hex_digit (c % 16) ∷ []
    else c ∷ []

escape_all : List ℕ → List ℕ → List ℕ
escape_all [] rest = 34 ∷ rest
escape_all (c ∷ cs) rest = escape c ++ escape_all cs rest

-- A quoted text, and what follows it.
unfoldable pub quote : String → List ℕ → List ℕ
unfolding escape_all escape
quote s rest = 34 ∷ escape_all (code_points s) rest

-- What one escaped code point stands for; `none` at the closing quote.
unhex : ℕ → ℕ
unhex d = if ltb d 58 then d - 48 else d - 87

unescape_tail : ℕ → List ℕ → Option (ℕ × List ℕ)
unescape_tail d rest =
    if d == b'b'
    then some (8, rest)
    else if d == b't'
    then some (9, rest)
    else if d == b'n'
    then some (10, rest)
    else if d == b'f'
    then some (12, rest)
    else if d == b'r'
    then some (13, rest)
    else some (d, rest)

unicode : List ℕ → Option (ℕ × List ℕ)
unicode (a ∷ b ∷ h ∷ l ∷ rest) = some (unhex h * 16 + unhex l, rest)
unicode _ = none

escaped : List ℕ → Option (ℕ × List ℕ)
escaped [] = none
escaped (d ∷ rest) = if d == b'u' then unicode rest else unescape_tail d rest

-- The first code point of a quoted text, and what follows; `none` at the closing quote.
next : List ℕ → Option (ℕ × List ℕ)
next [] = none
next (x ∷ rest) = if x == 34 then none else if x == 92 then escaped rest else some (x, rest)

hex_lem : (c : ℕ) → c < 32 → unhex (hex_digit (c / 16)) * 16 + unhex (hex_digit (c % 16)) ≡ c
unfolding unhex
hex_lem c h = ground arith

next-escape : (c : ℕ) (rest : List ℕ) → next (escape c ++ rest) ≡ some (c, rest)
unfolding next escape escaped unescape_tail unicode
next-escape c rest = ground (arith, hex_lem c)

next_quote : (r : List ℕ) → next (34 ∷ r) ≡ none
unfolding next
next_quote r = refl

some-inj :
    {c d : ℕ} {r r' : List ℕ}
    → ◌≡◌ {A = Option (ℕ × List ℕ)} (some (c, r)) (some (d, r'))
    → (c ≡ d) × (r ≡ r')
some-inj e = (cc, cc)

escape_all-inj : (s t r r' : List ℕ) → escape_all s r ≡ escape_all t r' → (s ≡ t) × (r ≡ r')
unfolding escape_all
escape_all-inj [] [] r r' e = (refl, cc)
escape_all-inj [] (d ∷ t) r r' e =
    let q = sym (next_quote r) ∙ ap next e ∙ next-escape d (escape_all t r') in cc
escape_all-inj (c ∷ s) [] r r' e =
    let q = sym (next-escape c (escape_all s r)) ∙ ap next e ∙ next_quote r' in cc
escape_all-inj (c ∷ s) (d ∷ t) r r' e =
    let (p, q) =
      some-inj
        (sym (next-escape c (escape_all s r)) ∙ ap next e ∙ next-escape d (escape_all t r')) in
    let (u, v) = escape_all-inj s t r r' q in (ap₂ (λ x y. x ∷ y) p u, v)

code_points-inj : (s t : String) → code_points s ≡ code_points t → s ≡ t
code_points-inj String.[] String.[] e = refl
code_points-inj String.[] (String.◌∷◌ d t) e = cc
code_points-inj (String.◌∷◌ c s) String.[] e = cc
code_points-inj (String.◌∷◌ c s) (String.◌∷◌ d t) e =
    let p : code c ≡ code d = cc in
    let q : code_points s ≡ code_points t = cc in
    ap₂ String.◌∷◌ (Char-path c d p) (code_points-inj s t q)

-- A quoted text ends where its own closing quote stands, so text and rest can be read back.
pub quote-inj : (s t : String) (r r' : List ℕ) → quote s r ≡ quote t r' → (s ≡ t) × (r ≡ r')
unfolding quote
quote-inj s t r r' e =
    let q : escape_all (code_points s) r ≡ escape_all (code_points t) r' = cc in
    let (u, v) = escape_all-inj (code_points s) (code_points t) r r' q in (code_points-inj s t u, v)

-- A quoted text before a comma, a property's name and colon: what `JSON.stringify` writes between
-- the values of an object, and how it is read back.
abbrev pub key : String → List ℕ → List ℕ
key name rest = quote name (b':' ∷ rest)

pub after : (x : ℕ) (r r' : List ℕ) → x ∷ r ≡ x ∷ r' → r ≡ r'
after x r r' e = cc

pub after_key : (k : String) (r r' : List ℕ) → key k r ≡ key k r' → r ≡ r'
after_key k r r' e = after b':' r r' (quote-inj k k _ _ e).1

pub after_text :
    (s t : String) (r r' : List ℕ) → quote s (b',' ∷ r) ≡ quote t (b',' ∷ r') → (s ≡ t) × (r ≡ r')
after_text s t r r' e = let (p, q) = quote-inj s t _ _ e in (p, after b',' r r' q)

-- Digits end where something else follows.
digits-inj :
    (ds es r r' : List ℕ)
    → All (λ d. d < 58) ds
    → All (λ d. d < 58) es
    → ds ++ b'}' ∷ r ≡ es ++ b'}' ∷ r'
    → (ds ≡ es) × (r ≡ r')
digits-inj [] [] r r' a b e = (refl, cc)
digits-inj [] (d ∷ es) r r' a b e = let p : b'}' ≡ d = cc in absurd (omega (arith, p, b.0))
digits-inj (d ∷ ds) [] r r' a b e = let p : d ≡ b'}' = cc in absurd (omega (arith, p, a.0))
digits-inj (c ∷ ds) (d ∷ es) r r' a b e =
    let p : c ≡ d = cc in
    let (q, t) = digits-inj ds es r r' a.1 b.1 (after c _ _ (rw p (rw p at e))) in
    (ap₂ (λ x y. x ∷ y) p q, t)

-- The text of a number, closed by a brace, can be read back.
pub decimal-inj :
    (m n : ℕ) (r r' : List ℕ) → decimal m ++ b'}' ∷ r ≡ decimal n ++ b'}' ∷ r' → (m ≡ n) × (r ≡ r')
decimal-inj m n r r' e =
    let (p, q) = digits-inj (decimal m) (decimal n) r r' (decimal-digits m) (decimal-digits n) e in
    (sym (value-decimal m) ∙ ap (value 0) p ∙ value-decimal n, q)

-- A property whose value is a text, and its comma.
abbrev pub field : String → String → List ℕ → List ℕ
field name text rest = key name (quote text (b',' ∷ rest))
