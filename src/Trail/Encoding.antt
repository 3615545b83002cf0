-- ===== src/Trail/Encoding.antt =====
-- verifiable-audit-trail/src/index.ts: hexadecimal and base64 texts of bytes, as `Buffer` writes and
-- reads them, and the decoding of a hash memo. Texts are lists of code points.
use vero_audit_guard.Base.{
  ℕ, Option, List, Bool, if◌then◌else◌, false, ◌*◌, leb, not, ltb, ◌∷◌, ◌-◌, ◌+◌, ◌&&◌, ◌/◌, length,
  [], ◌==◌, ◌||◌, none, ◌%◌, some, true,
}

-- The digits of `toString("hex")`.
abbrev pub digit : ℕ → ℕ
digit v = if ltb v 10 then 48 + v else 87 + v

unfoldable pub to_hex : List ℕ → List ℕ
to_hex [] = []
to_hex (b ∷ bs) = digit (b / 16) ∷ digit (b % 16) ∷ to_hex bs

unfoldable pub hex_value : ℕ → Option ℕ
hex_value c =
    if leb 48 c && leb c 57
    then some (c - 48)
    else if leb 97 c && leb c 102
    then some (c - 87)
    else if leb 65 c && leb c 70
    then some (c - 55)
    else none

abbrev byte_of : Option ℕ → Option ℕ → List ℕ → List ℕ
byte_of (some h) (some l) rest = (h * 16 + l) ∷ rest
byte_of _ _ rest = []

-- `Buffer.from(text, "hex")`, which stops before the first pair that is no byte.
unfoldable pub from_hex : List ℕ → List ℕ
from_hex [] = []
from_hex (c ∷ []) = []
from_hex (c ∷ d ∷ cs) = byte_of (hex_value c) (hex_value d) (from_hex cs)

abbrev pub same : List ℕ → List ℕ → Bool
same [] [] = true
same (c ∷ cs) (d ∷ ds) = c == d && same cs ds
same _ _ = false

unfoldable pub hashes_match : List ℕ → List ℕ → Bool
hashes_match expected actual = same (from_hex expected) (from_hex actual)

unfoldable pub sextet : ℕ → ℕ
sextet v =
    if ltb v 26
    then 65 + v
    else if ltb v 52
    then 71 + v
    else if ltb v 62
    then v - 4
    else if v == 62
    then 43
    else 47

unfoldable pub sextet_value : ℕ → ℕ
sextet_value c =
    if leb 97 c
    then c - 71
    else if leb 65 c
    then c - 65
    else if leb 48 c
    then c + 4
    else if c == 43
    then 62
    else 63

unfoldable pub is_sextet : ℕ → Bool
is_sextet c =
    (leb 65 c && leb c 90)
    || (leb 97 c && leb c 122)
    || (leb 48 c && leb c 57)
    || c == 43
    || c == 47

-- `toString("base64")`
unfoldable pub to_base64 : List ℕ → List ℕ
to_base64 [] = []
to_base64 (a ∷ []) = sextet (a / 4) ∷ sextet (a % 4 * 16) ∷ b'=' ∷ b'=' ∷ []
to_base64 (a ∷ b ∷ []) =
    sextet (a / 4) ∷ sextet (a % 4 * 16 + b / 16) ∷ sextet (b % 16 * 4) ∷ b'=' ∷ []
to_base64 (a ∷ b ∷ c ∷ bs) =
    sextet (a / 4)
    ∷ sextet (a % 4 * 16 + b / 16)
    ∷ sextet (b % 16 * 4 + c / 64)
    ∷ sextet (c % 64)
    ∷ to_base64 bs

-- The two bytes of the last group, three characters and a `=`, or the three of another.
abbrev group : ℕ → ℕ → ℕ → ℕ → List ℕ → List ℕ
group p q r s rest = (p * 4 + q / 16) ∷ (q % 16 * 16 + r / 4) ∷ (r % 4 * 64 + s) ∷ rest

-- `Buffer.from(text, "base64")` on the texts that the pattern lets through.
unfoldable pub from_base64 : List ℕ → List ℕ
from_base64 (p ∷ q ∷ r ∷ s ∷ cs) =
    let rest = from_base64 cs in
    if s == b'='
    then (sextet_value p * 4 + sextet_value q / 16)
      ∷ (sextet_value q % 16 * 16 + sextet_value r / 4)
      ∷ []
    else group (sextet_value p) (sextet_value q) (sextet_value r) (sextet_value s) rest
from_base64 _ = []

-- Characters of the alphabet, and one `=` at the end.
unfoldable pub closed : List ℕ → Bool
closed [] = false
closed (c ∷ []) = c == b'='
closed (c ∷ d ∷ cs) = is_sextet c && closed (d ∷ cs)

-- `decodeMemoHash`, with the pattern's 43 characters and `=`.
unfoldable pub decode_memo_hash : List ℕ → Option (List ℕ)
decode_memo_hash memo =
    let bytes = from_base64 memo in
    if not ((length memo == 44) && closed memo)
    then none
    else if not (length bytes == 32) || not (same (to_base64 bytes) memo)
    then none
    else some (to_hex bytes)
