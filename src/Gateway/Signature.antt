-- ===== src/Gateway/Signature.antt =====
-- packages/shared/src/security/hmac-validator.ts: `computeSignature` and `validateSignature`, on lists
-- of bytes and of code units; the HMAC is an argument, of a secret and a payload.
pub mod Hex
use task_orchestrator_engine.Prelude.{
  ℕ, ◌+◌, ◌-◌, ◌*◌, ◌/◌, ◌%◌, Bool, true, false, not, ◌&&◌, Option, none, some, List, [], ◌∷◌,
  length, ltb, leb, ◌==◌, if◌then◌else◌,
}

abbrev pub Bytes : Type 0
Bytes = List ℕ

-- Node's hexadecimal encoding, and its decoding of `Buffer.from(text, 'hex')`: up to the first pair
-- that is not two digits.
abbrev pub hex_digit : ℕ → ℕ
hex_digit n = if ltb n 10 then b'0' + n else b'a' + (n - 10)

abbrev pub hex_value : ℕ → Option ℕ
hex_value c =
    if leb b'0' c && leb c b'9'
    then some (c - b'0')
    else if leb b'a' c && leb c b'f'
    then some (c - b'a' + 10)
    else if leb b'A' c && leb c b'F'
    then some (c - b'A' + 10)
    else none

unfoldable pub to_hex : Bytes → List ℕ
to_hex [] = []
to_hex (b ∷ bs) = hex_digit (b / 16) ∷ hex_digit (b % 16) ∷ to_hex bs

abbrev pub decoded : Option ℕ → Option ℕ → Bytes → Bytes
decoded (some a) (some b) rest = (a * 16 + b) ∷ rest
decoded (some a) none rest = []
decoded none o rest = []

unfoldable pub from_hex : List ℕ → Bytes
from_hex [] = []
from_hex (a ∷ []) = []
from_hex (a ∷ b ∷ rest) = decoded (hex_value a) (hex_value b) (from_hex rest)

-- `header.startsWith('sha256=') ? header.slice(7) : header`
unfoldable pub strip_prefix : List ℕ → List ℕ
strip_prefix (c1 ∷ c2 ∷ c3 ∷ c4 ∷ c5 ∷ c6 ∷ c7 ∷ rest) =
    if c1 == b's'
      && (c2 == b'h' && (c3 == b'a' && (c4 == b'2' && (c5 == b'5' && (c6 == b'6' && c7 == b'=')))))
    then rest
    else c1 ∷ c2 ∷ c3 ∷ c4 ∷ c5 ∷ c6 ∷ c7 ∷ rest
strip_prefix cs = cs

abbrev pub prefix : List ℕ
prefix = b's' ∷ b'h' ∷ b'a' ∷ b'2' ∷ b'5' ∷ b'6' ∷ b'=' ∷ []

-- `timingSafeEqual`, of two lists of one length.
unfoldable pub timing_safe_equal : Bytes → Bytes → Bool
timing_safe_equal [] bs = true
timing_safe_equal (a ∷ rest) [] = false
timing_safe_equal (a ∷ rest) (b ∷ bs) = a == b && timing_safe_equal rest bs

module _ (hmac : Bytes → Bytes → Bytes) where
  unfoldable pub compute_signature : Bytes → Bytes → List ℕ
  unfolding to_hex
  compute_signature payload secret = to_hex (hmac secret payload)

  unfoldable pub validate_signature : Bytes → List ℕ → Bytes → Bool
  unfolding compute_signature from_hex strip_prefix timing_safe_equal
  validate_signature payload header secret =
      let expected = from_hex (compute_signature payload secret) in
      let provided = from_hex (strip_prefix header) in
      if not (length expected == length provided)
      then false
      else timing_safe_equal expected provided
