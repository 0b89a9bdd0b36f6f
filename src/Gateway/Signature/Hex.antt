-- ===== src/Gateway/Signature/Hex.antt =====
-- Encoding and decoding, and which headers are valid signatures.
use task_orchestrator_engine.Prelude.{
  ℕ, ◌+◌, ◌*◌, ◌/◌, ◌%◌, ◌<◌, ◌≡◌, ◌↔◌, refl, ap, sym, subst, ◌∙◌, true, false, not, some, List, [],
  ◌∷◌, ◌++◌, length, ◌==◌, ==_refl, arith, if◌then◌else◌,
}
use task_orchestrator_engine.Gateway.Signature.{
  Bytes, hex_digit, hex_value, to_hex, from_hex, strip_prefix, prefix, timing_safe_equal,
  compute_signature, validate_signature,
}

abbrev pub AllBytes : Bytes → Type 0
AllBytes [] = Unit
AllBytes (b ∷ bs) = (b < 256) × AllBytes bs

hex_value-hex_digit : (n : ℕ) → n < 16 → hex_value (hex_digit n) ≡ some n
hex_value-hex_digit n h = ground arith

from_hex-to_hex : (bs : Bytes) → AllBytes bs → from_hex (to_hex bs) ≡ bs
unfolding from_hex to_hex
from_hex-to_hex [] h = refl
from_hex-to_hex (b ∷ bs) h =
    let byte : b / 16 * 16 + b % 16 ≡ b = omega arith in
    rw
      (
        hex_value-hex_digit (b / 16) (omega arith),
        hex_value-hex_digit (b % 16) (omega arith),
        from_hex-to_hex bs h.1,
        byte,
      )
      refl

timing_safe_equal_refl : (xs : Bytes) → timing_safe_equal xs xs ≡ true
unfolding timing_safe_equal
timing_safe_equal_refl [] = refl
timing_safe_equal_refl (x ∷ xs) = ground (arith, timing_safe_equal_refl xs)

timing_safe_equal_lem :
    (xs ys : Bytes) → length xs ≡ length ys → timing_safe_equal xs ys ≡ true → xs ≡ ys
unfolding timing_safe_equal
timing_safe_equal_lem [] [] h e = refl
timing_safe_equal_lem [] (y ∷ ys) h e = ground arith
timing_safe_equal_lem (x ∷ xs) [] h e = ground arith
timing_safe_equal_lem (x ∷ xs) (y ∷ ys) h e = ground (arith, timing_safe_equal_lem xs ys)

strip_prefix-empty : strip_prefix [] ≡ []
unfolding strip_prefix
strip_prefix-empty = refl

strip_prefix-other : (c : ℕ) (cs : List ℕ) → (c == b's') ≡ false → strip_prefix (c ∷ cs) ≡ c ∷ cs
unfolding strip_prefix
strip_prefix-other c [] h = refl
strip_prefix-other c (c2 ∷ []) h = refl
strip_prefix-other c (c2 ∷ c3 ∷ []) h = refl
strip_prefix-other c (c2 ∷ c3 ∷ c4 ∷ []) h = refl
strip_prefix-other c (c2 ∷ c3 ∷ c4 ∷ c5 ∷ []) h = refl
strip_prefix-other c (c2 ∷ c3 ∷ c4 ∷ c5 ∷ c6 ∷ []) h = refl
strip_prefix-other c (c2 ∷ c3 ∷ c4 ∷ c5 ∷ c6 ∷ c7 ∷ rest) h = rw h refl

strip_prefix-to_hex : (bs : Bytes) → AllBytes bs → strip_prefix (to_hex bs) ≡ to_hex bs
unfolding to_hex
strip_prefix-to_hex [] h = strip_prefix-empty
strip_prefix-to_hex (b ∷ bs) h =
    strip_prefix-other (hex_digit (b / 16)) (hex_digit (b % 16) ∷ to_hex bs)
      (let high : b / 16 < 16 = omega arith in ground arith)

module _ (hmac : Bytes → Bytes → Bytes) (payload secret : Bytes)
    (bytes : AllBytes (hmac secret payload)) where
  expected_lem : from_hex (compute_signature hmac payload secret) ≡ hmac secret payload
  unfolding compute_signature
  expected_lem = from_hex-to_hex (hmac secret payload) bytes

  same_tested :
      (xs ys : Bytes)
      → ((if not (length xs == length ys) then false else timing_safe_equal xs ys) ≡ true)
        ↔ (ys ≡ xs)
  same_tested xs ys = (
    equal,
    λ e.
        subst
          (λ (zs : Bytes).
            (if not (length xs == length zs) then false else timing_safe_equal xs zs) ≡ true)
          (sym e) reflexive,
  )
    where
      equal :
          (if not (length xs == length ys) then false else timing_safe_equal xs ys) ≡ true → ys ≡ xs
      equal h = sym (timing_safe_equal_lem xs ys (ground arith) (ground arith))

      reflexive : (if not (length xs == length xs) then false else timing_safe_equal xs xs) ≡ true
      reflexive = rw (==_refl (length xs)) (timing_safe_equal_refl xs)

  -- For an HMAC of bytes, a header is a valid signature exactly if the text behind its prefix, or the
  -- whole text if it has none, decodes to the HMAC of the payload.
  pub validate_signature_iff :
      (header : List ℕ)
      → (validate_signature hmac payload header secret ≡ true)
        ↔ (from_hex (strip_prefix header) ≡ hmac secret payload)
  unfolding validate_signature
  validate_signature_iff header =
      subst
        (λ (xs : Bytes).
          ((if not (length xs == length (from_hex (strip_prefix header)))
              then false
              else timing_safe_equal xs (from_hex (strip_prefix header)))
            ≡ true)
          ↔ (from_hex (strip_prefix header) ≡ hmac secret payload))
        (sym expected_lem) (same_tested (hmac secret payload) (from_hex (strip_prefix header)))

  strip_prefix-append : (cs : List ℕ) → strip_prefix (prefix ++ cs) ≡ cs
  unfolding strip_prefix
  strip_prefix-append cs = refl

  strip_prefix-compute_signature :
      strip_prefix (compute_signature hmac payload secret) ≡ compute_signature hmac payload secret
  unfolding compute_signature
  strip_prefix-compute_signature = strip_prefix-to_hex (hmac secret payload) bytes

  -- For an HMAC of bytes, the signature that is computed of a payload is valid for it, with the prefix
  -- and without.
  pub validate_signature-compute_signature :
      (validate_signature hmac payload (prefix ++ compute_signature hmac payload secret) secret
        ≡ true)
      × (validate_signature hmac payload (compute_signature hmac payload secret) secret ≡ true)
  validate_signature-compute_signature = (
    (validate_signature_iff (prefix ++ compute_signature hmac payload secret)).1
        (ap from_hex (strip_prefix-append (compute_signature hmac payload secret)) ∙ expected_lem),
    (validate_signature_iff (compute_signature hmac payload secret)).1
        (ap from_hex strip_prefix-compute_signature ∙ expected_lem),
  )
