-- ===== src/Gateway/Webhooks/Checks.antt =====
-- Which requests the checks of the payload and of the signature let pass.
use task_orchestrator_engine.Prelude.{
  ℕ, ◌≤◌, ◌≡◌, ◌≢◌, inl, inr, refl, sym, ◌∙◌, true, false, Option, none, some, List, [], ◌∷◌,
  length, arith, Bool-cases,
}
use task_orchestrator_engine.Types.{Json, WebhookRegistration}
use task_orchestrator_engine.Cron.Text.{Text, parse_int}
use task_orchestrator_engine.Gateway.Signature.{Bytes, from_hex, strip_prefix, validate_signature}
use task_orchestrator_engine.Gateway.Signature.Hex.{AllBytes, validate_signature_iff}
use task_orchestrator_engine.Gateway.Webhooks.{
  Request, Reply, max_payload_size, too_long, header_too_long, raw_too_long, check_body,
  payload_validator, refused, check_raw, check_header, check_secret, hmac_validator,
}

-- A length of at most 1 MB, where one is known.
abbrev pub Fits : Option ℕ → Type 0
Fits none = Unit
Fits (some n) = n ≤ max_payload_size

abbrev pub announced : Option Text → Option ℕ
announced none = none
announced (some text) = parse_int text

abbrev pub measured : Option Bytes → Option ℕ
measured none = none
measured (some bytes) = some (length bytes)

abbrev pub IsWellFormed : Request → Type 0
IsWellFormed req =
    Fits (announced req.content_length) × (req.body ≢ none) × Fits (measured req.raw_body)

module _ (hmac : Bytes → Bytes → Bytes) where
  -- No secret, or a header that decodes to the HMAC of the body under the secret.
  pub data IsGenuine (req : Request) : Option Bytes → Type 0 where
    without : IsGenuine req none
    empty : IsGenuine req (some [])
    signed :
        {secret : Bytes} (header : List ℕ) (raw : Bytes)
        → req.signature_header ≡ some header
        → header ≢ []
        → req.raw_body ≡ some raw
        → from_hex (strip_prefix header) ≡ hmac secret raw
        → IsGenuine req (some secret)

-- A check that lets a request pass if `W` holds, and else stops it with a reply as `P` says.
pub data IsCheck (W : Type 0) (P : Reply → Type 0) : Option Reply → Type 0 where
  passes : W → IsCheck W P none
  stops : {r : Reply} → ¬ W → P r → IsCheck W P (some r)

too_long-Fits : (o : Option ℕ) → too_long o ≡ false → Fits o
too_long-Fits none h = _
too_long-Fits (some n) h = ground arith

too_long_lem : (o : Option ℕ) → too_long o ≡ true → ¬ Fits o
too_long_lem none h = λ f. ground arith
too_long_lem (some n) h = λ f. ground arith

header_announced : (o : Option Text) → header_too_long o ≡ too_long (announced o)
header_announced none = refl
header_announced (some t) = refl

raw_measured : (o : Option Bytes) → raw_too_long o ≡ too_long (measured o)
raw_measured none = refl
raw_measured (some t) = refl

abbrev pub IsBadRequest : Reply → Type 0
IsBadRequest r = r.status ≡ 400

check_body-IsCheck :
    (req : Request) (body : Option Json)
    → req.body ≡ body
    → Fits (announced req.content_length)
    → IsCheck (IsWellFormed req) IsBadRequest (check_body req body)
check_body-IsCheck req none e h = stops (λ w. w.1 e) refl
check_body-IsCheck req (some b) e h = elim (Bool-cases (raw_too_long req.raw_body)) [
  | inl l ↦ rw l (
      stops (λ w. too_long_lem (measured req.raw_body) (sym (raw_measured req.raw_body) ∙ l) w.2)
        refl)
  | inr l ↦ rw l (
      passes (
        h,
        (λ n. some_not_none (sym e ∙ n)),
        too_long-Fits (measured req.raw_body) (sym (raw_measured req.raw_body) ∙ l),
      ))
]
  where
    some_not_none : some b ≡ none → ⊥
    some_not_none p = cc

pub payload_validator-IsCheck :
    (req : Request) → IsCheck (IsWellFormed req) IsBadRequest (payload_validator req)
unfolding payload_validator
payload_validator-IsCheck req = elim (Bool-cases (header_too_long req.content_length)) [
  | inl l ↦ rw l (
      stops
        (λ w.
          too_long_lem (announced req.content_length)
            (sym (header_announced req.content_length) ∙ l) w.0)
        refl)
  | inr l ↦ rw l (
      check_body-IsCheck req req.body refl (
        too_long-Fits (announced req.content_length)
          (sym (header_announced req.content_length) ∙ l)))
]

module _ (hmac : Bytes → Bytes → Bytes)
    (bytes : (secret payload : Bytes) → AllBytes (hmac secret payload)) (req : Request) where
  abbrev pub IsRefused : Reply → Type 0
  IsRefused r = r ≡ refused

  abbrev Genuine : Bytes → Type 0
  Genuine secret = IsGenuine hmac req (some secret)

  -- What a genuine request with a secret shows.
  abbrev Shown : Bytes → Type 0
  Shown secret =
      (header : List ℕ) × (raw : Bytes) × (req.signature_header ≡ some header)
      × (header ≢ [])
      × (req.raw_body ≡ some raw)
      × (from_hex (strip_prefix header) ≡ hmac secret raw)

  Shown-by :
      (secret : Bytes) (o : Option Bytes)
      → o ≡ some secret
      → secret ≢ []
      → IsGenuine hmac req o
      → Shown secret
  Shown-by secret none e n without = cc
  Shown-by secret (some []) e n empty = elim (n (ground arith)) [ ]
  Shown-by secret (some s) e n (signed h r p q u v) = (h, r, p, q, u, ground arith)

  check_raw-IsCheck :
      (secret header : Bytes) (o : Option Bytes)
      → secret ≢ []
      → header ≢ []
      → req.signature_header ≡ some header
      → req.raw_body ≡ o
      → IsCheck (Genuine secret) IsRefused (check_raw hmac secret header o)
  check_raw-IsCheck secret header none n m p q =
      stops (λ g. let s = Shown-by secret (some secret) refl n g in ground arith) refl
  check_raw-IsCheck secret header (some raw) n m p q =
      elim (Bool-cases (validate_signature hmac raw header secret)) [
        | inl v ↦ rw v (
            passes (
              signed header raw p m q
                ((validate_signature_iff hmac raw secret (bytes secret raw) header).0 v)))
        | inr v ↦ rw v (
            stops
              (λ g.
                let s = Shown-by secret (some secret) refl n g in
                let decodes : from_hex (strip_prefix header) ≡ hmac secret raw = ground arith in
                let valid =
                  (validate_signature_iff hmac raw secret (bytes secret raw) header).1 decodes in
                ground arith)
              refl)
      ]

  check_header-IsCheck :
      (secret : Bytes) (o : Option (List ℕ))
      → secret ≢ []
      → req.signature_header ≡ o
      → IsCheck (Genuine secret) IsRefused (check_header hmac secret req o)
  check_header-IsCheck secret none n p =
      stops (λ g. let s = Shown-by secret (some secret) refl n g in ground arith) refl
  check_header-IsCheck secret (some []) n p =
      stops (λ g. let s = Shown-by secret (some secret) refl n g in ground arith) refl
  check_header-IsCheck secret (some (c ∷ cs)) n p =
      check_raw-IsCheck secret (c ∷ cs) req.raw_body n (λ e. ground arith) p refl

  pub check_secret-IsCheck :
      (o : Option Bytes) → IsCheck (IsGenuine hmac req o) IsRefused (check_secret hmac req o)
  check_secret-IsCheck none = passes without
  check_secret-IsCheck (some []) = passes empty
  check_secret-IsCheck (some (b ∷ bs)) =
      check_header-IsCheck (b ∷ bs) req.signature_header (λ e. ground arith) refl

  -- The middleware decides as the controller does.
  hmac_validator-IsCheck :
      (w : WebhookRegistration)
      → IsCheck (IsGenuine hmac req w.secret) IsRefused (hmac_validator hmac (some w) req)
  unfolding hmac_validator
  hmac_validator-IsCheck w = check_secret-IsCheck w.secret
