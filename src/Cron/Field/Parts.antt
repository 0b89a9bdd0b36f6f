-- ===== src/Cron/Field/Parts.antt =====
-- What one part of a field adds, or why it is refused.
use task_orchestrator_engine.Prelude.{
  ℕ, zero, suc, ◌≤◌, ◌<◌, ◌≡◌, ◌≢◌, refl, inl, inr, Bool, true, false, ◌||◌, Option, none, some,
  List, elem, ltb, arith, ok, Ends, done, threw, Ends-bind, Bool-cases,
}
use task_orchestrator_engine.Cron.Text.{Text, includes, split, first_two, parse_int, to_number}
use task_orchestrator_engine.Cron.Field.{
  FieldSpec, Kind, invalid_step, invalid_range, invalid_value, no_values, CronError, in_field,
  empty_expression, not_five_fields, add, add_range, is_star, outside, failed, numeric,
  validate_range, parse_step, number_range, step_range, parse_step_part, parse_range_part,
  parse_value, parse_part,
}
use task_orchestrator_engine.Cron.Field.Values.{
  hits, IsDistinct, elem-add_range, add_range-IsDistinct,
}

-- The numbers `start`, `start + step`, ... up to `end`.
pub record Progression : Type 0 where
  pub start : ℕ
  pub end : ℕ
  pub step : ℕ

abbrev pub in_progression : Progression → ℕ → Bool
in_progression p v = hits p.start p.end p.step v

abbrev pub IsInside : FieldSpec → Progression → Type 0
IsInside spec p = (spec.min ≤ p.start) × (p.start ≤ p.end) × (p.end ≤ spec.max) × (0 < p.step)

module _ (spec : FieldSpec) (unusual : Text → Option ℕ) where
  -- What the text before the `/` of a step stands for.
  pub data Spans : Text → ℕ × ℕ → Type 0 where
    everything : {t : Text} → is_star t ≡ true → Spans t (spec.min, spec.max)
    between :
        {t : Text} {s e : ℕ}
        → includes b'-' t ≡ true
        → to_number unusual (first_two (split b'-' t)).0 ≡ some s
        → to_number unusual (first_two (split b'-' t)).1 ≡ some e
        → Spans t (s, e)
    onward :
        {t : Text} {s : ℕ} → includes b'-' t ≡ false → parse_int t ≡ some s → Spans t (s, spec.max)

  -- What a part of a field stands for, by the numbers that are read in its text: `a-b/k`, `a-b`, `*`
  -- or `a`.
  pub data Denotes : Text → Progression → Type 0 where
    stepped :
        {part : Text} {s e k : ℕ}
        → includes b'/' part ≡ true
        → parse_int (first_two (split b'/' part)).1 ≡ some k
        → Spans (first_two (split b'/' part)).0 (s, e)
        → Denotes part (record { start = s; end = e; step = k })
    range :
        {part : Text} {s e : ℕ}
        → includes b'/' part ≡ false
        → includes b'-' part ≡ true
        → parse_int (first_two (split b'-' part)).0 ≡ some s
        → parse_int (first_two (split b'-' part)).1 ≡ some e
        → Denotes part (record { start = s; end = e; step = 1 })
    star :
        {part : Text}
        → is_star part ≡ true
        → Denotes part (record { start = spec.min; end = spec.max; step = 1 })
    value :
        {part : Text} {v : ℕ}
        → includes b'/' part ≡ false
        → includes b'-' part ≡ false
        → parse_int part ≡ some v
        → Denotes part (record { start = v; end = v; step = 1 })

-- `vs'` is `vs` with the numbers of a progression of some kind inside the bounds.
pub record Adds (spec : FieldSpec) (Kinds : Progression → Type 0) (vs vs' : List ℕ) : Type 0 where
  pub added : Progression
  pub inside : IsInside spec added
  pub denoted : Kinds added
  pub distinct : IsDistinct vs → IsDistinct vs'
  pub exact : (v : ℕ) → elem v vs' ≡ (elem v vs || in_progression added v)

-- An error that names the field, and is not the last of the kinds.
abbrev pub IsRefusal : FieldSpec → CronError → Type 0
IsRefusal spec (in_field name kind) = (name ≡ spec.name) × (kind ≢ no_values)
IsRefusal spec empty_expression = ⊥
IsRefusal spec (not_five_fields n) = ⊥

module _ (spec : FieldSpec) where
  abbrev IsRange : ℕ × ℕ → Type 0
  IsRange (s, e) = (spec.min ≤ s) × (s ≤ e) × (e ≤ spec.max)

  abbrev IsGiven : ℕ → ℕ → ℕ × ℕ → Type 0
  IsGiven s e r = IsRange r × (r.0 ≡ s) × (r.1 ≡ e)

  numeric-Ends :
      (kind : Kind) (o : Option ℕ)
      → kind ≢ no_values
      → Ends (λ n. o ≡ some n) (IsRefusal spec) (numeric spec kind o)
  numeric-Ends kind none h = threw (refl, h)
  numeric-Ends kind (some n) h = done refl

  validate_range-Ends : (s e : ℕ) → Ends (IsGiven s e) (IsRefusal spec) (validate_range spec s e)
  unfolding validate_range
  validate_range-Ends s e = elim (Bool-cases (outside s spec)) [
    | inl h ↦ rw h (threw (refl, λ k. cc))
    | inr h ↦ elim (Bool-cases (outside e spec)) [
      | inl k ↦ rw (h, k) (threw (refl, λ k. cc))
      | inr k ↦ elim (Bool-cases (ltb e s)) [
        | inl l ↦ rw (h, k, l) (threw (refl, λ k. cc))
        | inr l ↦ rw (h, k, l) (done (ground arith, refl, refl))
      ]
    ]
  ]

  parse_step-Ends :
      (t : Text) → Ends (λ n. (0 < n) × (parse_int t ≡ some n)) (IsRefusal spec) (parse_step spec t)
  unfolding parse_step
  parse_step-Ends t = positive (parse_int t)
    where
      positive :
          (o : Option ℕ)
          → Ends
              (λ n. (0 < n) × (o ≡ some n))
              (IsRefusal spec)
              (elim o [
                | none ↦ failed spec invalid_step
                | some zero ↦ failed spec invalid_step
                | some (suc n) ↦ ok (suc n)
              ])
      positive none = threw (refl, λ k. cc)
      positive (some zero) = threw (refl, λ k. cc)
      positive (some (suc n)) = done (omega arith, refl)

  add_range-Adds :
      {Kinds : Progression → Type 0} (s e k : ℕ) (vs : List ℕ)
      → IsRange (s, e)
      → 0 < k
      → Kinds (record { start = s; end = e; step = k })
      → Adds spec Kinds vs (add_range s e k vs)
  add_range-Adds s e k vs h p d = record {
    added = record { start = s; end = e; step = k };
    inside = (h.0, h.1, h.2, p);
    denoted = d;
    distinct = add_range-IsDistinct s e k vs;
    exact = λ v. elem-add_range s e k vs v p;
  }

  given_range-Adds :
      (Kinds : Progression → Type 0) (s e k : ℕ) (vs : List ℕ) (r : ℕ × ℕ)
      → IsGiven s e r
      → 0 < k
      → Kinds (record { start = s; end = e; step = k })
      → Adds spec Kinds vs (add_range r.0 r.1 k vs)
  given_range-Adds Kinds s e k vs r (h, p, q) l d = add_range-Adds r.0 r.1 k vs h l (rw (p, q) d)

  module _ (bounds : spec.min ≤ spec.max) (unusual : Text → Option ℕ) where
    parse_range_part-Ends :
        (part : Text) (vs : List ℕ)
        → includes b'/' part ≡ false
        → includes b'-' part ≡ true
        → Ends
            (Adds spec (Denotes spec unusual part) vs)
            (IsRefusal spec)
            (parse_range_part spec unusual (first_two (split b'-' part)) vs)
    unfolding parse_range_part
    parse_range_part-Ends part vs no_step dash =
        let (a, b) = first_two (split b'-' part) in
        Ends-bind _ (numeric-Ends invalid_range (parse_int a) (λ k. cc)) (λ s p.
          Ends-bind _ (numeric-Ends invalid_range (parse_int b) (λ k. cc)) (λ e q.
            Ends-bind _ (validate_range-Ends s e) (λ r h. done (
              given_range-Adds (Denotes spec unusual part) s e 1 vs r h (omega arith)
                (range no_step dash p q)))))

    number_range-Ends :
        (t : Text)
        → includes b'-' t ≡ true
        → Ends
            (Spans spec unusual t)
            (IsRefusal spec)
            (number_range spec unusual (first_two (split b'-' t)))
    unfolding number_range
    number_range-Ends t dash =
        let (a, b) = first_two (split b'-' t) in
        Ends-bind _ (numeric-Ends invalid_range (to_number unusual a) (λ k. cc)) (λ s p.
          Ends-bind _ (numeric-Ends invalid_range (to_number unusual b) (λ k. cc))
            (λ e q. done (between dash p q)))

    step_range-Ends :
        (t : Text) → Ends (Spans spec unusual t) (IsRefusal spec) (step_range spec unusual t)
    unfolding step_range
    step_range-Ends t = elim (Bool-cases (is_star t)) [
      | inl h ↦ rw h (done (everything h))
      | inr h ↦ elim (Bool-cases (includes b'-' t)) [
        | inl k ↦ rw (h, k) (number_range-Ends t k)
        | inr k ↦
            rw (h, k)
              (Ends-bind _ (numeric-Ends invalid_value (parse_int t) (λ l. cc))
                (λ s p. done (onward k p)))
      ]
    ]

    parse_step_part-Ends :
        (part : Text) (vs : List ℕ)
        → includes b'/' part ≡ true
        → Ends
            (Adds spec (Denotes spec unusual part) vs)
            (IsRefusal spec)
            (parse_step_part spec unusual (first_two (split b'/' part)) vs)
    unfolding parse_step_part
    parse_step_part-Ends part vs slash =
        let (a, b) = first_two (split b'/' part) in
        Ends-bind _ (parse_step-Ends b) (λ k p. Ends-bind _ (step_range-Ends a) (λ r d.
          Ends-bind _ (validate_range-Ends r.0 r.1) (λ s h. done (
            given_range-Adds (Denotes spec unusual part) r.0 r.1 k vs s h p.0
              (stepped slash p.1 d)))))

    add-Adds :
        {Kinds : Progression → Type 0} (v : ℕ) (vs : List ℕ)
        → outside v spec ≡ false
        → Kinds (record { start = v; end = v; step = 1 })
        → Adds spec Kinds vs (add v vs)
    add-Adds v vs h d = record {
      added = record { start = v; end = v; step = 1 };
      inside = ground arith;
      denoted = d;
      distinct = ground arith;
      exact = λ w. ground arith;
    }

    parse_value-Ends :
        (part : Text) (vs : List ℕ)
        → includes b'/' part ≡ false
        → includes b'-' part ≡ false
        → Ends
            (Adds spec (Denotes spec unusual part) vs)
            (IsRefusal spec)
            (parse_value spec unusual part vs)
    unfolding parse_value
    parse_value-Ends part vs no_step no_dash =
        Ends-bind _ (numeric-Ends invalid_value (parse_int part) (λ k. cc)) (λ v p.
          elim (Bool-cases (outside v spec)) [
            | inl h ↦ rw h (threw (refl, λ k. cc))
            | inr h ↦ rw h (done (add-Adds v vs h (value no_step no_dash p)))
          ])

    pub parse_part-Ends :
        (part : Text) (vs : List ℕ)
        → Ends
            (Adds spec (Denotes spec unusual part) vs)
            (IsRefusal spec)
            (parse_part spec unusual part vs)
    unfolding parse_part
    parse_part-Ends part vs = elim (Bool-cases (includes b'/' part)) [
      | inl h ↦ rw h (parse_step_part-Ends part vs h)
      | inr h ↦ elim (Bool-cases (includes b'-' part)) [
        | inl k ↦ rw (h, k) (parse_range_part-Ends part vs h k)
        | inr k ↦ elim (Bool-cases (is_star part)) [
          | inl l ↦
              rw (h, k, l)
                (done (add_range-Adds spec.min spec.max 1 vs (omega arith) (omega arith) (star l)))
          | inr l ↦ rw (h, k, l) (parse_value-Ends part vs h k)
        ]
      ]
    ]
