-- ===== src/Cron/Field/Outcome.antt =====
-- What `parseField` and `parseCronExpression` return, and how they fail.
use task_orchestrator_engine.Prelude.{
  ℕ, ◌≤◌, ◌<◌, ◌≡◌, ◌≢◌, sym, ◌∙◌, Bool, true, false, ◌||◌, Option, List, [], ◌∷◌, ◌++◌, elem,
  any_of, length, arith, Result, Ends, done, threw, Ends-bind,
}
use task_orchestrator_engine.Cron.Text.{Text, split, split_at, split_spaces, trim}
use task_orchestrator_engine.Cron.Field.{
  CronFields, FieldSpec, minute_spec, hour_spec, day_of_month_spec, month_spec, day_of_week_spec,
  no_values, CronError, in_field, empty_expression, not_five_fields, outside, parse_parts,
  sorted_values, parse_field, parse_tokens, parse_cron_expression,
}
use task_orchestrator_engine.Cron.Field.Values.{IsDistinct, IsSorted, elem-sort, sort-IsSorted}
use task_orchestrator_engine.Cron.Field.Parts.{
  Progression, in_progression, IsInside, Denotes, Adds, IsRefusal, parse_part-Ends,
}

abbrev pub in_some : List Progression → ℕ → Bool
in_some ps v = any_of (λ p. in_progression p v) ps

abbrev pub AllInside : FieldSpec → List Progression → Type 0
AllInside spec [] = Unit
AllInside spec (p ∷ ps) = IsInside spec p × AllInside spec ps

-- Each progression of a list is what the part in its place stands for.
abbrev pub AllDenoted : FieldSpec → (Text → Option ℕ) → List Text → List Progression → Type 0
AllDenoted spec unusual [] [] = Unit
AllDenoted spec unusual [] (p ∷ ps) = ⊥
AllDenoted spec unusual (part ∷ parts) [] = ⊥
AllDenoted spec unusual (part ∷ parts) (p ∷ ps) =
    Denotes spec unusual part p × AllDenoted spec unusual parts ps

-- The values of a field: sorted without repetition, and exactly the numbers of the progressions that its
-- parts stand for, which are inside the bounds.
pub record Parsed (spec : FieldSpec) (unusual : Text → Option ℕ) (texts : List Text) (vs : List ℕ)
    : Type 0 where
  pub parts : List Progression
  pub denoted : AllDenoted spec unusual texts parts
  pub inside : AllInside spec parts
  pub sorted : IsSorted vs
  pub exact : (v : ℕ) → elem v vs ≡ in_some parts v

record Collected (spec : FieldSpec) (unusual : Text → Option ℕ) (texts : List Text)
    (vs vs' : List ℕ) : Type 0 where
  parts : List Progression
  denoted : AllDenoted spec unusual texts parts
  inside : AllInside spec parts
  distinct : IsDistinct vs → IsDistinct vs'
  exact : (v : ℕ) → elem v vs' ≡ (elem v vs || in_some parts v)

or_none : (b : Bool) → b ≡ (b || false)
or_none b = ground arith

or_chain : (a b c d e : Bool) → d ≡ (c || e) → c ≡ (a || b) → d ≡ (a || (b || e))
or_chain a b c d e p q = ground arith

split_at-cons : (d : ℕ) (piece cs : Text) → 0 < length (split_at d piece cs)
unfolding split_at
split_at-cons d piece [] = omega arith
split_at-cons d piece (c ∷ cs) = ground (arith, split_at-cons d (piece ++ c ∷ []) cs)

split_cons : (token : Text) → 0 < length (split b',' token)
unfolding split
split_cons token = split_at-cons b',' [] token

module _ (spec : FieldSpec) (bounds : spec.min ≤ spec.max) where
  first_value :
      (ps : List Progression) → 0 < length ps → AllInside spec ps → (v : ℕ) × (in_some ps v ≡ true)
  first_value [] h a = (0, ground arith)
  first_value (p ∷ ps) h a = (p.start, ground arith)

  value_inside :
      (ps : List Progression) (v : ℕ)
      → AllInside spec ps
      → in_some ps v ≡ true
      → outside v spec ≡ false
  value_inside [] v a h = cc
  value_inside (p ∷ ps) v a h = ground (arith, value_inside ps v)

  module _ (unusual : Text → Option ℕ) where
    some_part :
        (texts : List Text) (ps : List Progression)
        → 0 < length texts
        → AllDenoted spec unusual texts ps
        → 0 < length ps
    some_part [] ps l d = absurd (omega arith)
    some_part (t ∷ texts) [] l d = absurd d
    some_part (t ∷ texts) (p ∷ ps) l d = omega arith

    parse_parts-Ends :
        (parts : List Text) (vs : List ℕ)
        → Ends
            (Collected spec unusual parts vs)
            (IsRefusal spec)
            (parse_parts spec unusual parts vs)
    unfolding parse_parts
    parse_parts-Ends [] vs = done (record {
      parts = [];
      denoted = _;
      inside = _;
      distinct = λ d. d;
      exact = λ v. or_none (elem v vs);
    })
    parse_parts-Ends (part ∷ parts) vs =
        Ends-bind _ (parse_part-Ends spec bounds unusual part vs)
          (λ vs' a. extend a (parse_parts-Ends parts vs'))
      where
        extend :
            {vs' : List ℕ} {r : Result CronError (List ℕ)}
            → Adds spec (Denotes spec unusual part) vs vs'
            → Ends (Collected spec unusual parts vs') (IsRefusal spec) r
            → Ends (Collected spec unusual (part ∷ parts) vs) (IsRefusal spec) r
        extend a (threw q) = threw q
        extend {vs'} a (done {a = ws} c) = done (record {
          parts = a.added ∷ c.parts;
          denoted = (a.denoted, c.denoted);
          inside = (a.inside, c.inside);
          distinct = λ d. c.distinct (a.distinct d);
          exact = λ v.
              or_chain (elem v vs) (in_progression a.added v) (elem v vs') (elem v ws)
                (in_some c.parts v) (c.exact v) (a.exact v);
        })

    sorted_values-Ends :
        (texts : List Text) (vs : List ℕ)
        → 0 < length texts
        → Collected spec unusual texts [] vs
        → Ends (Parsed spec unusual texts) (IsRefusal spec) (sorted_values spec unusual vs)
    sorted_values-Ends texts [] p c =
        let v = first_value c.parts (some_part texts c.parts p c.denoted) c.inside in
        elim (absurd_bool (sym v.1 ∙ sym (c.exact v.0))) [ ]
      where
        absurd_bool : true ≡ false → ⊥
        absurd_bool h = cc
    sorted_values-Ends texts (v ∷ vs) p c = done (record {
      parts = c.parts;
      denoted = c.denoted;
      inside = c.inside;
      sorted = sort-IsSorted (v ∷ vs) (c.distinct _);
      exact = λ w. elem-sort (v ∷ vs) w ∙ c.exact w;
    })

    -- A field whose bounds are in order parses to values that are sorted without repetition and are
    -- exactly the numbers of the arithmetic progressions that its parts between commas stand for, all
    -- inside the bounds: from a number to another, from a number on, all numbers or one number, in steps
    -- of one or of a given number, as they are read in the part's text. Or it throws an error that names
    -- the field and is not the one about no values.
    pub parse_field-Parsed :
        (token : Text)
        → Ends
            (Parsed spec unusual (split b',' token))
            (IsRefusal spec)
            (parse_field spec unusual token)
    unfolding parse_field split
    parse_field-Parsed token =
        Ends-bind _ (parse_parts-Ends (split_at b',' [] token) [])
          (λ vs c. sorted_values-Ends (split_at b',' [] token) vs (split_at-cons b',' [] token) c)

-- What is wrong with a whole expression.
abbrev pub IsReported : CronError → Type 0
IsReported (in_field name kind) = kind ≢ no_values
IsReported empty_expression = Unit
IsReported (not_five_fields n) = n ≢ 5

abbrev pub IsValues : FieldSpec → List ℕ → Type 0
IsValues spec vs =
    IsSorted vs × (0 < length vs) × ((v : ℕ) → elem v vs ≡ true → outside v spec ≡ false)

-- Every field is sorted without repetition, has a value, and keeps its bounds.
pub record ValidFields (f : CronFields) : Type 0 where
  pub minutes_lem : IsValues minute_spec f.minutes
  pub hours_lem : IsValues hour_spec f.hours
  pub days_of_month_lem : IsValues day_of_month_spec f.days_of_month
  pub months_lem : IsValues month_spec f.months
  pub days_of_week_lem : IsValues day_of_week_spec f.days_of_week

module _ (spec : FieldSpec) (bounds : spec.min ≤ spec.max) where
  some_value : (vs : List ℕ) (v : ℕ) → elem v vs ≡ true → 0 < length vs
  some_value [] v h = cc
  some_value (w ∷ ws) v h = omega arith

  Parsed-IsValues :
      {unusual : Text → Option ℕ} {texts : List Text} {vs : List ℕ}
      → 0 < length texts
      → Parsed spec unusual texts vs
      → IsValues spec vs
  Parsed-IsValues {unusual} {texts} {vs} h p =
      let some_parts = some_part spec bounds unusual texts p.parts h p.denoted in
      let v = first_value spec bounds p.parts some_parts p.inside in
      (
        p.sorted,
        some_value vs v.0 (p.exact v.0 ∙ v.1),
        λ w e. value_inside spec bounds p.parts w p.inside (sym (p.exact w) ∙ e),
      )

  refusal-IsReported : (e : CronError) → IsRefusal spec e → IsReported e
  refusal-IsReported (in_field name kind) r = r.1
  refusal-IsReported empty_expression r = elim r [ ]
  refusal-IsReported (not_five_fields n) r = elim r [ ]

  pub parse_field-IsValues :
      (unusual : Text → Option ℕ) (token : Text)
      → Ends (IsValues spec) IsReported (parse_field spec unusual token)
  parse_field-IsValues unusual token = weaken (parse_field-Parsed spec bounds unusual token)
    where
      weaken :
          {r : Result CronError (List ℕ)}
          → Ends (Parsed spec unusual (split b',' token)) (IsRefusal spec) r
          → Ends (IsValues spec) IsReported r
      weaken (done p) = done (Parsed-IsValues (split_cons token) p)
      weaken (threw {e} q) = threw (refusal-IsReported e q)

module _ (unusual : Text → Option ℕ) where
  parse_tokens-ValidFields :
      (tokens : List Text) → Ends ValidFields IsReported (parse_tokens unusual tokens)
  unfolding parse_tokens
  parse_tokens-ValidFields [] = threw (omega arith)
  parse_tokens-ValidFields (a ∷ []) = threw (omega arith)
  parse_tokens-ValidFields (a ∷ b ∷ []) = threw (omega arith)
  parse_tokens-ValidFields (a ∷ b ∷ c ∷ []) = threw (omega arith)
  parse_tokens-ValidFields (a ∷ b ∷ c ∷ d ∷ []) = threw (omega arith)
  parse_tokens-ValidFields (a ∷ b ∷ c ∷ d ∷ e ∷ []) =
      Ends-bind _ (parse_field-IsValues minute_spec (omega arith) unusual a) (λ v1 h1.
        Ends-bind _ (parse_field-IsValues hour_spec (omega arith) unusual b) (λ v2 h2.
          Ends-bind _ (parse_field-IsValues day_of_month_spec (omega arith) unusual c) (λ v3 h3.
            Ends-bind _ (parse_field-IsValues month_spec (omega arith) unusual d) (λ v4 h4.
              Ends-bind _ (parse_field-IsValues day_of_week_spec (omega arith) unusual e) (λ v5 h5.
                done (record {
                  minutes_lem = h1;
                  hours_lem = h2;
                  days_of_month_lem = h3;
                  months_lem = h4;
                  days_of_week_lem = h5;
                }))))))
  parse_tokens-ValidFields (a ∷ b ∷ c ∷ d ∷ e ∷ f ∷ rest) = threw (omega arith)

  -- An expression parses to fields that are each sorted without repetition, have a value and keep
  -- their bounds, or its error is that it is empty, that it has another number of fields than five,
  -- or one in a field that is not the one about no values.
  pub parse_cron_expression-ValidFields :
      (expr : Text) → Ends ValidFields IsReported (parse_cron_expression unusual expr)
  unfolding parse_cron_expression
  parse_cron_expression-ValidFields [] = threw _
  parse_cron_expression-ValidFields (c ∷ cs) =
      parse_tokens-ValidFields (split_spaces (trim (c ∷ cs)))
