-- ===== src/Cron/Field.antt =====
-- `parseField`, `validateRange` and `parseCronExpression`. A `Set` of numbers is a list without
-- repetition, whose order does not matter since it is sorted in the end; of a thrown error, its kind
-- and its field.
pub mod Values
pub mod Outcome
pub mod Parts
use task_orchestrator_engine.Prelude.{
  ℕ, zero, suc, ◌+◌, ◌-◌, Bool, true, false, ◌||◌, Option, none, some, List, [], ◌∷◌, elem, length,
  ltb, leb, ◌==◌, if◌then◌else◌, Result, ok, err, ◌>>=◌,
}
use task_orchestrator_engine.Cron.Text.{
  Text, trim, split_spaces, includes, split, first_two, parse_int, to_number,
}

pub record CronFields : Type 0 where
  pub minutes : List ℕ
  pub hours : List ℕ
  pub days_of_month : List ℕ
  pub months : List ℕ
  pub days_of_week : List ℕ

pub data FieldName : Type 0 where
  minute hour day_of_month month day_of_week : FieldName

pub record FieldSpec : Type 0 where
  pub name : FieldName
  pub min : ℕ
  pub max : ℕ

pub data Kind : Type 0 where
  invalid_step invalid_range invalid_value value_out_of_range : Kind
  start_out_of_bounds end_out_of_bounds start_after_end no_values : Kind

pub data CronError : Type 0 where
  in_field : FieldName → Kind → CronError
  empty_expression : CronError
  not_five_fields : ℕ → CronError

abbrev pub minute_spec : FieldSpec
minute_spec = record { name = minute; min = 0; max = 59 }

abbrev pub hour_spec : FieldSpec
hour_spec = record { name = hour; min = 0; max = 23 }

abbrev pub day_of_month_spec : FieldSpec
day_of_month_spec = record { name = day_of_month; min = 1; max = 31 }

abbrev pub month_spec : FieldSpec
month_spec = record { name = month; min = 1; max = 12 }

abbrev pub day_of_week_spec : FieldSpec
day_of_week_spec = record { name = day_of_week; min = 0; max = 6 }

-- `values.add(v)`
abbrev pub add : ℕ → List ℕ → List ℕ
add v vs = if elem v vs then vs else v ∷ vs

-- `for (let i = start; i <= end; i += step) values.add(i)`, for as many rounds as there are numbers.
unfoldable pub add_steps : ℕ → ℕ → ℕ → ℕ → List ℕ → List ℕ
add_steps zero i end step vs = vs
add_steps (suc rounds) i end step vs =
    let further = add_steps rounds (i + step) end step (add i vs) in
    if leb i end then further else vs

unfoldable pub add_range : ℕ → ℕ → ℕ → List ℕ → List ℕ
unfolding add_steps
add_range start end step vs = add_steps (end + 1 - start) start end step vs

abbrev pub is_star : Text → Bool
is_star (c ∷ []) = c == b'*'
is_star _ = false

abbrev pub outside : ℕ → FieldSpec → Bool
outside n spec = ltb n spec.min || ltb spec.max n

-- `sort((a, b) => a - b)`
unfoldable pub insert_sorted : ℕ → List ℕ → List ℕ
insert_sorted v [] = v ∷ []
insert_sorted v (x ∷ xs) = if leb v x then v ∷ x ∷ xs else x ∷ insert_sorted v xs

unfoldable pub sort : List ℕ → List ℕ
unfolding insert_sorted
sort [] = []
sort (v ∷ vs) = insert_sorted v (sort vs)

module _ (spec : FieldSpec) where
  abbrev pub failed {ℓ} : {A : Type ℓ} → Kind → Result CronError A
  failed kind = err (in_field spec.name kind)

  -- A number that must not be `NaN`.
  abbrev pub numeric : Kind → Option ℕ → Result CronError ℕ
  numeric kind none = failed kind
  numeric kind (some n) = ok n

  -- `validateRange`, and the pair that it lets through.
  unfoldable pub validate_range : ℕ → ℕ → Result CronError (ℕ × ℕ)
  validate_range start end =
      if outside start spec
      then failed start_out_of_bounds
      else if outside end spec
      then failed end_out_of_bounds
      else if ltb end start
      then failed start_after_end
      else ok (start, end)

  -- The step must be a number above 0.
  unfoldable pub parse_step : Text → Result CronError ℕ
  parse_step text = elim (parse_int text) [
    | none ↦ failed invalid_step
    | some zero ↦ failed invalid_step
    | some (suc n) ↦ ok (suc n)
  ]

  module _ (unusual : Text → Option ℕ) where
    -- `rangeStr.split('-').map(Number)`
    unfoldable pub number_range : Text × Text → Result CronError (ℕ × ℕ)
    number_range (s, e) = do
      start ← numeric invalid_range (to_number unusual s)
      end ← numeric invalid_range (to_number unusual e)
      ok (start, end)

    -- The start and the end of a part with a step.
    unfoldable pub step_range : Text → Result CronError (ℕ × ℕ)
    unfolding number_range
    step_range range =
        if is_star range
        then ok (spec.min, spec.max)
        else if includes b'-' range
        then number_range (first_two (split b'-' range))
        else (do start ← numeric invalid_value (parse_int range); ok (start, spec.max))

    -- `range/step`
    unfoldable pub parse_step_part : Text × Text → List ℕ → Result CronError (List ℕ)
    unfolding parse_step step_range validate_range
    parse_step_part (range, step_text) vs = do
      step ← parse_step step_text
      (s, e) ← step_range range
      (start, end) ← validate_range s e
      ok (add_range start end step vs)

    -- `start-end`
    unfoldable pub parse_range_part : Text × Text → List ℕ → Result CronError (List ℕ)
    unfolding validate_range
    parse_range_part (start_text, end_text) vs = do
      s ← numeric invalid_range (parse_int start_text)
      e ← numeric invalid_range (parse_int end_text)
      (start, end) ← validate_range s e
      ok (add_range start end 1 vs)

    unfoldable pub parse_value : Text → List ℕ → Result CronError (List ℕ)
    parse_value part vs = do
      v ← numeric invalid_value (parse_int part)
      if outside v spec then failed value_out_of_range else ok (add v vs)

    unfoldable pub parse_part : Text → List ℕ → Result CronError (List ℕ)
    unfolding parse_step_part parse_range_part parse_value
    parse_part part vs =
        if includes b'/' part
        then parse_step_part (first_two (split b'/' part)) vs
        else if includes b'-' part
        then parse_range_part (first_two (split b'-' part)) vs
        else if is_star part
        then ok (add_range spec.min spec.max 1 vs)
        else parse_value part vs

    -- The loop over the parts.
    unfoldable pub parse_parts : List Text → List ℕ → Result CronError (List ℕ)
    unfolding parse_part
    parse_parts [] vs = ok vs
    parse_parts (part ∷ parts) vs = do vs' ← parse_part part vs; parse_parts parts vs'

    abbrev pub sorted_values : List ℕ → Result CronError (List ℕ)
    sorted_values [] = failed no_values
    sorted_values (v ∷ vs) = ok (sort (v ∷ vs))

    unfoldable pub parse_field : Text → Result CronError (List ℕ)
    unfolding parse_parts sort
    parse_field token = do vs ← parse_parts (split b',' token) []; sorted_values vs

module _ (unusual : Text → Option ℕ) where
  unfoldable pub parse_tokens : List Text → Result CronError CronFields
  unfolding parse_field
  parse_tokens (t1 ∷ t2 ∷ t3 ∷ t4 ∷ t5 ∷ []) = do
    minutes ← parse_field minute_spec unusual t1
    hours ← parse_field hour_spec unusual t2
    days_of_month ← parse_field day_of_month_spec unusual t3
    months ← parse_field month_spec unusual t4
    days_of_week ← parse_field day_of_week_spec unusual t5
    ok (record {
      minutes = minutes;
      hours = hours;
      days_of_month = days_of_month;
      months = months;
      days_of_week = days_of_week;
    })
  parse_tokens tokens = err (not_five_fields (length tokens))

  unfoldable pub parse_cron_expression : Text → Result CronError CronFields
  unfolding parse_tokens trim split_spaces
  parse_cron_expression [] = err empty_expression
  parse_cron_expression (c ∷ cs) = parse_tokens (split_spaces (trim (c ∷ cs)))
