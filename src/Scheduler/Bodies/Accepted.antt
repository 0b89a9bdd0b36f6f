-- ===== src/Scheduler/Bodies/Accepted.antt =====
-- Which bodies `validateWorkflowBody` of services/scheduler-api/src/controllers/workflow-controller.ts
-- accepts.
use task_orchestrator_engine.Prelude.{
  ◌≡◌, refl, Bool, true, false, not, ◌&&◌, ◌||◌, Option, none, some, List, [], ◌∷◌, every,
  if◌then◌else◌, Result, ok, err, ◌>>=◌, Ends, done, threw,
}
use task_orchestrator_engine.Scheduler.Json.{
  JsonValue, undefined, null, boolean, number, text, array, object, property, is_truthy, is_object,
  is_blank, is_undefined, is_positive,
}
use task_orchestrator_engine.Scheduler.Bodies.{
  Casts, BodyError, task_not_an_object, task_without_name, task_without_type, bad_timeout,
  not_an_object, no_name, no_trigger, bad_trigger_type, is_named, task_error, first_error, or_error,
  elements, is_trigger_type, edge_data, edges_data, check_rest, check_definitions, check_array,
  validate_workflow_body,
}

abbrev pub is_record : JsonValue → Bool
is_record v = is_truthy v && is_object v

abbrev pub is_task : JsonValue → Bool
is_task v =
    is_record v
    && (is_named (property "name" v)
        && (is_named (property "type" v)
            && (is_undefined (property "timeoutMs" v) || is_positive (property "timeoutMs" v))))

abbrev pub is_present : JsonValue → Bool
is_present undefined = false
is_present null = false
is_present _ = true

abbrev pub are_tasks : Option (List JsonValue) → Bool
are_tasks none = false
are_tasks (some []) = false
are_tasks (some (t ∷ ts)) = every is_task (t ∷ ts)

abbrev pub are_edges : Option (List JsonValue) → Bool
are_edges none = false
are_edges (some es) = every is_present es

abbrev pub is_trigger : JsonValue → Bool
is_trigger v = is_record v && is_trigger_type (property "type" v)

-- An object with a name that is not blank, at least one task, all well formed, an array of edges
-- without a `null`, and a trigger of a known type.
abbrev pub is_acceptable : JsonValue → Bool
is_acceptable body =
    is_record body
    && ((is_named (property "name" body) && not (is_blank (property "name" body)))
        && (are_tasks (elements (property "taskDefinitions" body))
            && (are_edges (elements (property "edges" body))
                && is_trigger (property "triggerConfig" body))))

-- Whether there is no error.
data Judges : Bool → Option BodyError → Type 0 where
  clean : Judges true none
  wrong : {e : BodyError} → Judges false (some e)

-- One check in front of the others.
Judges-check :
    (b : Bool) (e : BodyError) {c : Bool} {o : Option BodyError}
    → Judges c o
    → Judges (b && c) (if not b then some e else o)
Judges-check true e j = j
Judges-check false e j = wrong

Judges-or_else :
    {b c : Bool} {first later : Option BodyError}
    → Judges b first
    → Judges c later
    → Judges (b && c) (or_error first later)
Judges-or_else clean j = j
Judges-or_else wrong j = wrong

Judges-last : (b : Bool) (e : BodyError) → Judges b (if not b then some e else none)
Judges-last true e = clean
Judges-last false e = wrong

task_error-Judges : (v : JsonValue) → Judges (is_task v) (task_error v)
task_error-Judges v = Judges-check (is_record v) task_not_an_object (
    Judges-check (is_named (property "name" v)) task_without_name (
      Judges-check (is_named (property "type" v)) task_without_type (
        Judges-last (is_undefined (property "timeoutMs" v) || is_positive (property "timeoutMs" v))
          bad_timeout)))

first_error-Judges : (vs : List JsonValue) → Judges (every is_task vs) (first_error vs)
first_error-Judges [] = clean
first_error-Judges (v ∷ vs) = Judges-or_else (task_error-Judges v) (first_error-Judges vs)

-- A value exactly if the test holds.
abbrev pub Says {ℓ} : {A : Type ℓ} → Bool → Result BodyError A → Type ℓ
Says b r = Ends (λ _. b ≡ true) (λ _. b ≡ false) r

Says-check {ℓ} :
    {A : Type ℓ} (b : Bool) (e : BodyError) {c : Bool} {r : Result BodyError A}
    → Says c r
    → Says (b && c) (if not b then err e else r)
Says-check true e s = s
Says-check false e s = threw refl

-- The check of a name.
Says-name {ℓ} :
    {A : Type ℓ} (named blank : Bool) (e : BodyError) {c : Bool} {r : Result BodyError A}
    → Says c r
    → Says ((named && not blank) && c) (if not named || blank then err e else r)
Says-name true true e s = threw refl
Says-name true false e s = s
Says-name false blank e s = threw refl

-- Two checks in a row.
Says-both {ℓ} :
    {A : Type ℓ} (a b : Bool) (e f : BodyError) {c : Bool} {r : Result BodyError A}
    → Says c r
    → Says ((a && b) && c) (if not a then err e else if not b then err f else r)
Says-both true b e f s = Says-check b f s
Says-both false b e f s = threw refl

Says-swap {ℓ} :
    {A : Type ℓ} (b c : Bool) {r : Result BodyError A} → Says (b && c) r → Says (c && b) r
Says-swap true true s = s
Says-swap true false s = s
Says-swap false true s = s
Says-swap false false s = s

Says-bind {ℓ} :
    {A B : Type ℓ} {b c : Bool} {r : Result BodyError A} {f : A → Result BodyError B}
    → Says b r
    → ((a : A) → Says c (f a))
    → Says (b && c) (r >>= f)
Says-bind (done {a} h) k = rw h (k a)
Says-bind (threw h) k = threw (rw h refl)

Says-map {ℓ} :
    {A B : Type ℓ} (f : A → B) {b : Bool} {r : Result BodyError A}
    → Says b r
    → Says b (r >>= λ a. ok (f a))
Says-map f (done h) = done h
Says-map f (threw h) = threw h

module _ (casts : Casts) where
  edge_data-Says : (v : JsonValue) → Says (is_present v) (edge_data casts v)
  edge_data-Says undefined = threw refl
  edge_data-Says null = threw refl
  edge_data-Says (boolean b) = done refl
  edge_data-Says (number s n) = done refl
  edge_data-Says (text s) = done refl
  edge_data-Says (array items) = done refl
  edge_data-Says (object fields) = done refl

  edges_data-Says : (vs : List JsonValue) → Says (every is_present vs) (edges_data casts vs)
  unfolding edges_data
  edges_data-Says [] = done refl
  edges_data-Says (v ∷ vs) =
      Says-bind (edge_data-Says v) (λ first. Says-map (λ rest. first ∷ rest) (edges_data-Says vs))

  check_rest-Says :
      (body : JsonValue) (tasks : List JsonValue) (edges : Option (List JsonValue))
      → Says
          (are_edges edges && is_trigger (property "triggerConfig" body))
          (check_rest casts body tasks edges)
  unfolding check_rest
  check_rest-Says body tasks none = threw refl
  check_rest-Says body tasks (some edges) =
      let config = property "triggerConfig" body in
      Says-swap (is_trigger config) (every is_present edges) (
        Says-both (is_record config) (is_trigger_type (property "type" config)) no_trigger
          bad_trigger_type (Says-map _ (edges_data-Says edges)))

  check_definitions-Says :
      (body : JsonValue) (tasks : List JsonValue) {b : Bool} {o : Option BodyError}
      → Judges b o
      → Says
          (b
            && (are_edges (elements (property "edges" body))
                && is_trigger (property "triggerConfig" body)))
          (check_definitions casts body tasks o)
  unfolding check_definitions
  check_definitions-Says body tasks clean =
      check_rest-Says body tasks (elements (property "edges" body))
  check_definitions-Says body tasks wrong = threw refl

  check_array-Says :
      (body : JsonValue) (tasks : Option (List JsonValue))
      → Says
          (are_tasks tasks
            && (are_edges (elements (property "edges" body))
                && is_trigger (property "triggerConfig" body)))
          (check_array casts body tasks)
  unfolding check_array
  check_array-Says body none = threw refl
  check_array-Says body (some []) = threw refl
  check_array-Says body (some (t ∷ ts)) =
      check_definitions-Says body (t ∷ ts) (first_error-Judges (t ∷ ts))

  pub validate_workflow_body-Says :
      (body : JsonValue) → Says (is_acceptable body) (validate_workflow_body casts body)
  unfolding validate_workflow_body
  validate_workflow_body-Says body = Says-check (is_record body) not_an_object (
      Says-name (is_named (property "name" body)) (is_blank (property "name" body)) no_name
        (check_array-Says body (elements (property "taskDefinitions" body))))
