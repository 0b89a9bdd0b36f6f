-- ===== src/Scheduler/Json.antt =====
-- A document of JSON as `req.body` holds it, and what the code asks of a value. A number is whole,
-- with its sign; an object has each key once.
use Prim.Native.String.{String}
use Prim.Native.Char.{code}
use task_orchestrator_engine.Prelude.{
  ℕ, Bool, true, false, not, ◌&&◌, List, [], ◌∷◌, ◌==◌, same_text, if◌then◌else◌,
}
use task_orchestrator_engine.Cron.Text.{is_space}

mutual
  pub data JsonValue : Type 0 where
    undefined : JsonValue
    null : JsonValue
    boolean : Bool → JsonValue
    number : (negative : Bool) → ℕ → JsonValue
    text : String → JsonValue
    array : Items → JsonValue
    object : Fields → JsonValue

  pub data Items : Type 0 where
    nothing : Items
    item : JsonValue → Items → Items

  pub data Fields : Type 0 where
    end : Fields
    field : String → JsonValue → Fields → Fields

abbrev pub lookup : String → Fields → JsonValue
lookup key end = undefined
lookup key (field k v fields) = if same_text k key then v else lookup key fields

-- `value[key]`, for a value that is neither `undefined` nor `null`.
abbrev pub property : String → JsonValue → JsonValue
property key (object fields) = lookup key fields
property key _ = undefined

-- `!!value`
abbrev pub is_truthy : JsonValue → Bool
is_truthy undefined = false
is_truthy null = false
is_truthy (boolean b) = b
is_truthy (number negative n) = not (n == 0)
is_truthy (text s) = not (same_text s "")
is_truthy (array _) = true
is_truthy (object _) = true

-- `typeof value === 'object'`, which holds of `null` too.
abbrev pub is_object : JsonValue → Bool
is_object null = true
is_object (array _) = true
is_object (object _) = true
is_object _ = false

abbrev pub is_text : JsonValue → Bool
is_text (text _) = true
is_text _ = false

-- `value.trim().length === 0`
abbrev pub all_spaces : String → Bool
all_spaces String.[] = true
all_spaces (String.◌∷◌ c s) = is_space (code c) && all_spaces s

abbrev pub is_blank : JsonValue → Bool
is_blank (text s) = all_spaces s
is_blank _ = false

abbrev pub is_undefined : JsonValue → Bool
is_undefined undefined = true
is_undefined _ = false

-- `typeof value === 'number' && !(value <= 0)`
abbrev pub is_positive : JsonValue → Bool
is_positive (number negative n) = not negative && not (n == 0)
is_positive _ = false

abbrev pub values : Items → List JsonValue
values nothing = []
values (item v items) = v ∷ values items
