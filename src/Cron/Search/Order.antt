-- ===== src/Cron/Search/Order.antt =====
-- The order of moments, their numbering, and what `findNextOrEqual` finds.
use task_orchestrator_engine.Prelude.{
  ℕ, ◌+◌, ◌*◌, ◌≤◌, ◌<◌, ◌≡◌, inl, inr, refl, Bool, true, Option, none, some, List, [], ◌∷◌, elem,
  every, keep, ltb, leb, arith, Bool-cases,
}
use task_orchestrator_engine.Cron.Field.Values.{IsSorted}
use task_orchestrator_engine.Cron.Calendar.{Moment}
use task_orchestrator_engine.Cron.Search.{find_next_or_equal, first_of}

unfoldable pub code : Moment → ℕ
code t = t.year * 634400 + t.month * 48800 + t.day * 1525 + t.hour * 61 + t.minute

-- The bounds that the loop keeps: an hour may be 24 until the next round.
abbrev pub IsInRange : Moment → Type 0
IsInRange t =
    (1 ≤ t.month) × (t.month ≤ 12) × (1 ≤ t.day) × (t.day ≤ 31) × (t.hour ≤ 24) × (t.minute ≤ 59)

-- The least value from `current` on, or none when there is no such value.
abbrev pub IsNext : List ℕ → ℕ → Option ℕ → Type 0
IsNext vs current none = (v : ℕ) → elem v vs ≡ true → v < current
IsNext vs current (some n) =
    (elem n vs ≡ true) × (current ≤ n) × ((v : ℕ) → elem v vs ≡ true → current ≤ v → n ≤ v)

above : (x v : ℕ) (xs : List ℕ) → every (ltb x) xs ≡ true → elem v xs ≡ true → x < v
above x v [] h e = cc
above x v (y ∷ ys) h e = ground (arith, above x v ys)

pub first_least : (vs : List ℕ) (v : ℕ) → IsSorted vs → elem v vs ≡ true → first_of vs ≤ v
first_least [] v s e = cc
first_least (x ∷ xs) v s e = ground (arith, above x v xs s.0)

found-IsLater :
    (x : ℕ) (xs : List ℕ) (current : ℕ) (o : Option ℕ)
    → x < current
    → IsNext xs current o
    → IsNext (x ∷ xs) current o
found-IsLater x xs current none l h = λ v e. ground (arith, h v)
found-IsLater x xs current (some n) l h = (ground (arith, h.0), h.1, λ v e k. ground (arith, h.2 v))

pub find_next_or_equal-IsNext :
    (vs : List ℕ) (current : ℕ) → IsSorted vs → IsNext vs current (find_next_or_equal vs current)
unfolding find_next_or_equal
find_next_or_equal-IsNext [] current s = λ v e. cc
find_next_or_equal-IsNext (x ∷ xs) current s = elim (Bool-cases (leb current x)) [
  | inl h ↦ rw h (ground arith, ground arith, λ v e k. ground (arith, above x v xs s.0))
  | inr h ↦ rw h (
      found-IsLater x xs current (find_next_or_equal xs current) (ground arith)
        (find_next_or_equal-IsNext xs current s.1))
]

keep_above :
    (test : ℕ → Bool) (x : ℕ) (xs : List ℕ)
    → every (ltb x) xs ≡ true
    → every (ltb x) (keep test xs) ≡ true
keep_above test x [] h = refl
keep_above test x (y ∷ ys) h = ground (arith, keep_above test x ys)

pub keep-IsSorted : (test : ℕ → Bool) (xs : List ℕ) → IsSorted xs → IsSorted (keep test xs)
keep-IsSorted test [] s = s
keep-IsSorted test (x ∷ xs) s = ground (arith, keep_above test x xs s.0, keep-IsSorted test xs s.1)
