-- ===== src/Cron/Field/Values.antt =====
-- The sets of values that `parseField` collects: membership, bounds and order.
use native.Mathlib.Nat.{mod-eq_of_lt, mod-eq-sub-mod}
use task_orchestrator_engine.Prelude.{
  ℕ, zero, suc, ◌+◌, ◌-◌, ◌%◌, ◌≤◌, ◌<◌, ◌≡◌, refl, Bool, true, false, ◌&&◌, ◌||◌, List, [], ◌∷◌,
  elem, every, ltb, leb, ◌==◌, arith, ap, ◌∙◌,
}
use task_orchestrator_engine.Cron.Field.{add, add_steps, add_range, insert_sorted, sort}

-- `v` is `start`, `start + step`, ... up to `end`.
abbrev pub hits : ℕ → ℕ → ℕ → ℕ → Bool
hits start end step v = leb start v && (leb v end && (v - start) % step == 0)

abbrev pub IsDistinct : List ℕ → Type 0
IsDistinct [] = Unit
IsDistinct (x ∷ xs) = (elem x xs ≡ false) × IsDistinct xs

abbrev pub IsSorted : List ℕ → Type 0
IsSorted [] = Unit
IsSorted (x ∷ xs) = (every (ltb x) xs ≡ true) × IsSorted xs

module _ (i step v : ℕ) where
  mod_later : i + step ≤ v → (v - i) % step ≡ (v - (i + step)) % step
  mod_later h =
      let less : v - i - step ≡ v - (i + step) = omega arith in
      rw (mod-eq-sub-mod {n = v - i} {m = step} (omega arith)) (ap (λ (n : ℕ). n % step) less)

  mod_near : i ≤ v → v < i + step → (v - i) % step ≡ v - i
  mod_near p h = mod-eq_of_lt {n = v - i} {m = step} (omega arith)

hits_step :
    (i end step v : ℕ)
    → 0 < step
    → hits i end step v ≡ (leb i end && (v == i || hits (i + step) end step v))
hits_step i end step v p = ground (arith, mod_later i step v, mod_near i step v)

elem-add_steps :
    (rounds i end step : ℕ) (vs : List ℕ) (v : ℕ)
    → 0 < step
    → end < i + rounds
    → elem v (add_steps rounds i end step vs) ≡ (elem v vs || hits i end step v)
unfolding add_steps
elem-add_steps zero i end step vs v p h = ground arith
elem-add_steps (suc rounds) i end step vs v p h = ground (
  arith,
  hits_step i end step v p,
  elem-add_steps rounds (i + step) end step (add i vs) v p (omega arith),
)

pub elem-add_range :
    (start end step : ℕ) (vs : List ℕ) (v : ℕ)
    → 0 < step
    → elem v (add_range start end step vs) ≡ (elem v vs || hits start end step v)
unfolding add_range
elem-add_range start end step vs v p =
    elem-add_steps (end + 1 - start) start end step vs v p (omega arith)

add_steps-IsDistinct :
    (rounds i end step : ℕ) (vs : List ℕ)
    → IsDistinct vs
    → IsDistinct (add_steps rounds i end step vs)
unfolding add_steps
add_steps-IsDistinct zero i end step vs d = d
add_steps-IsDistinct (suc rounds) i end step vs d =
    ground (arith, add_steps-IsDistinct rounds (i + step) end step (add i vs) (ground arith))

pub add_range-IsDistinct :
    (start end step : ℕ) (vs : List ℕ) → IsDistinct vs → IsDistinct (add_range start end step vs)
unfolding add_range
add_range-IsDistinct start end step vs d =
    add_steps-IsDistinct (end + 1 - start) start end step vs d

elem-insert_sorted :
    (v : ℕ) (xs : List ℕ) (a : ℕ) → elem a (insert_sorted v xs) ≡ (a == v || elem a xs)
unfolding insert_sorted
elem-insert_sorted v [] a = refl
elem-insert_sorted v (x ∷ xs) a = ground (arith, elem-insert_sorted v xs a)

pub elem-sort : (vs : List ℕ) (a : ℕ) → elem a (sort vs) ≡ elem a vs
unfolding sort
elem-sort [] a = refl
elem-sort (v ∷ vs) a = ground (arith, elem-insert_sorted v (sort vs) a, elem-sort vs a)

every_above : (v x : ℕ) (xs : List ℕ) → v < x → every (ltb x) xs ≡ true → every (ltb v) xs ≡ true
every_above v x [] l h = refl
every_above v x (y ∷ ys) l h = ground (arith, every_above v x ys l)

every_insert :
    (x v : ℕ) (xs : List ℕ)
    → x < v
    → every (ltb x) xs ≡ true
    → every (ltb x) (insert_sorted v xs) ≡ true
unfolding insert_sorted
every_insert x v [] l h = ground arith
every_insert x v (y ∷ ys) l h = ground (arith, every_insert x v ys l)

insert_sorted-IsSorted :
    (v : ℕ) (xs : List ℕ) → elem v xs ≡ false → IsSorted xs → IsSorted (insert_sorted v xs)
unfolding insert_sorted
insert_sorted-IsSorted v [] f s = ground arith
insert_sorted-IsSorted v (x ∷ xs) f s =
    ground (arith, every_above v x xs, every_insert x v xs, insert_sorted-IsSorted v xs)

pub sort-IsSorted : (vs : List ℕ) → IsDistinct vs → IsSorted (sort vs)
unfolding sort
sort-IsSorted [] d = d
sort-IsSorted (v ∷ vs) d =
    insert_sorted-IsSorted v (sort vs) (elem-sort vs v ∙ d.0) (sort-IsSorted vs d.1)
