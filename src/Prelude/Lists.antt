-- ===== src/Prelude/Lists.antt =====
-- Lists measured by native numbers, membership as a Boolean test, and maps as functions.
use Prim.Native.Nat.{ℕ, suc, ◌+◌, ◌≤◌}
use mathlib.Core.Path.{◌≡◌, refl, ap}
use mathlib.Core.Logic.{◌⊎◌, inl, inr}
use mathlib.Core.Bool.{Bool, true, false, ◌||◌, ◌&&◌}
use mathlib.Core.List.{List, [], ◌∷◌, ◌++◌, map, reverse, reverse-append}
use native.Mathlib.Omega.{arith}
use task_orchestrator_engine.Prelude.Tests.{◌==◌, if◌then◌else◌, ==_iff}

module _ {ℓ} {A : Type ℓ} where
  abbrev pub length : List A → ℕ
  length [] = 0
  length (x ∷ xs) = suc (length xs)

  pub length-append : (xs ys : List A) → length (xs ++ ys) ≡ length xs + length ys
  length-append [] ys = omega arith
  length-append (x ∷ xs) ys = omega (arith, length-append xs ys)

  pub List-cases : (xs : List A) → (xs ≡ []) ⊎ ((x : A) × (rest : List A) × (xs ≡ x ∷ rest))
  List-cases [] = inl refl
  List-cases (x ∷ xs) = inr (x, xs, refl)

  -- `xs.filter(test)`, `xs.every(test)` and `xs.some(test)`.
  abbrev pub keep : (A → Bool) → List A → List A
  keep test [] = []
  keep test (x ∷ xs) = if test x then x ∷ keep test xs else keep test xs

  abbrev pub every : (A → Bool) → List A → Bool
  every test [] = true
  every test (x ∷ xs) = test x && every test xs

  abbrev pub any_of : (A → Bool) → List A → Bool
  any_of test [] = false
  any_of test (x ∷ xs) = test x || any_of test xs

pub length-map {ℓ κ} :
    {A : Type ℓ} {B : Type κ} (f : A → B) (xs : List A) → length (map f xs) ≡ length xs
length-map f [] = refl
length-map f (x ∷ xs) = ap suc (length-map f xs)

-- `new Set(xs).has(a)`, `xs.includes(a)`.
abbrev pub elem : ℕ → List ℕ → Bool
elem a [] = false
elem a (x ∷ xs) = a == x || elem a xs

pub elem-append : (a : ℕ) (xs ys : List ℕ) → elem a (xs ++ ys) ≡ (elem a xs || elem a ys)
elem-append a [] ys = refl
elem-append a (x ∷ xs) ys = ground (arith, elem-append a xs ys)

pub elem-concat : (a x : ℕ) (xs : List ℕ) → elem a (xs ++ x ∷ []) ≡ (elem a xs || a == x)
elem-concat a x [] = ground arith
elem-concat a x (y ∷ xs) = ground (arith, elem-concat a x xs)

pub reverse-concat {ℓ} :
    {A : Type ℓ} (x : A) (xs : List A) → reverse (xs ++ x ∷ []) ≡ x ∷ reverse xs
reverse-concat x xs = reverse-append xs (x ∷ [])

-- A map from identifiers as a function; `put` is `map.set(k, v)`.
abbrev pub put {ℓ} : {A : Type ℓ} → (ℕ → A) → ℕ → A → ℕ → A
put f k v x = if x == k then v else f x

pub elem-reverse : (a : ℕ) (xs : List ℕ) → elem a (reverse xs) ≡ elem a xs
elem-reverse a [] = refl
elem-reverse a (x ∷ xs) =
    rw (reverse-append (x ∷ []) xs)
      (ground (arith, elem-concat a x (reverse xs), elem-reverse a xs))

same_test : (test : ℕ → Bool) (a b : ℕ) → (a == b) ≡ true → test a ≡ test b
same_test test a b h = ap test ((==_iff a b).0 h)

pub elem-keep :
    (test : ℕ → Bool) (a : ℕ) (xs : List ℕ) → elem a (keep test xs) ≡ (test a && elem a xs)
elem-keep test a [] = ground arith
elem-keep test a (x ∷ xs) = ground (arith, same_test test a x, elem-keep test a xs)

pub length-keep-le {ℓ} :
    {A : Type ℓ} (test : A → Bool) (xs : List A) → length (keep test xs) ≤ length xs
length-keep-le test [] = omega arith
length-keep-le test (x ∷ xs) = ground (arith, length-keep-le test xs)
