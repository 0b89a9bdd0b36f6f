-- ===== src/Prelude/Sorted.antt =====
-- Lists in order, and insertion sort.
use mathlib.Core.List.{List, [], ◌∷◌, Permᴰ}
use mathlib.Core.List.Permᴰ
use mathlib.Core.Path.{◌≡◌, refl}
use mathlib.Core.Logic.{inl, inr}
use mathlib.Core.Bool.{Bool, true, false}
use task_orchestrator_engine.Prelude.Tests.{if◌then◌else◌, Bool-cases}
use task_orchestrator_engine.Prelude.Lists.{keep}

abbrev pub insert_ordered {ℓ} : {A : Type ℓ} → (A → A → Bool) → A → List A → List A
insert_ordered first x [] = x ∷ []
insert_ordered first x (y ∷ ys) = if first x y then x ∷ y ∷ ys else y ∷ insert_ordered first x ys

abbrev pub sort_ordered {ℓ} : {A : Type ℓ} → (A → A → Bool) → List A → List A
sort_ordered first [] = []
sort_ordered first (x ∷ xs) = insert_ordered first x (sort_ordered first xs)

abbrev pub Precedes {ℓ} : {A : Type ℓ} → (A → A → Type 0) → A → List A → Type 0
Precedes R x [] = Unit
Precedes R x (y ∷ ys) = R x y × Precedes R x ys

-- Every element precedes all behind it.
abbrev pub IsOrdered {ℓ} : {A : Type ℓ} → (A → A → Type 0) → List A → Type 0
IsOrdered R [] = Unit
IsOrdered R (x ∷ xs) = Precedes R x xs × IsOrdered R xs

module _ {ℓ} {A : Type ℓ} (R : A → A → Type 0) where
  keep-Precedes :
      (test : A → Bool) (x : A) (ys : List A) → Precedes R x ys → Precedes R x (keep test ys)
  keep-Precedes test x [] h = h
  keep-Precedes test x (y ∷ ys) (l, h) = elim (Bool-cases (test y)) [
    | inl t ↦ rw t (l, keep-Precedes test x ys h)
    | inr f ↦ rw f (keep-Precedes test x ys h)
  ]

  pub keep-IsOrdered : (test : A → Bool) (xs : List A) → IsOrdered R xs → IsOrdered R (keep test xs)
  keep-IsOrdered test [] h = h
  keep-IsOrdered test (x ∷ xs) (p, h) = elim (Bool-cases (test x)) [
    | inl t ↦ rw t (keep-Precedes test x xs p, keep-IsOrdered test xs h)
    | inr f ↦ rw f (keep-IsOrdered test xs h)
  ]

  module _ (first : A → A → Bool) (trans : (x y z : A) → R x y → R y z → R x z)
      (sound : (x y : A) → first x y ≡ true → R x y)
      (converse : (x y : A) → first x y ≡ false → R y x) where
    Precedes-trans : (x y : A) (zs : List A) → R x y → Precedes R y zs → Precedes R x zs
    Precedes-trans x y [] l h = h
    Precedes-trans x y (z ∷ zs) l (k, h) = (trans x y z l k, Precedes-trans x y zs l h)

    insert_ordered-Precedes :
        (x y : A) (zs : List A) → R x y → Precedes R x zs → Precedes R x (insert_ordered first y zs)
    insert_ordered-Precedes x y [] l h = (l, h)
    insert_ordered-Precedes x y (z ∷ zs) l (k, h) = elim (Bool-cases (first y z)) [
      | inl t ↦ rw t (l, (k, h))
      | inr f ↦ rw f (k, insert_ordered-Precedes x y zs l h)
    ]

    insert_ordered-IsOrdered :
        (x : A) (ys : List A) → IsOrdered R ys → IsOrdered R (insert_ordered first x ys)
    insert_ordered-IsOrdered x [] h = (_, _)
    insert_ordered-IsOrdered x (y ∷ ys) (p, h) = elim (Bool-cases (first x y)) [
      | inl t ↦ rw t ((sound x y t, Precedes-trans x y ys (sound x y t) p), (p, h))
      | inr f ↦
          rw f (insert_ordered-Precedes y x ys (converse x y f) p, insert_ordered-IsOrdered x ys h)
    ]

    pub sort_ordered-IsOrdered : (xs : List A) → IsOrdered R (sort_ordered first xs)
    sort_ordered-IsOrdered [] = _
    sort_ordered-IsOrdered (x ∷ xs) =
        insert_ordered-IsOrdered x (sort_ordered first xs) (sort_ordered-IsOrdered xs)

insert_ordered-perm {ℓ} :
    {A : Type ℓ} (first : A → A → Bool) (x : A) (ys : List A)
    → Permᴰ (insert_ordered first x ys) (x ∷ ys)
insert_ordered-perm first x [] = Permᴰ.refl (x ∷ [])
insert_ordered-perm first x (y ∷ ys) = elim (Bool-cases (first x y)) [
  | inl t ↦ rw t (Permᴰ.refl (x ∷ y ∷ ys))
  | inr f ↦
      rw f (Permᴰ.trans (Permᴰ.cons refl (insert_ordered-perm first x ys)) (Permᴰ.swap refl refl))
]

pub sort_ordered-perm {ℓ} :
    {A : Type ℓ} (first : A → A → Bool) (xs : List A) → Permᴰ (sort_ordered first xs) xs
sort_ordered-perm first [] = Permᴰ.refl []
sort_ordered-perm first (x ∷ xs) =
    Permᴰ.trans (insert_ordered-perm first x (sort_ordered first xs))
      (Permᴰ.cons refl (sort_ordered-perm first xs))
