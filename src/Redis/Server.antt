-- ===== src/Redis/Server.antt =====
-- The commands that packages/shared/src/redis/ sends, and their documented effects.
use task_orchestrator_engine.Prelude.{
  ℕ, ◌≡◌, Bool, true, false, Option, none, some, List, [], ◌∷◌, ◌==◌, if◌then◌else◌,
}
use task_orchestrator_engine.Types.{Ident}

-- `task_queue`, `task_processing`.
pub data ListKey : Type 0 where
  task_queue task_processing : ListKey

abbrev pub same_list : ListKey → ListKey → Bool
same_list task_queue task_queue = true
same_list task_processing task_processing = true
same_list _ _ = false

-- The last entry of a list, and the entries in front of it.
abbrev pub split_last {ℓ} : {A : Type ℓ} → A → List A → List A × A
split_last x [] = ([], x)
split_last x (y ∷ ys) = let (front, end) = split_last y ys in (x ∷ front, end)

-- `LREM key 1 value`: the first entry that is equal to the value goes.
abbrev pub remove_one : Ident → List Ident → List Ident
remove_one a [] = []
remove_one a (x ∷ xs) = if a == x then xs else x ∷ remove_one a xs

-- A reply of `BRPOPLPUSH` and the two lists after it.
abbrev pub move_last : List Ident → List Ident → Option Ident × List Ident × List Ident
move_last [] to = (none, [], to)
move_last (x ∷ xs) to = let (front, end) = split_last x xs in (some end, front, end ∷ to)

abbrev pub set_if_none : Option Ident → Ident → Option Ident
set_if_none none v = some v
set_if_none (some o) v = some o

abbrev pub is_none {ℓ} : {A : Type ℓ} → Option A → Bool
is_none none = true
is_none (some _) = false

-- A server. `entries` is what `LRANGE key 0 -1` answers, `holder` what `GET` answers at the key of
-- a task's lock. Times to live are not kept: that a lock runs out is a step of the environment.
pub record Server : Type 1 where
  pub Store : Type 0
  pub entries : Store → ListKey → List Ident
  pub holder : Store → Ident → Option Ident
  pub lpush : ListKey → Ident → Store → Store
  pub brpoplpush : Store → Option Ident × Store
  pub lrem : ListKey → Ident → Store → Store
  pub set_nx : Ident → Ident → ℕ → Store → Bool × Store
  pub pexpire : Ident → ℕ → Store → ℕ × Store
  pub del : Ident → Store → ℕ × Store
  pub entries-lpush :
      (k j : ListKey) (v : Ident) (s : Store)
      → entries (lpush k v s) j ≡ (if same_list j k then v ∷ entries s j else entries s j)
  pub holder-lpush :
      (k : ListKey) (v : Ident) (s : Store) (x : Ident) → holder (lpush k v s) x ≡ holder s x
  pub reply-brpoplpush :
      (s : Store)
      → (brpoplpush s).0 ≡ (move_last (entries s task_queue) (entries s task_processing)).0
  pub queue-brpoplpush :
      (s : Store)
      → entries (brpoplpush s).1 task_queue
        ≡ (move_last (entries s task_queue) (entries s task_processing)).1
  pub processing-brpoplpush :
      (s : Store)
      → entries (brpoplpush s).1 task_processing
        ≡ (move_last (entries s task_queue) (entries s task_processing)).2
  pub holder-brpoplpush : (s : Store) (x : Ident) → holder (brpoplpush s).1 x ≡ holder s x
  pub entries-lrem :
      (k j : ListKey) (v : Ident) (s : Store)
      → entries (lrem k v s) j ≡ (if same_list j k then remove_one v (entries s j) else entries s j)
  pub holder-lrem :
      (k : ListKey) (v : Ident) (s : Store) (x : Ident) → holder (lrem k v s) x ≡ holder s x
  pub reply-set_nx :
      (x v : Ident) (ttl : ℕ) (s : Store) → (set_nx x v ttl s).0 ≡ is_none (holder s x)
  pub holder-set_nx :
      (x v y : Ident) (ttl : ℕ) (s : Store)
      → holder (set_nx x v ttl s).1 y ≡ (if y == x then set_if_none (holder s y) v else holder s y)
  pub entries-set_nx :
      (x v : Ident) (ttl : ℕ) (s : Store) (k : ListKey)
      → entries (set_nx x v ttl s).1 k ≡ entries s k
  pub reply-pexpire :
      (x : Ident) (ttl : ℕ) (s : Store)
      → (pexpire x ttl s).0 ≡ (if is_none (holder s x) then 0 else 1)
  pub holder-pexpire :
      (x : Ident) (ttl : ℕ) (s : Store) (y : Ident) → holder (pexpire x ttl s).1 y ≡ holder s y
  pub entries-pexpire :
      (x : Ident) (ttl : ℕ) (s : Store) (k : ListKey) → entries (pexpire x ttl s).1 k ≡ entries s k
  pub reply-del : (x : Ident) (s : Store) → (del x s).0 ≡ (if is_none (holder s x) then 0 else 1)
  pub holder-del :
      (x : Ident) (s : Store) (y : Ident)
      → holder (del x s).1 y ≡ (if y == x then none else holder s y)
  pub entries-del : (x : Ident) (s : Store) (k : ListKey) → entries (del x s).1 k ≡ entries s k
