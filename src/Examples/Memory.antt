-- ===== src/Examples/Memory.antt =====
-- A Redis server in memory: the two lists and the owners of the locks.
use task_orchestrator_engine.Prelude.{
  ℕ, ◌≡◌, refl, Bool, Option, none, List, ◌∷◌, ◌==◌, if◌then◌else◌,
}
use task_orchestrator_engine.Types.{Ident}
use task_orchestrator_engine.Redis.Server.{
  ListKey, task_queue, task_processing, same_list, remove_one, move_last, set_if_none, is_none,
  Server,
}

pub record Memory : Type 0 where
  pub queue : List Ident
  pub processing : List Ident
  pub owner : Ident → Option Ident

abbrev pub entries : Memory → ListKey → List Ident
entries m task_queue = m.queue
entries m task_processing = m.processing

abbrev pub lpush : ListKey → Ident → Memory → Memory
lpush task_queue v m = record m { queue = v ∷ m.queue }
lpush task_processing v m = record m { processing = v ∷ m.processing }

abbrev pub lrem : ListKey → Ident → Memory → Memory
lrem task_queue v m = record m { queue = remove_one v m.queue }
lrem task_processing v m = record m { processing = remove_one v m.processing }

abbrev pub brpoplpush : Memory → Option Ident × Memory
brpoplpush m =
    let (reply, queue, processing) = move_last m.queue m.processing in
    (reply, record { queue = queue; processing = processing; owner = m.owner })

abbrev pub set_nx : Ident → Ident → ℕ → Memory → Bool × Memory
set_nx x v ttl m = (
  is_none (m.owner x),
  record m { owner = λ y. if y == x then set_if_none (m.owner y) v else m.owner y },
)

abbrev pub pexpire : Ident → ℕ → Memory → ℕ × Memory
pexpire x ttl m = (if is_none (m.owner x) then 0 else 1, m)

abbrev pub del : Ident → Memory → ℕ × Memory
del x m = (
  if is_none (m.owner x) then 0 else 1,
  record m { owner = λ y. if y == x then none else m.owner y },
)

pub entries-lpush :
    (k j : ListKey) (v : Ident) (m : Memory)
    → entries (lpush k v m) j ≡ (if same_list j k then v ∷ entries m j else entries m j)
entries-lpush task_queue task_queue v m = refl
entries-lpush task_queue task_processing v m = refl
entries-lpush task_processing task_queue v m = refl
entries-lpush task_processing task_processing v m = refl

pub holder-lpush :
    (k j : ListKey) (v : Ident) (m : Memory) (x : Ident) → (lpush k v m).owner x ≡ m.owner x
holder-lpush task_queue j v m x = refl
holder-lpush task_processing j v m x = refl

pub entries-lrem :
    (k j : ListKey) (v : Ident) (m : Memory)
    → entries (lrem k v m) j ≡ (if same_list j k then remove_one v (entries m j) else entries m j)
entries-lrem task_queue task_queue v m = refl
entries-lrem task_queue task_processing v m = refl
entries-lrem task_processing task_queue v m = refl
entries-lrem task_processing task_processing v m = refl

pub holder-lrem :
    (k : ListKey) (v : Ident) (m : Memory) (x : Ident) → (lrem k v m).owner x ≡ m.owner x
holder-lrem task_queue v m x = refl
holder-lrem task_processing v m x = refl

pub entries-set_nx :
    (x v : Ident) (ttl : ℕ) (m : Memory) (k : ListKey)
    → entries (set_nx x v ttl m).1 k ≡ entries m k
entries-set_nx x v ttl m task_queue = refl
entries-set_nx x v ttl m task_processing = refl

pub entries-del : (x : Ident) (m : Memory) (k : ListKey) → entries (del x m).1 k ≡ entries m k
entries-del x m task_queue = refl
entries-del x m task_processing = refl

abbrev pub in_memory : Server
in_memory = record {
  Store = Memory;
  entries = entries;
  holder = λ m. m.owner;
  lpush = lpush;
  brpoplpush = brpoplpush;
  lrem = lrem;
  set_nx = set_nx;
  pexpire = pexpire;
  del = del;
  entries-lpush = entries-lpush;
  holder-lpush = λ k v m x. holder-lpush k k v m x;
  reply-brpoplpush = λ m. refl;
  queue-brpoplpush = λ m. refl;
  processing-brpoplpush = λ m. refl;
  holder-brpoplpush = λ m x. refl;
  entries-lrem = entries-lrem;
  holder-lrem = holder-lrem;
  reply-set_nx = λ x v ttl m. refl;
  holder-set_nx = λ x v y ttl m. refl;
  entries-set_nx = entries-set_nx;
  reply-pexpire = λ x ttl m. refl;
  holder-pexpire = λ x ttl m y. refl;
  entries-pexpire = λ x ttl m k. refl;
  reply-del = λ x m. refl;
  holder-del = λ x m y. refl;
  entries-del = entries-del;
}
