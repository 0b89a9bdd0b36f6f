-- ===== src/Scheduler/Workflows/Inserted.antt =====
-- What the insertion of a list of edges adds to the tables.
use Prim.Native.String.{String}
use mathlib.Core.List.{append_assoc, append-nil}
use task_orchestrator_engine.Prelude.{
  every, ℕ, suc, ◌≤◌, ◌≡◌, refl, ap, sym, ◌∙◌, Bool, true, false, not, ◌&&◌, Option, none, some,
  List, [], ◌∷◌, ◌++◌, map, keep, any_of, ◌==◌, arith, if◌then◌else◌, Result, ok, err, ◌>>=◌,
  ==_refl,
}
use task_orchestrator_engine.Types.{Edge}
use task_orchestrator_engine.Scheduler.Tables.{Database, has_task, DbError, foreign_key, unique_key}
use task_orchestrator_engine.Scheduler.TaskStates.{text_or_null}
use task_orchestrator_engine.Scheduler.Workflows.{same_edge, drawn_edge, insert_edges, read_edge}

text_or_null_twice : (t : Option String) → text_or_null (text_or_null t) ≡ text_or_null t
text_or_null_twice none = refl
text_or_null_twice (some String.[]) = refl
text_or_null_twice (some (String.◌∷◌ c s)) = refl

-- The rows that a list of edges adds: of the workflow, with no empty condition, and nothing else.
pub record Added (w : ℕ) (db : Database) (rows : List Edge) (db' : Database) : Type 0 where
  pub edges_lem : db'.edges ≡ db.edges ++ rows
  pub workflows_lem : db'.workflows ≡ db.workflows
  pub tasks_lem : db'.task_definitions ≡ db.task_definitions
  pub own : keep (λ e. e.workflow_id == w) rows ≡ rows
  pub read : map read_edge rows ≡ rows
  pub owned : every (λ e. e.workflow_id == w) rows ≡ true
  pub later : db.next_id ≤ db'.next_id

pub data IsStored (w : ℕ) (db : Database) : Result DbError (List Edge × Database) → Type 0 where
  refused : {e : DbError} → IsStored w db (err e)
  stored :
      {rows : List Edge} {db' : Database} → Added w db rows db' → IsStored w db (ok (rows, db'))

module _ (w : ℕ) where
  after_edge : Edge → Database → Database
  after_edge edge db = record db {
    edges = db.edges ++ drawn_edge w db.next_id edge ∷ [];
    next_id = suc db.next_id;
  }

  none-Added : (db : Database) → Added w db [] db
  none-Added db = record {
    edges_lem = sym (append-nil db.edges);
    workflows_lem = refl;
    tasks_lem = refl;
    own = refl;
    read = refl;
    owned = refl;
    later = omega arith;
  }

  one_more :
      (edge : Edge) (db : Database) {rows : List Edge} {db' : Database}
      → Added w (after_edge edge db) rows db'
      → Added w db (drawn_edge w db.next_id edge ∷ rows) db'
  unfolding after_edge
  one_more edge db {rows} {db'} a = record {
    edges_lem = a.edges_lem ∙ append_assoc db.edges (drawn_edge w db.next_id edge ∷ []) rows;
    workflows_lem = a.workflows_lem;
    tasks_lem = a.tasks_lem;
    own = rw (==_refl w) (ap (λ l. drawn_edge w db.next_id edge ∷ l) a.own);
    read = λ i.
        (record edge {
          id = db.next_id;
          workflow_id = w;
          condition_expr = text_or_null_twice edge.condition_expr i;
        })
        ∷ a.read i;
    owned = rw (==_refl w) a.owned;
    later = omega (arith, a.later);
  }

  abbrev tests : Bool → Bool → Edge → Database → Result DbError (Edge × Database)
  tests b c edge db = if b then err foreign_key else if c then err unique_key else ok (edge, db)

  abbrev with_first :
      Edge → Result DbError (List Edge × Database) → Result DbError (List Edge × Database)
  with_first edge r = do (rows, db) ← r; ok (edge ∷ rows, db)

  -- The insertion of one edge, by its two tests, and of the others behind it.
  abbrev chained :
      Bool
      → Bool
      → Edge
      → Database
      → (Database → Result DbError (List Edge × Database))
      → Result DbError (List Edge × Database)
  chained b c edge db others = do
    (row, db1) ← tests b c edge db
    (rows, db2) ← others db1
    ok (row ∷ rows, db2)

  pub insert_edges-IsStored :
      (edges : List Edge) (db : Database) → IsStored w db (insert_edges w edges db)
  unfolding insert_edges after_edge
  insert_edges-IsStored [] db = stored (none-Added db)
  insert_edges-IsStored (edge ∷ edges) db =
      tested
        (not (
          has_task edge.source_task_id db.task_definitions
          && has_task edge.target_task_id db.task_definitions))
        (any_of (λ row. same_edge w edge row) db.edges)
        (insert_edges-IsStored edges (after_edge edge db))
    where
      over :
          {r : Result DbError (List Edge × Database)}
          → IsStored w (after_edge edge db) r
          → IsStored w db (with_first (drawn_edge w db.next_id edge) r)
      over refused = refused
      over (stored a) = stored (one_more edge db a)

      tested :
          (b c : Bool)
          → IsStored w (after_edge edge db) (insert_edges w edges (after_edge edge db))
          → IsStored w db (
              chained b c
                (drawn_edge w db.next_id edge)
                (after_edge edge db)
                (λ d. insert_edges w edges d))
      tested true c h = refused
      tested false true h = refused
      tested false false h = over h
