-- ===== src/Workflow/Storage/Rows.antt =====
-- The rows that a save of workflow/storage.py leaves, and the entries of its sorted dictionaries.
use deterministic_cognition.Prelude.{
  String, ◌==◌, ◌≡◌, refl, ◌∙◌, ap, false, some, List, [], ◌∷◌, Dict, get, find, str_leb_refl,
  eq_iff, arith, if◌then◌else◌,
}
use deterministic_cognition.Workflow.State.{WorkflowExecution}
use deterministic_cognition.Workflow.Storage.{
  Db, insort_item, sort_items, row_of, update_row, upsert, save_execution, load_execution,
}

get-insort_item :
    {V : Type 0}
    → (x k : String) → (v : V) → (d : Dict V)
    → get x (insort_item k v d) ≡ (if x == k then some v else get x d)
unfolding get insort_item
get-insort_item x k v [] = refl
get-insort_item x k v ((j, w) ∷ d) =
    ground (arith, get-insort_item x k v d, eq_iff x k, eq_iff x j, eq_iff k j, str_leb_refl x)

-- sorting by the keys keeps what a key gives
pub get-sort_items : {V : Type 0} → (x : String) → (d : Dict V) → get x (sort_items d) ≡ get x d
unfolding get sort_items
get-sort_items x [] = refl
get-sort_items x ((k, v) ∷ d) =
    get-insort_item x k v (sort_items d)
    ∙ ap (λ o. if x == k then some v else o) (get-sort_items x d)

find-upsert_other :
    (j : String) (e : WorkflowExecution) (rows : List WorkflowExecution)
    → (j == e.execution_id) ≡ false
    → find (λ (r : WorkflowExecution). r.execution_id == j) (upsert (row_of e) rows)
      ≡ find (λ (r : WorkflowExecution). r.execution_id == j) rows
unfolding upsert row_of update_row
find-upsert_other j e [] h = ground (arith, eq_iff e.execution_id j, eq_iff j e.execution_id)
find-upsert_other j e (row ∷ rows) h = ground (
  arith,
  find-upsert_other j e rows h,
  eq_iff row.execution_id j,
  eq_iff row.execution_id e.execution_id,
  eq_iff j e.execution_id,
)

-- a save leaves the rows of other executions
pub load-save_other :
    (j : String) (e : WorkflowExecution) (db : Db)
    → (j == e.execution_id) ≡ false
    → load_execution j (save_execution e db) ≡ load_execution j db
unfolding load_execution save_execution
load-save_other j e db h = find-upsert_other j e db.executions h

find-id :
    (id : String) (rows : List WorkflowExecution) (r : WorkflowExecution)
    → find (λ (r : WorkflowExecution). r.execution_id == id) rows ≡ some r
    → r.execution_id ≡ id
find-id id [] r h = absurd (ground arith)
find-id id (row ∷ rows) r h = ground (arith, h, find-id id rows r, eq_iff row.execution_id id)

pub load_execution-id :
    (id : String) (db : Db) (r : WorkflowExecution)
    → load_execution id db ≡ some r
    → r.execution_id ≡ id
unfolding load_execution
load_execution-id id db r h = find-id id db.executions r h
