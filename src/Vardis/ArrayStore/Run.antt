-- ===== src/Vardis/ArrayStore/Run.antt =====
-- Sequences of operations of the variable store.
use mathlib.Core.Path.{ap₂}
use dcp_vardis.Prelude.{arith, ℕ, ◌<◌, ◌≡◌, refl, ap, ◌∙◌, List, [], ◌∷◌}
use dcp_vardis.Prelude.Effect.{Error, Outcome, ok, throw, state}
use dcp_vardis.Vardis.Types.{VarValueT, StringT}
use dcp_vardis.Vardis.Store
use dcp_vardis.Vardis.Store.{DbEntry}
use dcp_vardis.Vardis.ArrayStore
use dcp_vardis.Vardis.ArrayStore.{ArrayContents, number_identifiers}
use dcp_vardis.Vardis.ArrayStore.Valid.{view, observe, IsValid}
use dcp_vardis.Vardis.ArrayStore.Refine.{
  set_db_entry_refines, get_db_entry_refines, modify_db_entry_refines, update_value_refines,
  read_value_refines, update_description_refines, read_description_refines,
}
use dcp_vardis.Vardis.ArrayStore.Allocate.{allocate_identifier-Allocated}
use dcp_vardis.Vardis.ArrayStore.Deallocate.{deallocate_identifier-Deallocated}
use dcp_vardis.Vardis.ArrayStore.Kept.{
  set_db_entry-IsValid, modify_db_entry-IsValid, update_value-IsValid, update_description-IsValid,
}

-- An operation on the variable of an identifier.
pub data Op : Type 0 where
  allocate deallocate get_entry read_the_value read_the_description : Op
  set_entry : DbEntry → Op
  modify_entry : (DbEntry → DbEntry) → Op
  write_value : VarValueT → Op
  write_description : StringT → Op

-- What an operation returns.
pub data Result : Type 0 where
  nothing : Result
  entry : DbEntry → Result
  value : VarValueT → Result
  description : StringT → Result
  failed : Error → Result

abbrev pub result : {S A : Type 0} → (A → Result) → Outcome S A → Result × S
result f (ok a s) = (f a, s)
result f (throw e s) = (failed e, s)

-- One operation of the array store, and of the store with one slot for each identifier.
unfoldable pub step : ℕ → Op → ArrayContents → Result × ArrayContents
step v allocate c = result (λ _. nothing) (ArrayStore.allocate_identifier v c)
step v deallocate c = result (λ _. nothing) (ArrayStore.deallocate_identifier v c)
step v get_entry c = result entry (ArrayStore.get_db_entry v c)
step v read_the_value c = result value (ArrayStore.read_value v c)
step v read_the_description c = result description (ArrayStore.read_description v c)
step v (set_entry e) c = result (λ _. nothing) (ArrayStore.set_db_entry v e c)
step v (modify_entry f) c = result (λ _. nothing) (ArrayStore.modify_db_entry v f c)
step v (write_value x) c = result (λ _. nothing) (ArrayStore.update_value v x c)
step v (write_description x) c = result (λ _. nothing) (ArrayStore.update_description v x c)

unfoldable pub slot_step : ℕ → Op → Store.Store → Result × Store.Store
slot_step v allocate s = result (λ _. nothing) (Store.allocate_identifier v s)
slot_step v deallocate s = result (λ _. nothing) (Store.deallocate_identifier v s)
slot_step v get_entry s = result entry (Store.get_db_entry v s)
slot_step v read_the_value s = result value (Store.read_value v s)
slot_step v read_the_description s = result description (Store.read_description v s)
slot_step v (set_entry e) s = result (λ _. nothing) (Store.set_db_entry v e s)
slot_step v (modify_entry f) s = result (λ _. nothing) (Store.modify_db_entry v f s)
slot_step v (write_value x) s = result (λ _. nothing) (Store.update_value v x s)
slot_step v (write_description x) s = result (λ _. nothing) (Store.update_description v x s)

-- An identifier below 256, as a byte is, with an operation on it.
pub record Call : Type 0 where
  pub var_id : ℕ
  pub small : var_id < number_identifiers
  pub op : Op

-- The results of a sequence of operations; the next one follows also after an exception.
unfoldable pub run : List Call → ArrayContents → List Result
run [] c = []
run (k ∷ ks) c = let (r, c') = step k.var_id k.op c in r ∷ run ks c'

unfoldable pub slot_run : List Call → Store.Store → List Result
slot_run [] s = []
slot_run (k ∷ ks) s = let (r, s') = slot_step k.var_id k.op s in r ∷ slot_run ks s'

-- A result with the array contents that it leaves agrees with one of the other store.
record Agree (p : Result × ArrayContents) (q : Result × Store.Store) : Type 0 where
  same : (p.0, view p.1) ≡ q
  valid : IsValid p.1

result-Agree :
    {A : Type 0} (f : A → Result) (o : Outcome ArrayContents A) (q : Outcome Store.Store A)
    → observe o ≡ q
    → IsValid (state o)
    → Agree (result f o) (result f q)
result-Agree f (ok a c) q e h = record { same = ap (result f) e; valid = h }
result-Agree f (throw x c) q e h = record { same = ap (result f) e; valid = h }

get_db_entry-same : (v : ℕ) (c : ArrayContents) → state (ArrayStore.get_db_entry v c) ≡ c
unfolding ArrayStore.get_db_entry
get_db_entry-same v c = ground arith

read_value-same : (v : ℕ) (c : ArrayContents) → state (ArrayStore.read_value v c) ≡ c
unfolding ArrayStore.read_value
read_value-same v c = ground arith

read_description-same : (v : ℕ) (c : ArrayContents) → state (ArrayStore.read_description v c) ≡ c
unfolding ArrayStore.read_description
read_description-same v c = ground arith

step-Agree :
    (v : ℕ) (op : Op) (c : ArrayContents)
    → v < number_identifiers
    → IsValid c
    → Agree (step v op c) (slot_step v op (view c))
unfolding step slot_step
step-Agree v allocate c small h =
    let a = allocate_identifier-Allocated c v h small in
    result-Agree (λ _. nothing) _ _ a.same a.valid
step-Agree v deallocate c small h =
    let a = deallocate_identifier-Deallocated c v h small in
    result-Agree (λ _. nothing) _ _ a.same a.valid
step-Agree v get_entry c small h =
    result-Agree entry _ _ (get_db_entry_refines c v) (rw (get_db_entry-same v c) h)
step-Agree v read_the_value c small h =
    result-Agree value _ _ (read_value_refines c v) (rw (read_value-same v c) h)
step-Agree v read_the_description c small h =
    result-Agree description _ _ (read_description_refines c v) (rw (read_description-same v c) h)
step-Agree v (set_entry e) c small h =
    result-Agree (λ _. nothing) _ _ (set_db_entry_refines c v e)
      (set_db_entry-IsValid c v h small e)
step-Agree v (modify_entry f) c small h =
    result-Agree (λ _. nothing) _ _ (modify_db_entry_refines c v f)
      (modify_db_entry-IsValid c v h small f)
step-Agree v (write_value x) c small h =
    result-Agree (λ _. nothing) _ _ (update_value_refines c v x h)
      (update_value-IsValid c v h small x)
step-Agree v (write_description x) c small h =
    result-Agree (λ _. nothing) _ _ (update_description_refines c v x h)
      (update_description-IsValid c v h small x)

-- No sequence of operations, on identifiers of one byte, tells the valid array store from the store
-- with one slot for each identifier that it stands for.
pub slot_run_refines :
    (ks : List Call) (c : ArrayContents) → IsValid c → run ks c ≡ slot_run ks (view c)
unfolding run slot_run
slot_run_refines [] c h = refl
slot_run_refines (k ∷ ks) c h =
    let a = step-Agree k.var_id k.op c k.small h in
    ap₂ ◌∷◌ (ap (λ p. p.0) a.same)
      (slot_run_refines ks (step k.var_id k.op c).1 a.valid ∙ ap (λ p. slot_run ks p.1) a.same)
