-- ===== src/Vardis/Receiver/Kept.antt =====
-- Whatever a payload holds, it leaves the protocol data well formed.
use dcp_vardis.Prelude.{ℕ, ◌+◌, ◌≡◌, refl, ◌⊎◌, inl, inr, false, List, [], ◌∷◌, Option, none, some}
use dcp_vardis.Prelude.Effect.{Outcome, Exec, Void, ok, throw, Succeeds, Succeeds-bind}
use dcp_vardis.Common.TimeStamp.{HostClock}
use dcp_vardis.Common.Area.{DisassemblyArea}
use dcp_vardis.Vardis.Data.{Data}
use dcp_vardis.Vardis.Invariant.{Good}
use dcp_vardis.Vardis.Invariant.Kept.Received.{
  process_var_create-Good, process_var_delete-Good, process_var_update-Good,
  process_var_summary-Good, process_var_requpdate-Good, process_var_reqcreate-Good,
}
use dcp_vardis.Vardis.Receive.{
  process_var_create, process_var_delete, process_var_update, process_var_summary,
  process_var_requpdate,
}
use dcp_vardis.Vardis.Receiver.{
  Received, for_each, process_records, process_extracted, process_received_payload, exit_flag,
  receive, extract_loop, nothing_received,
}

for_each-Good :
    {T : Type 0} (process : ℕ → T → Exec Data Void)
    → ((k : ℕ) (x : T) (d : Data) → Good d → Succeeds (process k x d) Good)
    → (k : ℕ) (xs : List T) (d : Data) → Good d
    → Succeeds (for_each process k xs d) Good
unfolding for_each
for_each-Good process h k [] d g = g
for_each-Good process h k (x ∷ xs) d g =
    Succeeds-bind (process k x d) _ Good Good (h k x d g)
      λ _ d'. for_each-Good process h (k + 1) xs d'

-- The records of a payload are processed without an exception, whatever they hold, and keep the
-- invariant.
pub process_records-Good :
    (times : ℕ → ℕ) (r : Received) (d : Data) → Good d → Succeeds (process_records times r d) Good
unfolding process_records
process_records-Good times r d g =
    Succeeds-bind (for_each (λ k. process_var_create (times k)) 0 r.ic_create_variables d) _ Good
      Good
      (for_each-Good _ (λ k x d. process_var_create-Good d (times k) x) 0 r.ic_create_variables d g)
      λ _ a. λ p.
        Succeeds-bind (for_each (λ k. process_var_delete) 0 r.ic_delete_variables a) _ Good Good
          (for_each-Good _ (λ k x d. process_var_delete-Good d x) 0 r.ic_delete_variables a p)
          λ _ b q.
            Succeeds-bind (for_each (λ k. process_var_update (times k)) 0 r.ic_updates b) _ Good
              Good
              (for_each-Good _ (λ k x d. process_var_update-Good d (times k) x) 0 r.ic_updates b q)
              λ _ c s.
                Succeeds-bind (for_each (λ k. process_var_summary) 0 r.ic_summaries c) _ Good Good
                  (for_each-Good _ (λ k x d. process_var_summary-Good d x) 0 r.ic_summaries c s)
                  λ _ e t.
                    Succeeds-bind
                      (for_each (λ k. process_var_requpdate) 0 r.ic_request_var_updates e) _ Good
                      Good
                      (for_each-Good _ (λ k x d. process_var_requpdate-Good d x) 0
                        r.ic_request_var_updates e t)
                      λ _ f u.
                        for_each-Good _ (λ k x d. process_var_reqcreate-Good d x) 0
                          r.ic_request_var_creates f u

exit_flag-kept :
    (d : Data) (o : Outcome Data Void)
    → Succeeds o Good
    → Good (exit_flag o).0 × ((exit_flag o).1 ≡ false)
unfolding exit_flag
exit_flag-kept d (ok a e) h = (h, refl)
exit_flag-kept d (throw e s) h = absurd h

-- A payload that was received, of any bytes, keeps the invariant; and it either leaves the exit
-- flag unset, or the protocol data as they were.
pub receive-Good :
    (clock : HostClock) (times : ℕ → ℕ) (area : DisassemblyArea) (d : Data)
    → Good d
    → let after = receive clock times area d in Good after.0 × ((after.1 ≡ false) ⊎ (after.0 ≡ d))
unfolding receive process_received_payload process_extracted exit_flag
receive-Good clock times area d g =
    go (extract_loop clock area.bytes_available nothing_received area)
  where
    go :
        (o : Outcome DisassemblyArea (Option Received))
        → let after = exit_flag (process_extracted times o d) in
          Good after.0 × ((after.1 ≡ false) ⊎ (after.0 ≡ d))
    go (ok none a) = (g, inr refl)
    go (ok (some r) a) =
        let k = exit_flag-kept d (process_records times r d) (process_records-Good times r d g) in
        (k.0, inl k.1)
    go (throw e a) = (g, inr refl)
