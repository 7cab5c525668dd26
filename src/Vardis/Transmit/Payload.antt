-- ===== src/Vardis/Transmit/Payload.antt =====
-- The whole payload: the six `makeICType*` functions in the order in which `construct_payload` calls
-- them.
use dcp_vardis.Prelude.{ℕ, ◌≡◌, refl, sym, ◌∙◌, inl, inr, false, List, [], ◌∷◌, ◌++◌, length}
use dcp_vardis.Prelude.Effect.{Outcome, ok, throw, Void, Succeeds, Succeeds-bind, Succeeds-map}
use dcp_vardis.Common.TimeStamp.{HostClock}
use dcp_vardis.Common.Area.Write.{append, append-append, append_nothing}
use dcp_vardis.Vardis.Data.{Data}
use dcp_vardis.Vardis.Invariant.{Good}
use dcp_vardis.Vardis.Transmit.{Tx, Kind, make_container}
use dcp_vardis.Vardis.Transmit.Records.{Sends, all_bytes}
use dcp_vardis.Vardis.Transmit.Container.{Made, make_container_lem}
use dcp_vardis.Vardis.Transmit.Kinds.{
  creates, deletes, req_creates, summaries, updates, req_updates, make_containers, handle_exception,
  construct_payload, make_ic_type_create_variables, make_ic_type_delete_variables,
  make_ic_type_request_var_creates, make_ic_type_summaries, make_ic_type_updates,
  make_ic_type_request_var_updates,
}
use dcp_vardis.Vardis.Transmit.Steps.Creates.{creates-Sends}
use dcp_vardis.Vardis.Transmit.Steps.Deletes.{deletes-Sends}
use dcp_vardis.Vardis.Transmit.Steps.Summaries.{summaries-Sends}
use dcp_vardis.Vardis.Transmit.Steps.Updates.{updates-Sends}
use dcp_vardis.Vardis.Transmit.Steps.Requests.{req_updates-Sends, req_creates-Sends}

-- Something has been written behind what stood in the area, nothing before it has changed, and the
-- protocol data satisfy the invariant.
pub record Extended (t t' : Tx) : Type 0 where
  pub good : Good t'.protocol
  pub bytes : List ℕ
  pub wrote : t'.area ≡ append t.area bytes

Extended-trans : (t t' t'' : Tx) → Extended t t' → Extended t' t'' → Extended t t''
Extended-trans t t' t'' a b = record {
  good = b.good;
  bytes = a.bytes ++ b.bytes;
  wrote = b.wrote ∙ rw (a.wrote, append-append) refl;
}

Made-Extended :
    (k : Kind) (bytes : Data → ℕ → List ℕ) (t t' : Tx)
    → Good t.protocol
    → Made k bytes t t'
    → Extended t t'
Made-Extended k bytes t t' g (inl (idle, e)) = record { good = rw e g; bytes = []; wrote = e-area }
  where
    e-area : t'.area ≡ append t.area []
    e-area = rw e (sym (append_nothing t.area))
Made-Extended k bytes t t' g (inr w) = record {
  good = w.good;
  bytes = k.ic_type ∷ (length w.sent ∷ all_bytes (bytes t.protocol) w.sent);
  wrote = w.wrote;
}

-- One more container.
made_next :
    (k : Kind) (bytes : Data → ℕ → List ℕ) (s : Sends k bytes) (t t' : Tx)
    → Extended t t'
    → Succeeds (make_container k t') (Extended t)
made_next k bytes s t t' e =
    Succeeds-map (make_container k t') _ (Extended t) (make_container_lem k bytes s t' e.good)
      λ t'' m. Extended-trans t t' t'' e (Made-Extended k bytes t' t'' e.good m)

-- From a payload area in any state, the six functions return: they only append to the area, and
-- keep the invariant of the protocol data.
pub make_containers-Extended :
    (clock : HostClock) (t : Tx) → Good t.protocol → Succeeds (make_containers clock t) (Extended t)
unfolding make_containers make_ic_type_create_variables make_ic_type_delete_variables
    make_ic_type_request_var_creates make_ic_type_summaries make_ic_type_updates
    make_ic_type_request_var_updates
make_containers-Extended clock t g =
    Succeeds-bind (make_container (creates clock) t) _ (Extended t) (Extended t)
      (made_next (creates clock) _ (creates-Sends clock) t t start)
      λ _ a e.
        Succeeds-bind (make_container deletes a) _ (Extended t) (Extended t)
          (made_next deletes _ deletes-Sends t a e)
          λ _ b f.
            Succeeds-bind (make_container req_creates b) _ (Extended t) (Extended t)
              (made_next req_creates _ req_creates-Sends t b f)
              λ _ c h.
                Succeeds-bind (make_container summaries c) _ (Extended t) (Extended t)
                  (made_next summaries _ summaries-Sends t c h)
                  λ _ x i.
                    Succeeds-bind (make_container updates x) _ (Extended t) (Extended t)
                      (made_next updates _ updates-Sends t x i)
                      λ _ y j. made_next req_updates _ req_updates-Sends t y j
  where
    start : Extended t t
    start = record { good = g; bytes = []; wrote = sym (append_nothing t.area) }

handled :
    (t : Tx) (o : Outcome Tx Void)
    → Succeeds o (Extended t)
    → ((handle_exception o).1 ≡ false) × Extended t (handle_exception o).0
unfolding handle_exception
handled t (ok a t') h = (refl, h)
handled t (throw e t') h = absurd h

-- With data that satisfy the invariant, and whatever room the area has, `construct_payload` does
-- not set the exit flag: no exception is thrown, bytes are only appended to the area, and the
-- invariant holds afterwards.
pub construct_payload_lem :
    (clock : HostClock) (t : Tx)
    → Good t.protocol
    → ((construct_payload clock t).1 ≡ false) × Extended t (construct_payload clock t).0
unfolding construct_payload
construct_payload_lem clock t g =
    handled t (make_containers clock t) (make_containers-Extended clock t g)
