-- ===== src/Vardis/Transmit/Rotation.antt =====
-- Summaries go round: makeICTypeSummaries of dcp/vardis/vardis_protocol_data.cc puts what it sends to
-- the end of the queue.
use mathlib.Core.Path.{fun_ext}
use mathlib.Core.List.{append_assoc, append-nil}
use dcp_vardis.Prelude.{
  ℕ, ◌+◌, ◌<◌, ◌≤◌, ◌≡◌, refl, sym, ◌∙◌, ◌⊎◌, inl, inr, List, [], ◌∷◌, ◌++◌, arith, length,
  length-append, take, drop, subst, length-take, take-append-drop,
}
use dcp_vardis.Prelude.Effect.{Succeeds, Succeeds-bind, Succeeds-map, Succeeds-and}
use dcp_vardis.Common.Area.Write.{append, append-append, append_nothing, bytes_available-append}
use dcp_vardis.Vardis.Types.{ictype_summaries}
use dcp_vardis.Vardis.Invariant.{Good}
use dcp_vardis.Vardis.Transmit.{Tx, send_next, send_records, write_container}
use dcp_vardis.Vardis.Transmit.Records.{Sent, SentAll, all_bytes, send_records-SentAll}
use dcp_vardis.Vardis.Transmit.Container.{
  IsBusy, IsIdle, due, headed, write_container-headed, sent_bytes-fit, make_container-cases,
}
use dcp_vardis.Vardis.Transmit.Kinds.{summaries, make_ic_type_summaries}
use dcp_vardis.Vardis.Transmit.Steps.Summaries.{summary_bytes, summaries-rotates, summaries-Sends}

-- The queue of summaries.
abbrev queue_of : Tx → List ℕ
queue_of t = t.protocol.summary_q.queue

send_records-rotates :
    (vs rest : List ℕ) (t : Tx)
    → Good t.protocol
    → queue_of t ≡ vs ++ rest
    → length (all_bytes (summary_bytes t.protocol) vs) ≤ t.area.bytes_available
    → Succeeds (send_records summaries (length vs) t) (λ t'. queue_of t' ≡ rest ++ vs)
unfolding send_records
send_records-rotates [] rest t g e h = e ∙ sym (append-nil rest)
send_records-rotates (v ∷ vs) rest t g e h =
    Succeeds-bind (send_next summaries t) (λ _. send_records summaries (length vs))
      (λ t'.
        Sent summaries summary_bytes t v (vs ++ rest) t' × (queue_of t' ≡ (vs ++ rest) ++ (v ∷ [])))
      _ (summaries-rotates t v (vs ++ rest) g e (omega (arith, room)))
      λ _ t' a.
        Succeeds-map (send_records summaries (length vs) t') _ _
          (send_records-rotates vs (rest ++ (v ∷ [])) t' a.0.good
            (a.1 ∙ append_assoc vs rest (v ∷ []))
            (rw (fun_ext a.0.same, a.0.wrote, bytes_available-append) (omega (arith, room))))
          (λ t'' q. q ∙ append_assoc rest (v ∷ []) vs)
  where
    room :
        length (all_bytes (summary_bytes t.protocol) (v ∷ vs))
        ≡ length (summary_bytes t.protocol v) + length (all_bytes (summary_bytes t.protocol) vs)
    room = length-append (summary_bytes t.protocol v) (all_bytes (summary_bytes t.protocol) vs)

-- The container of the records of `vs`; none if there is no record.
abbrev pub summary_container : (ℕ → List ℕ) → List ℕ → List ℕ
summary_container f [] = []
summary_container f (v ∷ vs) = ictype_summaries ∷ (length (v ∷ vs) ∷ all_bytes f (v ∷ vs))

summary_container-some :
    (f : ℕ → List ℕ) (vs : List ℕ)
    → 0 < length vs
    → summary_container f vs ≡ ictype_summaries ∷ (length vs ∷ all_bytes f vs)
summary_container-some f [] h = let impossible : ⊥ = omega arith in absurd impossible
summary_container-some f (v ∷ vs) h = refl

-- The front of the queue has been written as one container, and has gone to the end of the queue.
pub record Rotated (t t' : Tx) : Type 0 where
  sent : List ℕ
  rest : List ℕ
  taken : queue_of t ≡ sent ++ rest
  number :
      (IsIdle summaries t × (sent ≡ [])) ⊎ ((0 < length sent) × (length sent ≡ due summaries t))
  at_most : length sent ≤ t.protocol.max_summaries
  wrote : t'.area ≡ append t.area (summary_container (summary_bytes t.protocol) sent)
  left : queue_of t' ≡ rest ++ sent
  good : Good t'.protocol

busy-Rotated :
    (t : Tx)
    → Good t.protocol
    → IsBusy summaries t
    → Succeeds (write_container summaries (due summaries t) t) (Rotated t)
busy-Rotated t g b = rw (write_container-headed summaries t b) (
    Succeeds-bind (send_records summaries n start) _
      (λ t'. SentAll summary_bytes start vs t' × (queue_of t' ≡ rest ++ vs)) (Rotated t)
      (subst
        (λ (m : ℕ).
          Succeeds (send_records summaries m start)
            (λ t'. SentAll summary_bytes start vs t' × (queue_of t' ≡ rest ++ vs)))
        len all_sent)
      λ _ t' a. record {
        sent = vs;
        rest = rest;
        taken = split;
        number = inr (omega (arith, len, b.some_due), len);
        at_most = omega (arith, len);
        wrote =
            rw
              (
                a.0.wrote,
                append-append,
                summary_container-some (summary_bytes t.protocol) vs
                    (omega (arith, len, b.some_due)),
                len,
              )
              refl;
        left = a.1;
        good = a.0.good;
      })
  where
    n : ℕ
    n = due summaries t

    vs : List ℕ
    vs = take n (queue_of t)

    rest : List ℕ
    rest = drop n (queue_of t)

    start : Tx
    start = headed summaries t

    split : queue_of t ≡ vs ++ rest
    split = sym (take-append-drop n (queue_of t))

    len : length vs ≡ n
    len = omega (arith, length-take n (queue_of t), b.enough)

    all_sent :
        Succeeds
          (send_records summaries (length vs) start)
          (λ t'. SentAll summary_bytes start vs t' × (queue_of t' ≡ rest ++ vs))
    all_sent =
        let room = sent_bytes-fit summaries summary_bytes summaries-Sends t g b in
        Succeeds-and (send_records summaries (length vs) start) _ _
          (send_records-SentAll summaries summary_bytes summaries-Sends vs rest start g split room)
          (send_records-rotates vs rest start g split room)

-- With data that satisfy the invariant, makeICTypeSummaries returns. It sends nothing where the queue
-- is empty, the first record does not fit behind a header, or `maxSummaries` is zero; otherwise it
-- writes one container with the records of the first identifiers of the queue, as many as
-- `numberFittingRecords` allows and at most `maxSummaries`, and at least one. It puts these
-- identifiers, in their order, behind the others, so that the queue loses none and those that were
-- not sent are the first of the next container. The invariant holds afterwards.
pub make_ic_type_summaries-Rotated :
    (t : Tx) → Good t.protocol → Succeeds (make_ic_type_summaries t) (Rotated t)
unfolding make_ic_type_summaries
make_ic_type_summaries-Rotated t g =
    elim (make_container-cases summaries summary_bytes summaries-Sends t g) [
      | inl (idle, e) ↦ rw e (record {
        sent = [];
        rest = queue_of t;
        taken = refl;
        number = inl (idle, refl);
        at_most = omega arith;
        wrote = sym (append_nothing t.area);
        left = sym (append-nil (queue_of t));
        good = g;
      })
      | inr (busy, e) ↦ rw e (busy-Rotated t g busy)
    ]
