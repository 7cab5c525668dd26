-- ===== src/Bp/Segment/Transmit.antt =====
-- What becomes of a payload that a client hands over.
use dcp_vardis.Prelude.{
  ℕ, ◌⊎◌, inl, inr, ◌||◌, ◌≤◌, ◌<◌, ◌≡◌, ◌≢◌, refl, ◌∙◌, true, false, none, List, [], ◌∷◌, ◌++◌,
  length, arith, drop, if◌then◌else◌, ◌==◌,
}
use dcp_vardis.Prelude.Effect.{
  Outcome, Void, ok, throw, Succeeds, Succeeds-map, Yields, Yields-bind,
}
use dcp_vardis.Common.FiniteQueue
use dcp_vardis.Common.FiniteQueue.{FiniteQueue, PushResult, pushed, push_timed_out}
use dcp_vardis.Common.FiniteQueue.Valid.{IsValid, view}
use dcp_vardis.Common.FiniteQueue.Run.{push_wait_force-Returns}
use dcp_vardis.Common.FiniteQueue.Reset.{Dimensions, reset_lem}
use dcp_vardis.Bp.Segment.{
  BpShmControlSegment, with_buffer, bp_status_internal_shared_memory_error, Contention,
  transmit_payload, bp_qmode_queue_drophead, bp_qmode_once, bp_qmode_repeat,
}

-- In the mode that drops the head, on a valid queue whose lock is obtained, with a time-out that is
-- not zero and a payload that is not empty and fits a buffer, `transmit_payload` returns: the payload
-- becomes the last in the queue, which stays valid, and a full queue gives up its first payload.
pub transmit_payload-drophead :
    (timeout_ms : ℕ) (others : Contention) (bytes : List ℕ) (s : BpShmControlSegment)
    → s.static_client_info.queueing_mode ≡ bp_qmode_queue_drophead
    → IsValid s.queue
    → timeout_ms ≢ 0
    → others.locked ≡ true
    → 0 < length bytes
    → length bytes ≤ s.queue.buffer_size
    → Succeeds (transmit_payload timeout_ms others bytes s) (λ r.
      IsValid r.queue
      × (view r.queue
          ≡ (if length (view s.queue) == s.queue.queue.max_capacity
              then drop 1 (view s.queue)
              else view s.queue)
            ++ (bytes ∷ [])))
unfolding transmit_payload
transmit_payload-drophead timeout_ms others bytes s mode v on free filled fits =
    let r = push_wait_force-Returns s.queue timeout_ms v on bytes filled fits in
    simp (mode, free, r.returned) (r.valid, r.blocks)

-- In the modes that buffer one payload, where a payload still waits in the buffer, whose rings have
-- the dimensions that the constructor gives them: if the lock is obtained, the time-out is not zero
-- and no other process wakes the call, `transmit_payload` returns the status for an error of the
-- shared memory, and neither the old payload nor the new one is in the buffer.
pub transmit_payload-buffer_lost :
    (timeout_ms : ℕ) (others : Contention) (bytes : List ℕ) (s : BpShmControlSegment)
    → (s.static_client_info.queueing_mode ≡ bp_qmode_once)
      ⊎ (s.static_client_info.queueing_mode ≡ bp_qmode_repeat)
    → Dimensions s.buffer
    → s.buffer.has_data ≡ true
    → timeout_ms ≢ 0
    → others.locked ≡ true
    → others.wake ≡ none
    → Yields
        (transmit_payload timeout_ms others bytes s)
        (λ status r. (status ≡ bp_status_internal_shared_memory_error) × (view r.buffer ≡ []))
unfolding transmit_payload
transmit_payload-buffer_lost timeout_ms others bytes s mode d flag on free asleep =
    rw (buffered mode) (
      Yields-bind (with_buffer s (FiniteQueue.reset s.buffer)) _
        (λ t. (t.buffer.has_data ≡ true) × (view t.buffer ≡ [])) _
        (in_buffer (FiniteQueue.reset s.buffer) (
          Succeeds-map (FiniteQueue.reset s.buffer) _ _ (reset_lem s.buffer d)
            (λ q h. (h.0 ∙ flag, h.1))))
        (λ _ t h. simp (push_wait_sleeps t.buffer h.0) (refl, h.1)))
  where
    in_buffer :
        (o : Outcome FiniteQueue Void)
        → Succeeds o (λ q. (q.has_data ≡ true) × (view q ≡ []))
        → Succeeds (with_buffer s o) (λ t. (t.buffer.has_data ≡ true) × (view t.buffer ≡ []))
    in_buffer (ok a q) h = h
    in_buffer (throw e q) h = h

    timed : (timeout_ms == 0) ≡ false
    timed = ground (arith, on)

    push_wait_sleeps :
        (q : FiniteQueue)
        → q.has_data ≡ true
        → FiniteQueue.push_wait timeout_ms others.locked others.wake bytes q ≡ ok push_timed_out q
    push_wait_sleeps q up = simp (timed, free, up, asleep) refl

    buffered :
        (s.static_client_info.queueing_mode ≡ bp_qmode_once)
          ⊎ (s.static_client_info.queueing_mode ≡ bp_qmode_repeat)
        → (s.static_client_info.queueing_mode == bp_qmode_once
            || s.static_client_info.queueing_mode == bp_qmode_repeat)
          ≡ true
    buffered (inl e) = rw e refl
    buffered (inr e) = rw e refl
