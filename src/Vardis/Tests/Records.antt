-- ===== src/Vardis/Tests/Records.antt =====
-- The theorems on single operations and on the bytes of records.
use mathlib.Core.List.{append-nil}
use dcp_vardis.Prelude.{
  ℕ, suc, ◌+◌, ◌-◌, ◌*◌, ◌^◌, ◌≤◌, ◌<◌, ◌≡◌, ◌⊎◌, ◌↔◌, refl, sym, false, ◌&&◌, ◌||◌, ltb, [], ◌∷◌,
  take, some, arith, length,
}
use dcp_vardis.Prelude.Effect.{ok}
use dcp_vardis.Common.TimeStamp.{milliseconds_passed_since, milliseconds_passed_since_bounds}
use dcp_vardis.Common.Area.Read.{Reads, advance}
use dcp_vardis.Common.Area.Write.{append}
use dcp_vardis.Vardis.Types.{
  max_records, ic_header_fixed_size, VarSummT, ictype_updates, ictype_summaries,
  ictype_create_variables,
}
use dcp_vardis.Vardis.Types.Codec.{serialize_create, deserialize_create}
use dcp_vardis.Vardis.Types.Wire.{
  encode_create, encode_update, encode_summ, IsValidValue, length-encode_create,
}
use dcp_vardis.Vardis.Types.RoundTrip.{IsValidSpec, create_round_trip}
use dcp_vardis.Vardis.Seqno.{
  more_recent_seqno, sub_byte, more_recent_seqno_lem, more_recent_seqno_order,
}
use dcp_vardis.Vardis.Queue.{
  VarIdQueue, empty_queue, front, pop_front, remove, insert, contains, elem,
}
use dcp_vardis.Vardis.Queue.Laws.{empty_queue-IsValid, insert-IsValid, pop_front_lem}
use dcp_vardis.Vardis.Transmit.{number_fitting_records}
use dcp_vardis.Vardis.Transmit.Fitting.{total, number_fitting_records_lem}
use dcp_vardis.Vardis.Receiver.{nothing_received, next_container, extract_loop}
use dcp_vardis.Vardis.Receiver.Bounded.{HasEnded, extract_loop-HasEnded}
use dcp_vardis.Vardis.Receiver.Containers.{
  encode_all, IsSendable, next_container-updates, next_container-summaries, next_container-creates,
}
use dcp_vardis.Vardis.Receiver.Halves.{extract_loop-second_half}
use dcp_vardis.Vardis.Tests.{host, create_7, update_7, value_a, value_b, spec_7, room, payload}

spec_7-IsValidSpec : IsValidSpec spec_7
spec_7-IsValidSpec = record {
  prod_id_small = omega arith;
  creation_time_small = omega arith;
  timeout_small = omega arith;
  descr_small = omega arith;
}

value_a-IsValidValue : IsValidValue value_a
value_a-IsValidValue = record { same = refl; small = omega arith }

value_b-IsValidValue : IsValidValue value_b
value_b-IsValidValue = record { same = refl; small = omega arith }

create_7-IsSendable : IsSendable create_7
create_7-IsSendable = record { spec = spec_7-IsValidSpec; value = value_a-IsValidValue }

abbrev summary_7 : VarSummT
summary_7 = record { var_id = 7; seqno = 5 }

-- The update container of one record, with nothing received before.
Reads-updates :
    Reads
      (next_container host nothing_received)
      (record nothing_received { ic_updates = update_7 ∷ [] })
      (2 ∷ 1 ∷ 7 ∷ 1 ∷ 2 ∷ 66 ∷ 67 ∷ [])
Reads-updates =
    next_container-updates host nothing_received (update_7 ∷ []) (value_b-IsValidValue, tt)
      (omega arith)

extract_loop-HasEnded_example :
    HasEnded (extract_loop host 7 nothing_received (payload (2 ∷ 1 ∷ 7 ∷ 1 ∷ 2 ∷ 66 ∷ 67 ∷ [])))
extract_loop-HasEnded_example =
    extract_loop-HasEnded host 7 nothing_received (payload (2 ∷ 1 ∷ 7 ∷ 1 ∷ 2 ∷ 66 ∷ 67 ∷ []))
      (omega arith)

extract_loop-second_half_example :
    extract_loop host 10 nothing_received (payload (2 ∷ 1 ∷ 7 ∷ 1 ∷ 2 ∷ 66 ∷ 67 ∷ (6 ∷ 1 ∷ 9 ∷ [])))
    ≡ ok
        (some (record nothing_received { ic_updates = update_7 ∷ [] }))
        (advance (payload (2 ∷ 1 ∷ 7 ∷ 1 ∷ 2 ∷ 66 ∷ 67 ∷ (6 ∷ 1 ∷ 9 ∷ []))) 7 (6 ∷ 1 ∷ 9 ∷ []))
extract_loop-second_half_example =
    extract_loop-second_half host 9 nothing_received
      (record nothing_received { ic_updates = update_7 ∷ [] })
      (payload (2 ∷ 1 ∷ 7 ∷ 1 ∷ 2 ∷ 66 ∷ 67 ∷ (6 ∷ 1 ∷ 9 ∷ []))) (2 ∷ 1 ∷ 7 ∷ 1 ∷ 2 ∷ 66 ∷ 67 ∷ [])
      (6 ∷ 1 ∷ 9 ∷ []) Reads-updates (omega arith) (omega arith) refl refl refl

next_container-updates_example :
    Reads
      (next_container host nothing_received)
      (record nothing_received { ic_updates = update_7 ∷ [] })
      (ictype_updates ∷ (1 ∷ encode_all encode_update (update_7 ∷ [])))
next_container-updates_example =
    next_container-updates host nothing_received (update_7 ∷ []) (value_b-IsValidValue, tt)
      (omega arith)

next_container-summaries_example :
    Reads
      (next_container host nothing_received)
      (record nothing_received { ic_summaries = summary_7 ∷ (summary_7 ∷ []) })
      (ictype_summaries ∷ (2 ∷ encode_all encode_summ (summary_7 ∷ (summary_7 ∷ []))))
next_container-summaries_example =
    next_container-summaries host nothing_received (summary_7 ∷ (summary_7 ∷ [])) (omega arith)

next_container-creates_example :
    Reads
      (next_container host nothing_received)
      (record nothing_received { ic_create_variables = create_7 ∷ [] })
      (ictype_create_variables ∷ (1 ∷ encode_all (encode_create host) (create_7 ∷ [])))
next_container-creates_example =
    next_container-creates host nothing_received (create_7 ∷ []) (create_7-IsSendable, tt)
      (omega arith)

create_round_trip_example :
    (serialize_create host create_7 room ≡ ok tt (append room (encode_create host create_7)))
    × (deserialize_create host (payload (encode_create host create_7))
        ≡ ok create_7 (
            advance
              (payload (encode_create host create_7))
              (length (encode_create host create_7))
              []))
create_round_trip_example =
    create_round_trip host create_7 room (payload (encode_create host create_7)) []
      spec_7-IsValidSpec value_a-IsValidValue short (sym (append-nil (encode_create host create_7)))
      (omega arith)
  where
    short : length (encode_create host create_7) ≤ 200
    short = omega (arith, length-encode_create host create_7)

-- Three records of four bytes, in an area for two of them.
number_fitting_records_lem_example :
    let n = number_fitting_records (3 ∷ 4 ∷ 5 ∷ []) 11 (λ v. 4) in
    (n ≤ 3)
    × (n ≤ max_records)
    × (ic_header_fixed_size + total (λ v. 4) (take n (3 ∷ 4 ∷ 5 ∷ [])) ≤ 11)
    × ((n ≡ 3)
        ⊎ (11 < ic_header_fixed_size + total (λ v. 4) (take (suc n) (3 ∷ 4 ∷ 5 ∷ [])))
        ⊎ (n ≡ max_records))
number_fitting_records_lem_example =
    number_fitting_records_lem (λ v. 4) 11 (3 ∷ 4 ∷ 5 ∷ []) (omega arith)

abbrev queue_3_4 : VarIdQueue
queue_3_4 = insert (insert empty_queue 3) 4

queue_3_4-order : queue_3_4.queue ≡ 3 ∷ 4 ∷ []
unfolding insert empty_queue contains elem
queue_3_4-order = refl

pop_front_lem_example :
    (front queue_3_4 ≡ ok 3 queue_3_4)
    × (pop_front queue_3_4 ≡ ok tt (remove queue_3_4 3))
    × ((remove queue_3_4 3).queue ≡ 4 ∷ [])
pop_front_lem_example =
    pop_front_lem 3 (4 ∷ []) (insert-IsValid 4 (insert-IsValid 3 empty_queue-IsValid))
      queue_3_4-order

more_recent_seqno_lem_example :
    more_recent_seqno 3 250 ≡ (ltb 0 (sub_byte 3 250) && ltb (sub_byte 3 250) 128)
more_recent_seqno_lem_example = more_recent_seqno_lem 3 250 (omega arith) (omega arith)

more_recent_seqno_order_example :
    ((more_recent_seqno 200 72 && more_recent_seqno 72 200) ≡ false)
    × (((more_recent_seqno 200 72 || more_recent_seqno 72 200) ≡ false)
        ↔ ((◌≡◌ {A = ℕ} 200 72) ⊎ (sub_byte 200 72 ≡ 128)))
more_recent_seqno_order_example = more_recent_seqno_order 200 72 (omega arith) (omega arith)

milliseconds_passed_since_bounds_example :
    (milliseconds_passed_since 7500000 1000000 * 1000000 ≤ 7500000 - 1000000)
    × (7500000 - 1000000 < 2 ^ 32 * 1000000
        → 7500000 - 1000000 < milliseconds_passed_since 7500000 1000000 * 1000000 + 1000000)
milliseconds_passed_since_bounds_example = milliseconds_passed_since_bounds 7500000 1000000
