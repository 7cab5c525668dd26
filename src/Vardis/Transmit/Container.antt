-- ===== src/Vardis/Transmit/Container.antt =====
-- What the six kinds of containers have in common: if sending one record does what it should, then
-- a whole container is written without an exception.
use dcp_vardis.Prelude.{
  ℕ, ◌+◌, ◌%◌, ◌^◌, ◌≤◌, ◌<◌, ◌≡◌, refl, sym, ap, ◌∙◌, ◌⊎◌, inl, inr, true, false, pos→ne_zero,
  ltb→lt, Bool-cases, ltb, List, [], ◌∷◌, ◌++◌, arith, length, take, drop, subst, length-take,
  take-append-drop,
}
use dcp_vardis.Prelude.Effect.{continue, modify, Succeeds, Succeeds-bind, Succeeds-map, ok}
use dcp_vardis.Common.Area.Write.{append, append-append, bytes_available-append}
use dcp_vardis.Vardis.Types.{max_records, ic_header_fixed_size}
use dcp_vardis.Vardis.Types.Codec.{serialize_header}
use dcp_vardis.Vardis.Types.Wire.{Writes-header}
use dcp_vardis.Vardis.Queue.{contains}
use dcp_vardis.Vardis.Queue.Laws.{empty-nil, empty-cons}
use dcp_vardis.Vardis.Data.{Data}
use dcp_vardis.Vardis.Invariant.{Good}
use dcp_vardis.Vardis.Transmit.{
  Tx, Kind, first_size, send_records, write_container, make_container, number_fitting_records,
}
use dcp_vardis.Vardis.Transmit.Fitting.{
  total, total-take, number_fitting_records_lem, number_fitting_records_pos,
}
use dcp_vardis.Vardis.Transmit.Records.{
  Sends, SentAll, all_bytes, send_records-SentAll, elem-take, length-all_bytes,
}

-- The number of records of a container: as many as fit, cut down to the cap of the kind.
abbrev pub due : Kind → Tx → ℕ
due k t =
    k.cap t.protocol
      (number_fitting_records (k.queue t.protocol).queue t.area.bytes_available (k.size t.protocol))

-- What a container adds: the records of the first identifiers of the queue, in order, behind a
-- header that counts them. The kind is enabled, and the number of records is the one that is due.
pub record Written (k : Kind) (bytes : Data → ℕ → List ℕ) (t t' : Tx) : Type 0 where
  pub good : Good t'.protocol
  pub sent : List ℕ
  pub rest : List ℕ
  pub taken : (k.queue t.protocol).queue ≡ sent ++ rest
  pub enabled : k.enabled t.protocol ≡ true
  pub number : length sent ≡ due k t
  pub some_sent : 0 < length sent
  pub sent_at_most : length sent ≤ max_records
  pub wrote :
      t'.area ≡ append t.area (k.ic_type ∷ (length sent ∷ all_bytes (bytes t.protocol) sent))
  pub count : t'.containers_added ≡ (t.containers_added + 1) % 2 ^ 32

-- The queue is empty, or its first record does not fit, or the kind is not enabled.
pub data IsIdle (k : Kind) (t : Tx) : Type 0 where
  no_record : (k.queue t.protocol).queue ≡ [] → IsIdle k t
  no_room :
      (v : ℕ) (rest : List ℕ)
      → (k.queue t.protocol).queue ≡ v ∷ rest
      → t.area.bytes_available < k.size t.protocol v + ic_header_fixed_size
      → IsIdle k t
  not_enabled : k.enabled t.protocol ≡ false → IsIdle k t

abbrev pub Made : (k : Kind) (bytes : Data → ℕ → List ℕ) (t t' : Tx) → Type 0
Made k bytes t t' = (IsIdle k t × (t' ≡ t)) ⊎ Written k bytes t t'

-- The guards of `makeICType*` let a container of `due k t` records through, and they fit.
pub record IsBusy (k : Kind) (t : Tx) : Type 0 where
  pub enabled : k.enabled t.protocol ≡ true
  pub some_due : 0 < due k t
  pub few : due k t ≤ max_records
  pub enough : due k t ≤ length (k.queue t.protocol).queue
  pub fit :
      ic_header_fixed_size + total (k.size t.protocol) (take (due k t) (k.queue t.protocol).queue)
      ≤ t.area.bytes_available

-- The state once the header has been written.
abbrev pub headed : Kind → Tx → Tx
headed k t = record t { area = append t.area (k.ic_type ∷ (due k t ∷ [])) }

abbrev pub count_container : Tx → Tx
count_container t = record t { containers_added = (t.containers_added + 1) % 2 ^ 32 }

pub write_container-headed :
    (k : Kind) (t : Tx)
    → IsBusy k t
    → write_container k (due k t) t
      ≡ continue (send_records k (due k t) (headed k t)) (λ _. modify count_container)
unfolding write_container
write_container-headed k t b = rw (pos→ne_zero (due k t) b.some_due, header) refl
  where
    wrapped : due k t % 2 ^ 8 ≡ due k t
    wrapped = omega (arith, b.few)

    header :
        serialize_header (record { ic_type = k.ic_type; ic_num_records = due k t % 2 ^ 8 }) t.area
        ≡ ok tt (append t.area (k.ic_type ∷ (due k t ∷ [])))
    header = rw wrapped (
        (Writes-header (record { ic_type = k.ic_type; ic_num_records = due k t })).fits t.area
          (omega (arith, b.fit)))

module _ (k : Kind) (bytes : Data → ℕ → List ℕ) (s : Sends k bytes) where
  -- The first of the identifiers in the queue, `due k t` of them.
  pub sent_bytes-fit :
      (t : Tx)
      → Good t.protocol
      → IsBusy k t
      → length (all_bytes (bytes t.protocol) (take (due k t) (k.queue t.protocol).queue))
        ≤ (headed k t).area.bytes_available
  unfolding contains
  sent_bytes-fit t g b = rw bytes_available-append (omega (arith, b.fit, sizes))
    where
      q : List ℕ
      q = (k.queue t.protocol).queue

      sizes :
          length (all_bytes (bytes t.protocol) (take (due k t) q))
          ≡ total (k.size t.protocol) (take (due k t) q)
      sizes =
          length-all_bytes (bytes t.protocol) (k.size t.protocol) (take (due k t) q) λ v e.
            s.sized t.protocol v g ((s.valid t.protocol g).agree v ∙ elem-take (due k t) v q e)

  write_container-Written :
      (t : Tx)
      → Good t.protocol
      → IsBusy k t
      → Succeeds (write_container k (due k t) t) (Written k bytes t)
  write_container-Written t g b = rw (write_container-headed k t b) (
      Succeeds-bind (send_records k (due k t) (headed k t)) _ (SentAll bytes (headed k t) vs)
        (Written k bytes t) records
        λ _ t' a. record {
          good = a.good;
          sent = vs;
          rest = drop (due k t) q;
          taken = sym (take-append-drop (due k t) q);
          enabled = b.enabled;
          number = len;
          some_sent = omega (arith, len, b.some_due);
          sent_at_most = omega (arith, len, b.few);
          wrote = rw (a.wrote, append-append, len);
          count = rw a.count;
        })
    where
      q : List ℕ
      q = (k.queue t.protocol).queue

      vs : List ℕ
      vs = take (due k t) q

      len : length vs ≡ due k t
      len = omega (arith, length-take (due k t) q, b.enough)

      records : Succeeds (send_records k (due k t) (headed k t)) (SentAll bytes (headed k t) vs)
      records =
          subst
            (λ (m : ℕ). Succeeds (send_records k m (headed k t)) (SentAll bytes (headed k t) vs))
            len
            (send_records-SentAll k bytes s vs (drop (due k t) q) (headed k t) g
              (sym (take-append-drop (due k t) q)) (sent_bytes-fit t g b))

  -- The front of the queue is `v`, its record fits, and the kind is enabled.
  front_fits-IsBusy :
      (t : Tx) (v : ℕ) (rest : List ℕ)
      → Good t.protocol
      → (k.queue t.protocol).queue ≡ v ∷ rest
      → k.size t.protocol v + ic_header_fixed_size ≤ t.area.bytes_available
      → k.enabled t.protocol ≡ true
      → IsBusy k t
  front_fits-IsBusy t v rest g e h on = record {
    enabled = on;
    some_due = capped.0;
    few = omega (arith, capped.1, fits.1);
    enough = omega (arith, capped.1, fits.0);
    fit = omega (arith, fits.2, total-take (k.size d) (k.cap d n) n q capped.1);
  }
    where
      d : Data
      d = t.protocol

      q : List ℕ
      q = (k.queue d).queue

      n : ℕ
      n = number_fitting_records q t.area.bytes_available (k.size d)

      fits :
          (n ≤ length q)
          × (n ≤ max_records)
          × (ic_header_fixed_size + total (k.size d) (take n q) ≤ t.area.bytes_available)
      fits =
          let f = number_fitting_records_lem (k.size d) t.area.bytes_available q (omega arith) in
          (f.0, f.1, f.2)

      positive : 0 < n
      positive =
          rw e (number_fitting_records_pos (k.size d) t.area.bytes_available v rest (omega arith))

      capped : (0 < k.cap d n) × (k.cap d n ≤ n)
      capped = s.capped d n positive on

  first_size-cons : (d : Data) (v : ℕ) (rest : List ℕ) → first_size k d (v ∷ rest) ≡ k.size d v
  unfolding first_size
  first_size-cons d v rest = refl

  -- Nothing to do, or one container to write.
  pub make_container-cases :
      (t : Tx)
      → Good t.protocol
      → (IsIdle k t × (make_container k t ≡ ok tt t))
        ⊎ (IsBusy k t × (make_container k t ≡ write_container k (due k t) t))
  unfolding make_container
  make_container-cases t g = go (k.queue t.protocol).queue refl
    where
      first :
          {v : ℕ} {rest : List ℕ}
          → (k.queue t.protocol).queue ≡ v ∷ rest
          → first_size k t.protocol (k.queue t.protocol).queue ≡ k.size t.protocol v
      first {v} {rest} e = ap (first_size k t.protocol) e ∙ first_size-cons t.protocol v rest

      go :
          (xs : List ℕ)
          → (k.queue t.protocol).queue ≡ xs
          → (IsIdle k t × (make_container k t ≡ ok tt t))
            ⊎ (IsBusy k t × (make_container k t ≡ write_container k (due k t) t))
      go [] e = inl (no_record e, rw (empty-nil (s.valid t.protocol g) e) refl)
      go (v ∷ rest) e =
          elim (Bool-cases
            (ltb t.area.bytes_available (k.size t.protocol v + ic_header_fixed_size))) [
              | inl tight ↦ inl (
                no_room v rest e (ltb→lt _ _ tight),
                rw (empty-cons v rest (s.valid t.protocol g) e, first e, tight) refl,
              )
              | inr roomy ↦ elim (Bool-cases (k.enabled t.protocol)) [
                | inr off ↦ inl (
                  not_enabled off,
                  rw (empty-cons v rest (s.valid t.protocol g) e, first e, roomy, off) refl,
                )
                | inl on ↦ inr (
                  front_fits-IsBusy t v rest g e (ground arith) on,
                  rw (empty-cons v rest (s.valid t.protocol g) e, first e, roomy, on) refl,
                )
              ]
            ]

  -- For a kind of container whose records can be sent (Sends), and data that satisfy the
  -- invariant, the call of `makeICType*` returns. Either the queue is empty, the first record does
  -- not fit behind a header, or the kind is not enabled, and it changes nothing; or the kind is
  -- enabled and it writes one container: a header, and the records of the first identifiers of
  -- the queue in order, exactly as many as `numberFittingRecords` allows, cut down to the cap of
  -- the kind (`maxSummaries` for summaries, and no cap for the others), and between 1 and 255; the
  -- invariant holds afterwards.
  pub make_container_lem :
      (t : Tx) → Good t.protocol → Succeeds (make_container k t) (λ t'. Made k bytes t t')
  make_container_lem t g = elim (make_container-cases t g) [
    | inl (idle, e) ↦ rw e (inl (idle, refl))
    | inr (busy, e) ↦
        rw e
          (Succeeds-map _ (Written k bytes t) _ (write_container-Written t g busy) (λ t' w. inr w))
  ]
