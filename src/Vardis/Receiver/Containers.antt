-- ===== src/Vardis/Receiver/Containers.antt =====
-- A container that was written is split into the records that were put in.
use dcp_vardis.Prelude.{ℕ, pos→ne_zero, ◌<◌, ◌≡◌, refl, List, [], ◌∷◌, ◌++◌, length}
use dcp_vardis.Prelude.Effect.{Exec}
use dcp_vardis.Common.TimeStamp.{HostClock}
use dcp_vardis.Common.Area.{DisassemblyArea}
use dcp_vardis.Common.Area.Read.{Reads, Reads->>=, Reads-pure}
use dcp_vardis.Vardis.Types.{
  VarUpdateT, VarSummT, VarCreateT, IcHeaderT, ictype_updates, ictype_summaries,
  ictype_create_variables,
}
use dcp_vardis.Vardis.Types.Codec.{deserialize_update, deserialize_summ, deserialize_create}
use dcp_vardis.Vardis.Types.Wire.{IsValidValue, encode_update, encode_summ, encode_create}
use dcp_vardis.Vardis.Types.RoundTrip.{
  Reads-map, Reads-update, Reads-summ, Reads-create, Reads-header, IsValidSpec,
}
use dcp_vardis.Vardis.Receiver.{
  Received, extract_records, extract_instruction_container_elements, extract_container,
  next_container,
}

abbrev pub All : {T : Type 0} → (T → Type 0) → List T → Type 0
All P [] = Unit {0}
All P (x ∷ xs) = P x × All P xs

-- The encodings of some records, one behind the other.
abbrev pub encode_all : {T : Type 0} → (T → List ℕ) → List T → List ℕ
encode_all f [] = []
encode_all f (x ∷ xs) = f x ++ encode_all f xs

module _ {T : Type 0} (m : Exec DisassemblyArea T) (encode : T → List ℕ) (P : T → Type 0)
    (one : (x : T) → P x → Reads m x (encode x)) where
  Reads-records :
      (xs : List T) → All P xs → Reads (extract_records m (length xs)) xs (encode_all encode xs)
  unfolding extract_records
  Reads-records [] h = Reads-pure []
  Reads-records (x ∷ xs) h =
      Reads->>= _ (one x h.0) (Reads-map (λ ys. x ∷ ys) (Reads-records xs h.1))

  Reads-elements :
      (h : IcHeaderT) (before xs : List T)
      → All P xs
      → 0 < length xs
      → h.ic_num_records ≡ length xs
      → Reads
          (extract_instruction_container_elements m h before)
          (before ++ xs)
          (encode_all encode xs)
  unfolding extract_instruction_container_elements
  Reads-elements h before xs all some e =
      rw (e, pos→ne_zero (length xs) some) (Reads-map (λ ys. before ++ ys) (Reads-records xs all))

-- The bytes of a container of at least one update, whose values have the length that they state,
-- are split into just these updates, behind those received before; exactly these bytes are read.
pub next_container-updates :
    (clock : HostClock) (r : Received) (us : List VarUpdateT)
    → All (λ u. IsValidValue u.value) us
    → 0 < length us
    → Reads
        (next_container clock r)
        (record r { ic_updates = r.ic_updates ++ us })
        (ictype_updates ∷ (length us ∷ encode_all encode_update us))
unfolding next_container extract_container
next_container-updates clock r us all some =
    Reads->>= _ (Reads-header (record { ic_type = ictype_updates; ic_num_records = length us })) (
      Reads-map (λ xs. record r { ic_updates = xs })
        (Reads-elements deserialize_update encode_update (λ u. IsValidValue u.value) Reads-update
          (record { ic_type = ictype_updates; ic_num_records = length us }) r.ic_updates us all some
          refl))

-- The bytes of a container of at least one summary are split into just these summaries, behind
-- those received before; exactly these bytes are read.
pub next_container-summaries :
    (clock : HostClock) (r : Received) (ss : List VarSummT)
    → 0 < length ss
    → Reads
        (next_container clock r)
        (record r { ic_summaries = r.ic_summaries ++ ss })
        (ictype_summaries ∷ (length ss ∷ encode_all encode_summ ss))
unfolding next_container extract_container
next_container-summaries clock r ss some =
    Reads->>= _ (Reads-header (record { ic_type = ictype_summaries; ic_num_records = length ss })) (
      Reads-map (λ xs. record r { ic_summaries = xs })
        (Reads-elements deserialize_summ encode_summ (λ s. Unit {0}) (λ s _. Reads-summ s)
          (record { ic_type = ictype_summaries; ic_num_records = length ss }) r.ic_summaries ss
          (all ss) some refl))
  where
    all : (xs : List VarSummT) → All (λ s. Unit {0}) xs
    all [] = tt
    all (x ∷ xs) = (tt, all xs)

-- What is asked of a VarCreate that can be sent.
pub record IsSendable (c : VarCreateT) : Type 0 where
  pub spec : IsValidSpec c.spec
  pub value : IsValidValue c.update.value

-- The bytes of a container of at least one VarCreate, whose fields fit the integers that carry
-- them, are split into just these records, behind those received before; exactly these bytes are
-- read.
pub next_container-creates :
    (clock : HostClock) (r : Received) (cs : List VarCreateT)
    → All IsSendable cs
    → 0 < length cs
    → Reads
        (next_container clock r)
        (record r { ic_create_variables = r.ic_create_variables ++ cs })
        (ictype_create_variables ∷ (length cs ∷ encode_all (encode_create clock) cs))
unfolding next_container extract_container
next_container-creates clock r cs all some =
    Reads->>= _
      (Reads-header (record { ic_type = ictype_create_variables; ic_num_records = length cs }))
      (Reads-map (λ xs. record r { ic_create_variables = xs })
        (Reads-elements (deserialize_create clock) (encode_create clock) IsSendable
          (λ c h. Reads-create clock c h.spec h.value)
          (record { ic_type = ictype_create_variables; ic_num_records = length cs })
          r.ic_create_variables cs all some refl))
