-- ===== src/Vardis/Transmit/Fitting.antt =====
-- numberFittingRecords: the records that it counts fit behind the header, and no further one does.
use dcp_vardis.Prelude.{
  ℕ, zero, suc, ◌+◌, ◌≤◌, ◌<◌, ◌≡◌, refl, ◌⊎◌, inl, inr, List, [], ◌∷◌, arith, length, Bool-cases,
  take, min, ltb, leb, ◌&&◌,
}
use dcp_vardis.Vardis.Types.{max_records, ic_header_fixed_size}
use dcp_vardis.Vardis.Transmit.{fitting_loop, number_fitting_records}

-- The bytes that a list of records takes.
abbrev pub total : (ℕ → ℕ) → List ℕ → ℕ
total size [] = 0
total size (v ∷ vs) = size v + total size vs

pub total-take :
    (size : ℕ → ℕ) (m n : ℕ) (vs : List ℕ) → m ≤ n → total size (take m vs) ≤ total size (take n vs)
total-take size zero n vs h = omega arith
total-take size (suc m) zero vs h = absurd (omega arith)
total-take size (suc m) (suc n) [] h = omega arith
total-take size (suc m) (suc n) (v ∷ vs) h = omega (arith, total-take size m n vs (omega arith))

-- The loop adds `k` records to those that it has counted. They fit, and either there is no further
-- record, or it does not fit, or the header cannot count more.
record Fits (size : ℕ → ℕ) (available : ℕ) (vs : List ℕ) (number bytes result k : ℕ) : Type 0 where
  added : result ≡ number + k
  within : k ≤ length vs
  fit : bytes + total size (take k vs) ≤ available
  at_most : number + k ≤ max_records
  maximal :
      (k ≡ length vs)
      ⊎ (available < bytes + total size (take (suc k) vs))
      ⊎ (number + k ≡ max_records)

fitting_loop-Fits :
    (size : ℕ → ℕ) (available : ℕ) (vs : List ℕ) (number bytes : ℕ)
    → bytes ≤ available
    → number ≤ max_records
    → (k : ℕ) × Fits size available vs number bytes (fitting_loop size available vs number bytes) k
unfolding fitting_loop
fitting_loop-Fits size available [] number bytes h m = (
  0,
  record {
    added = omega arith;
    within = omega arith;
    fit = omega arith;
    at_most = omega arith;
    maximal = inl refl;
  },
)
fitting_loop-Fits size available (v ∷ vs) number bytes h m =
    elim (Bool-cases (leb (bytes + size v) available && ltb number max_records)) [
      | inr stop ↦ rw stop (
        0,
        record {
          added = omega arith;
          within = omega arith;
          fit = omega arith;
          at_most = omega arith;
          maximal = ground arith;
        },
      )
      | inl go ↦
          let (k, f) =
            fitting_loop-Fits size available vs (number + 1) (bytes + size v) (ground arith)
              (ground arith) in
          rw go (
            suc k,
            record {
              added = omega (arith, f.added);
              within = omega (arith, f.within);
              fit = omega (arith, f.fit);
              at_most = omega (arith, f.at_most);
              maximal = ground (arith, f.maximal);
            },
          )
    ]

-- What `numberFittingRecords` returns, for an area that holds at least the header: so many records
-- from the front of the queue fit behind the header, at most 255; and where it is not the whole
-- queue nor 255, one record more would not fit.
pub number_fitting_records_lem :
    (size : ℕ → ℕ) (available : ℕ) (vs : List ℕ)
    → ic_header_fixed_size ≤ available
    → let n = number_fitting_records vs available size in
      (n ≤ length vs)
      × (n ≤ max_records)
      × (ic_header_fixed_size + total size (take n vs) ≤ available)
      × ((n ≡ length vs)
          ⊎ (available < ic_header_fixed_size + total size (take (suc n) vs))
          ⊎ (n ≡ max_records))
unfolding number_fitting_records
number_fitting_records_lem size available vs h =
    let (k, f) = fitting_loop-Fits size available vs 0 ic_header_fixed_size h (omega arith) in
    let e : min (fitting_loop size available vs 0 ic_header_fixed_size) max_records ≡ k =
      omega (arith, f.added, f.at_most) in
    rw e (f.within, omega (arith, f.at_most), f.fit, omega (arith, f.maximal))

-- It is positive where the first record fits.
pub number_fitting_records_pos :
    (size : ℕ → ℕ) (available v : ℕ) (vs : List ℕ)
    → ic_header_fixed_size + size v ≤ available
    → 0 < number_fitting_records (v ∷ vs) available size
number_fitting_records_pos size available v vs h =
    ground (arith, number_fitting_records_lem size available (v ∷ vs))
