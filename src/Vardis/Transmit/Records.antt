-- ===== src/Vardis/Transmit/Records.antt =====
-- The records of a container: if sending one record does what it should, then a list of them is
-- written, one behind the other.
use mathlib.Core.Path.{fun_ext}
use mathlib.Core.List.{append_assoc}
use dcp_vardis.Prelude.{
  ℕ, zero, suc, ◌+◌, ◌≤◌, ◌<◌, ◌≡◌, refl, sym, ◌∙◌, true, List, [], ◌∷◌, ◌++◌, arith, length,
  length-append, take,
}
use dcp_vardis.Prelude.Effect.{Succeeds, Succeeds-bind, Succeeds-map}
use dcp_vardis.Common.Area.Write.{append, append-append, append_nothing, bytes_available-append}
use dcp_vardis.Vardis.Queue.{contains, elem}
use dcp_vardis.Vardis.Queue.Laws.{IsValid}
use dcp_vardis.Vardis.Data.{Data}
use dcp_vardis.Vardis.Invariant.{Good}
use dcp_vardis.Vardis.Transmit.{Tx, Kind, send_next, send_records}
use dcp_vardis.Vardis.Transmit.Fitting.{total}

-- The state after one record: its bytes are in the area, it has left the front of the queue, and
-- the records that follow will be the same as before.
pub record Sent (k : Kind) (bytes : Data → ℕ → List ℕ) (t : Tx) (v : ℕ) (rest : List ℕ) (t' : Tx)
    : Type 0 where
  pub good : Good t'.protocol
  pub wrote : t'.area ≡ append t.area (bytes t.protocol v)
  pub back : List ℕ
  pub left : (k.queue t'.protocol).queue ≡ rest ++ back
  pub same : (w : ℕ) → bytes t'.protocol w ≡ bytes t.protocol w
  pub count : t'.containers_added ≡ t.containers_added

-- What is asked of a kind of container whose records are `bytes`.
pub record Sends (k : Kind) (bytes : Data → ℕ → List ℕ) : Type 0 where
  pub valid : (d : Data) → Good d → IsValid (k.queue d)
  pub sized :
      (d : Data) (v : ℕ) → Good d → contains (k.queue d) v ≡ true → length (bytes d v) ≡ k.size d v
  pub capped : (d : Data) (n : ℕ) → 0 < n → k.enabled d ≡ true → (0 < k.cap d n) × (k.cap d n ≤ n)
  pub sends :
      (t : Tx) (v : ℕ) (rest : List ℕ)
      → Good t.protocol
      → (k.queue t.protocol).queue ≡ v ∷ rest
      → length (bytes t.protocol v) ≤ t.area.bytes_available
      → Succeeds (send_next k t) (Sent k bytes t v rest)

-- The records of a list of identifiers, one behind the other.
abbrev pub all_bytes : (ℕ → List ℕ) → List ℕ → List ℕ
all_bytes f [] = []
all_bytes f (v ∷ vs) = f v ++ all_bytes f vs

-- The state after the records of `vs`.
pub record SentAll (bytes : Data → ℕ → List ℕ) (t : Tx) (vs : List ℕ) (t' : Tx) : Type 0 where
  pub good : Good t'.protocol
  pub wrote : t'.area ≡ append t.area (all_bytes (bytes t.protocol) vs)
  pub count : t'.containers_added ≡ t.containers_added

module _ (k : Kind) (bytes : Data → ℕ → List ℕ) (s : Sends k bytes) where
  -- One record, then those of `vs`.
  Sent-SentAll :
      (t t' t'' : Tx) (v : ℕ) (vs rest : List ℕ)
      → Sent k bytes t v rest t'
      → SentAll bytes t' vs t''
      → SentAll bytes t (v ∷ vs) t''
  Sent-SentAll t t' t'' v vs rest a b = record {
    good = b.good;
    wrote = b.wrote ∙ rw (a.wrote, append-append, fun_ext a.same);
    count = b.count ∙ a.count;
  }

  pub send_records-SentAll :
      (vs rest : List ℕ) (t : Tx)
      → Good t.protocol
      → (k.queue t.protocol).queue ≡ vs ++ rest
      → length (all_bytes (bytes t.protocol) vs) ≤ t.area.bytes_available
      → Succeeds (send_records k (length vs) t) (SentAll bytes t vs)
  unfolding send_records
  send_records-SentAll [] rest t g e h = record {
    good = g;
    wrote = sym (append_nothing t.area);
    count = refl;
  }
  send_records-SentAll (v ∷ vs) rest t g e h =
      Succeeds-bind (send_next k t) (λ _. send_records k (length vs))
        (Sent k bytes t v (vs ++ rest)) (SentAll bytes t (v ∷ vs))
        (s.sends t v (vs ++ rest) g e (omega (arith, room)))
        λ _ t' a.
          Succeeds-map (send_records k (length vs) t') (SentAll bytes t' vs)
            (SentAll bytes t (v ∷ vs))
            (send_records-SentAll vs (rest ++ a.back) t' a.good
              (a.left ∙ append_assoc vs rest a.back)
              (rw (fun_ext a.same, a.wrote, bytes_available-append) (omega (arith, room))))
            (λ t''. Sent-SentAll t t' t'' v vs (vs ++ rest) a)
    where
      room :
          length (all_bytes (bytes t.protocol) (v ∷ vs))
          ≡ length (bytes t.protocol v) + length (all_bytes (bytes t.protocol) vs)
      room = length-append (bytes t.protocol v) (all_bytes (bytes t.protocol) vs)

pub elem-take : (n v : ℕ) (xs : List ℕ) → elem v (take n xs) ≡ true → elem v xs ≡ true
unfolding elem
elem-take zero v xs h = cc
elem-take (suc n) v [] h = h
elem-take (suc n) v (x ∷ xs) h = ground (arith, elem-take n v xs)

pub length-all_bytes :
    (f : ℕ → List ℕ) (size : ℕ → ℕ) (vs : List ℕ)
    → ((v : ℕ) → elem v vs ≡ true → length (f v) ≡ size v)
    → length (all_bytes f vs) ≡ total size vs
unfolding elem
length-all_bytes f size [] h = refl
length-all_bytes f size (v ∷ vs) h = omega (
  arith,
  length-append (f v) (all_bytes f vs),
  h v (ground arith),
  length-all_bytes f size vs (λ w e. h w (ground arith)),
)
