-- ===== src/Vardis/Scrub/Batch.antt =====
-- Scrubbing in batches: each batch does what it has to do and gets further, so that a pass ends.
use mathlib.Core.List.{append_assoc}
use dcp_vardis.Prelude.{
  ℕ, zero, suc, ◌+◌, ◌-◌, ◌≤◌, ◌≡◌, refl, sym, ◌∙◌, ap, inl, inr, Bool-cases, ==_refl, ◌==◌, true,
  false, List, [], ◌∷◌, ◌++◌, arith, if◌then◌else◌, ltb, length, Option, none, some, subst, min,
}
use dcp_vardis.Prelude.Effect.{
  Yields, Yields-bind, Yields-chain, Yields-map, Succeeds-state, state-continue, state,
}
use dcp_vardis.Vardis.Queue.{elem}
use dcp_vardis.Vardis.Data.{Data, entry_of}
use dcp_vardis.Vardis.Store.{get_db_entry}
use dcp_vardis.Vardis.Invariant.{Good}
use dcp_vardis.Vardis.Scrub.{
  Pass, batch_size, set_begin, set_next, scrub_variable, scrub_next, batch_loop, scrub_batch,
  scrub_batches, scrub,
}
use dcp_vardis.Vardis.Scrub.Order.{Ascending, set_next-append}
use dcp_vardis.Vardis.Scrub.Kept.{
  scrubbed, Scrubbed, Scrubbed-none, Scrubbed-trans, elem-append, scrub_variable-Scrubbed,
  scrub_variable-Good,
}

-- The set of `d` is in order, and `vs` is what is left of it.
record AtRest (d : Data) (vs : List ℕ) : Type 0 where
  good : Good d
  ordered : Ascending d.active_variables
  looked_at : List ℕ
  split : d.active_variables ≡ looked_at ++ vs

-- The pass that still has to look at `vs`.
abbrev left_to_do : List ℕ → Pass
left_to_do vs = record { numvars = length vs; var_it = set_begin vs }

AtRest-used :
    (d : Data) (us vs : List ℕ) (v : ℕ)
    → d.active_variables ≡ us ++ (v ∷ vs)
    → Good d
    → (d.store.id_states v).used ≡ true
unfolding elem
AtRest-used d us vs v e g =
    sym (g.coherent v).active
    ∙ ap (elem v) e
    ∙ elem-append v us (v ∷ vs)
    ∙ ground (arith, ==_refl v)

scrub_next-Scrubbed :
    (now v : ℕ) (vs : List ℕ) (d : Data)
    → AtRest d (v ∷ vs)
    → Yields
        (scrub_next now (some v) d)
        λ it d'. (it ≡ set_begin vs) × Scrubbed now (v ∷ []) d d' × AtRest d' vs
unfolding scrub_next
scrub_next-Scrubbed now v vs d r =
    Yields-bind (scrub_variable now v d) _ (Scrubbed now (v ∷ []) d) _
      (scrub_variable-Scrubbed d now v (AtRest-used d r.looked_at vs v r.split r.good) r.good)
      λ _ d' s. (
        ap (set_next v) (s.active ∙ r.split)
            ∙ set_next-append v r.looked_at vs (subst Ascending r.split r.ordered),
        s,
        record {
          good = s.good;
          ordered = subst Ascending (sym s.active) r.ordered;
          looked_at = r.looked_at ++ (v ∷ []);
          split = s.active ∙ r.split ∙ sym (append_assoc r.looked_at (v ∷ []) vs);
        },
      )

-- What a batch leaves of a pass over `vs`.
record Batched (now : ℕ) (vs : List ℕ) (d : Data) (p : Pass) (d' : Data) : Type 0 where
  done : List ℕ
  rest : List ℕ
  split : vs ≡ done ++ rest
  left : p ≡ left_to_do rest
  scrubbed_done : Scrubbed now done d d'
  at_rest : AtRest d' rest

Batched-none : (now : ℕ) (vs : List ℕ) (d : Data) → AtRest d vs → Batched now vs d (left_to_do vs) d
Batched-none now vs d r = record {
  done = [];
  rest = vs;
  split = refl;
  left = refl;
  scrubbed_done = Scrubbed-none now d r.good;
  at_rest = r;
}

Batched-cons :
    (now v : ℕ) (vs : List ℕ) (d d' d'' : Data) (p : Pass)
    → Scrubbed now (v ∷ []) d d'
    → Batched now vs d' p d''
    → Batched now (v ∷ vs) d p d''
Batched-cons now v vs d d' d'' p a b = record {
  done = v ∷ b.done;
  rest = b.rest;
  split = ap (λ us. v ∷ us) b.split;
  left = b.left;
  scrubbed_done = Scrubbed-trans now (v ∷ []) b.done d d' d'' a b.scrubbed_done;
  at_rest = b.at_rest;
}

-- A batch gets further, if it starts at the index 0 and there is a variable.
abbrev Further : ℕ → List ℕ → Pass → Type 0
Further i vs p = (p.numvars ≤ length vs) × (i ≡ 0 → p.numvars ≤ length vs - 1)

round_left : (i : ℕ) (vs : List ℕ) → i ≡ 0 → ltb i (min batch_size (suc (length vs))) ≡ false → ⊥
round_left i vs e h = ground arith

batch_loop-Batched :
    (now i : ℕ) (vs : List ℕ) (d : Data)
    → AtRest d vs
    → Yields
        (batch_loop now i (length vs) (set_begin vs) d)
        λ p d'. Batched now vs d p d' × Further i vs p
unfolding batch_loop
batch_loop-Batched now i [] d r = (Batched-none now [] d r, (omega arith, λ e. omega arith))
batch_loop-Batched now i (v ∷ vs) d r =
    elim (Bool-cases (ltb i (min batch_size (suc (length vs))))) [
      | inr stop ↦
          rw stop
            (Batched-none now (v ∷ vs) d r, (omega arith, λ e. absurd (round_left i vs e stop)))
      | inl on ↦ rw on (
          Yields-chain (scrub_next now (some v) d) _
            (λ it d'. (it ≡ set_begin vs) × Scrubbed now (v ∷ []) d d' × AtRest d' vs) _
            (scrub_next-Scrubbed now v vs d r)
            λ it d' s. rw s.0 (
              Yields-map (batch_loop now (i + 1) (length vs) (set_begin vs) d') _ _
                (batch_loop-Batched now (i + 1) vs d' s.2)
                λ p d'' b. (
                  Batched-cons now v vs d d' d'' p s.1 b.0,
                  (omega (arith, b.1.0), λ e. omega (arith, b.1.0)),
                )))
    ]

some_left : (n : ℕ) → (suc n == 0) ≡ false
some_left n = ground arith

-- A pass of batches, one behind the other, looks at all variables.
scrub_batches-Scrubbed :
    (fuel now : ℕ) (vs : List ℕ) (d : Data)
    → length vs ≤ fuel
    → AtRest d vs
    → Yields
        (scrub_batches fuel now (left_to_do vs) d)
        λ p d'. (p.numvars ≡ 0) × Scrubbed now vs d d'
unfolding scrub_batches scrub_batch
scrub_batches-Scrubbed zero now [] d h r = (refl, Scrubbed-none now d r.good)
scrub_batches-Scrubbed zero now (v ∷ vs) d h r = let none_left : ⊥ = omega arith in absurd none_left
scrub_batches-Scrubbed (suc fuel) now [] d h r = (refl, Scrubbed-none now d r.good)
scrub_batches-Scrubbed (suc fuel) now (v ∷ vs) d h r = rw (some_left (length vs)) (
    Yields-chain (scrub_batch now (left_to_do (v ∷ vs)) d) (λ q. scrub_batches fuel now q)
      (λ p d'. Batched now (v ∷ vs) d p d' × Further 0 (v ∷ vs) p) _
      (batch_loop-Batched now 0 (v ∷ vs) d r)
      λ p d' b. rw b.0.left (
        Yields-map (scrub_batches fuel now (left_to_do b.0.rest) d') _ _
          (scrub_batches-Scrubbed fuel now b.0.rest d'
            (subst (λ q. q.numvars ≤ fuel) b.0.left (omega (arith, b.1.1 refl))) b.0.at_rest)
          λ q d'' s. (
            s.0,
            rw b.0.split (Scrubbed-trans now b.0.done b.0.rest d d' d'' b.0.scrubbed_done s.1),
          )))

-- A pass over the variables of an active demon, between whose batches nothing else happens, comes
-- to its end: no iterator at the end of the set is dereferenced, no exception is thrown, and no
-- variable is left. It keeps the invariant. Afterwards the entry of each allocated variable is
-- `scrubbed`: marked as deleted if it was live, its timeout is not zero, and the milliseconds since
-- its last update, modulo 2 ^ 16, exceed the timeout, and otherwise as before; those of other
-- slots are as before. The data satisfy the invariant at the start, and the set of active
-- variables is in ascending order (a std::set keeps it so).
pub scrub-Scrubbed :
    (now : ℕ) (d : Data)
    → Good d
    → Ascending d.active_variables
    → d.store.is_active ≡ true
    → Yields (scrub now d) λ p d'.
      (p.numvars ≡ 0)
      × Good d'
      × ((v : ℕ)
          → (d'.store.id_states v).db_entry ≡ (
              if (d.store.id_states v).used
              then scrubbed now (d.store.id_states v).db_entry
              else (d.store.id_states v).db_entry))
unfolding scrub
scrub-Scrubbed now d g o on = simp on (
    Yields-map (scrub_batches (length d.active_variables) now (left_to_do d.active_variables) d)
      (λ p d'. (p.numvars ≡ 0) × Scrubbed now d.active_variables d d') _
      (scrub_batches-Scrubbed (length d.active_variables) now d.active_variables d (omega arith)
        (record { good = g; ordered = o; looked_at = []; split = refl }))
      λ p d' s. (s.0, s.1.good, λ v. rw (sym (g.coherent v).active) ((s.1.at v).entry)))

-- Looking at a variable keeps the invariant, whatever the variable.
scrub_variable-keeps : (now v : ℕ) (d : Data) → Good d → Good (state (scrub_variable now v d))
unfolding scrub_variable entry_of get_db_entry
scrub_variable-keeps now v d g = elim (Bool-cases (d.store.id_states v).used) [
  | inl u ↦ Succeeds-state Good (scrub_variable now v d) (scrub_variable-Good d now v u g)
  | inr n ↦ simp n g
]

scrub_next-keeps :
    (now : ℕ) (it : Option ℕ) (d : Data) → Good d → Good (state (scrub_next now it d))
unfolding scrub_next
scrub_next-keeps now none d g = g
scrub_next-keeps now (some v) d g =
    state-continue Good (scrub_variable now v d) _ (scrub_variable-keeps now v d g) (λ _ d' h. h)

batch_loop-keeps :
    (now i n : ℕ) (it : Option ℕ) (d : Data) → Good d → Good (state (batch_loop now i n it d))
unfolding batch_loop
batch_loop-keeps now i zero it d g = g
batch_loop-keeps now i (suc n) it d g = elim (Bool-cases (ltb i (min batch_size (suc n)))) [
  | inl on ↦ rw on (
      state-continue Good (scrub_next now it d) _ (scrub_next-keeps now it d g)
        λ next d' h. batch_loop-keeps now (i + 1) n next d' h)
  | inr stop ↦ rw stop g
]

-- A batch keeps the invariant wherever the thread stands in its pass, even if it ends with an
-- exception.
pub scrub_batch-Good : (now : ℕ) (p : Pass) (d : Data) → Good d → Good (state (scrub_batch now p d))
unfolding scrub_batch
scrub_batch-Good now p d g = batch_loop-keeps now 0 p.numvars p.var_it d g
