-- ===== src/Vardis/ArrayStore/Init.antt =====
-- A new array store: `initialize_array_store` puts all buffers into the free list.
use dcp_vardis.Prelude.{
  ℕ, zero, suc, ◌+◌, ◌-◌, ◌*◌, ◌%◌, ◌^◌, ◌≤◌, ◌<◌, ◌≡◌, inr, refl, ap, ◌∙◌, Bool, true, false, List,
  [], ◌∷◌, ◌++◌, length, length-append, arith, leb, subst,
}
use dcp_vardis.Prelude.Effect.{Succeeds, Succeeds-map}
use dcp_vardis.Common.RingBuffer.Refine
use dcp_vardis.Common.RingBuffer.Refine.{contents, Pushed, push-Pushed}
use dcp_vardis.Vardis.Store.{DbEntry, Statistics}
use dcp_vardis.Vardis.ArrayStore.{
  ArrayContents, ArrayState, FreeListEntry, actual_buffer_size, number_identifiers, fill_free_list,
  new_contents, initialize_array_store,
}
use dcp_vardis.Vardis.ArrayStore.Valid.{IsValid, AllApart, Separate, Separate-snoc, used_below}

-- All pairs of buffers lie below `a` and `b`.
abbrev pub AllBelow : ℕ → ℕ → ℕ → ℕ → List FreeListEntry → Type 0
AllBelow vs ds a b [] = Unit {0}
AllBelow vs ds a b (x ∷ xs) =
    (x.buffer_offs + vs ≤ a) × (x.descr_offs + ds ≤ b) × AllBelow vs ds a b xs

AllBelow-snoc :
    (vs ds a b a' b' : ℕ) (xs : List FreeListEntry)
    → a + vs ≤ a'
    → b + ds ≤ b'
    → AllBelow vs ds a b xs
    → AllBelow vs ds a' b' (xs ++ (record { buffer_offs = a; descr_offs = b } ∷ []))
AllBelow-snoc vs ds a b a' b' [] p q h = (p, q, tt)
AllBelow-snoc vs ds a b a' b' (x ∷ xs) p q h =
    (omega (arith, h.0), omega (arith, h.1), AllBelow-snoc vs ds a b a' b' xs p q h.2)

AllBelow-apart :
    (vs ds a b : ℕ) (xs : List FreeListEntry)
    → AllBelow vs ds a b xs
    → AllApart vs ds (record { buffer_offs = a; descr_offs = b }) xs
AllBelow-apart vs ds a b [] h = tt
AllBelow-apart vs ds a b (x ∷ xs) h = (
  record { values = inr (omega (arith, h.0)); descrs = inr (omega (arith, h.1)) },
  AllBelow-apart vs ds a b xs h.2,
)

-- A buffer in the arrays is at least as long as asked for.
next_buffer : (i s : ℕ) → i * actual_buffer_size s + s ≤ (i + 1) * actual_buffer_size s
next_buffer i s = go (actual_buffer_size s) (omega arith)
  where
    go : (a : ℕ) → s ≤ a → i * a + s ≤ (i + 1) * a
    go a h = ground arith

-- What the loop of `initialize_array_store` has done before the round for the index `i`.
record Filled (i : ℕ) (c : ArrayContents) : Type 0 where
  ring : Refine.IsValid c.free_list
  capacity : c.free_list.max_capacity ≡ number_identifiers
  count : length (contents c.free_list) ≡ i
  separate : Separate c.value_buffer_size c.descr_buffer_size (contents c.free_list)
  below :
      AllBelow c.value_buffer_size c.descr_buffer_size
        (i * actual_buffer_size c.value_buffer_size)
        (i * actual_buffer_size c.descr_buffer_size)
        (contents c.free_list)
  unused : (v : ℕ) → (c.id_states v).used ≡ false
  no_value : (v : ℕ) → (c.id_states v).val_size ≡ 0
  no_descr : (v : ℕ) → (c.id_states v).descr_size ≡ 0

fill_free_list-Filled :
    (i n : ℕ) (c : ArrayContents)
    → i + n ≡ number_identifiers
    → Filled i c
    → Succeeds (fill_free_list i n c) (Filled number_identifiers)
unfolding fill_free_list
fill_free_list-Filled i zero c e f = subst (λ k. Filled k c) {x = i} (omega arith) f
fill_free_list-Filled i (suc n) c e f = rw p.pushed (
    fill_free_list-Filled (i + 1) n (record c { free_list = p.after }) (omega arith)
      (record {
        ring = p.valid;
        capacity = p.capacity ∙ f.capacity;
        count =
            ap length p.added
            ∙ length-append (contents c.free_list) (this ∷ [])
            ∙ ap (λ k. k + 1) f.count;
        separate = rw p.added (
            Separate-snoc vs ds this (contents c.free_list) f.separate
              (AllBelow-apart vs ds _ _ (contents c.free_list) f.below));
        below = rw p.added (
            AllBelow-snoc vs ds _ _ _ _ (contents c.free_list) (next_buffer i vs) (next_buffer i ds)
              f.below);
        unused = f.unused;
        no_value = f.no_value;
        no_descr = f.no_descr;
      }))
  where
    vs : ℕ
    vs = c.value_buffer_size

    ds : ℕ
    ds = c.descr_buffer_size

    this : FreeListEntry
    this = record {
      buffer_offs = i * actual_buffer_size vs;
      descr_offs = i * actual_buffer_size ds;
    }

    p : Pushed c.free_list this
    p = push-Pushed c.free_list this f.ring (rw (f.capacity, f.count) (omega arith))

used_below-none : (f : ℕ → ArrayState) (n : ℕ) → ((v : ℕ) → (f v).used ≡ false) → used_below f n ≡ 0
used_below-none f zero h = refl
used_below-none f (suc n) h = rw (h n, used_below-none f n h) refl

Filled-IsValid : (c : ArrayContents) → Filled number_identifiers c → IsValid c
Filled-IsValid c f = record {
  ring = f.ring;
  capacity = f.capacity;
  balanced = total f.count (used_below-none c.id_states number_identifiers f.unused);
  separate = f.separate;
  free_apart = λ v u. absurd (clash u (f.unused v));
  used_apart = λ v w n u x. absurd (clash u (f.unused v));
  val_fits = λ v. rw (f.no_value v) (omega arith);
  descr_fits = λ v. rw (f.no_descr v) (omega arith);
  unused_empty = λ v u. (f.no_value v, f.no_descr v);
}
  where
    clash : {b : Bool} → b ≡ true → b ≡ false → ⊥
    clash p q = ground arith

    total : {a b : ℕ} → a ≡ number_identifiers → b ≡ 0 → a + b ≡ number_identifiers
    total p q = omega (arith, p, q)

-- A store in which nothing is allocated: all 256 pairs of buffers are in the free list, and lie
-- within the two arrays, which have 256 buffers each.
pub record IsNew (c : ArrayContents) : Type 0 where
  pub valid : IsValid c
  pub all_free : length (contents c.free_list) ≡ 256
  pub inside :
      AllBelow c.value_buffer_size c.descr_buffer_size
        (256 * actual_buffer_size c.value_buffer_size)
        (256 * actual_buffer_size c.descr_buffer_size)
        (contents c.free_list)
  pub unused : (v : ℕ) → (c.id_states v).used ≡ false

Filled-IsNew : (c : ArrayContents) → Filled number_identifiers c → IsNew c
Filled-IsNew c f = record {
  valid = Filled-IsValid c f;
  all_free = f.count;
  inside = f.below;
  unused = f.unused;
}

-- The set-up of a store with lengths within the limits returns, whatever the memory held before. The
-- store is valid, so that no two buffers overlap; all 256 pairs of buffers are in the free list, each
-- within the arrays of 256 buffers of the actual size; and no identifier is used.
pub initialize_array_store-IsNew :
    (value_size descr_size max_descr_len max_val_len : ℕ) (stats : Statistics)
    (entries : ℕ → DbEntry) (values descrs : ℕ → ℕ) (ring : ℕ → FreeListEntry)
    → descr_size < 2 ^ 64
    → value_size < 2 ^ 64
    → max_descr_len + 8 < descr_size
    → max_val_len + 8 < value_size
    → Succeeds
        (initialize_array_store max_descr_len max_val_len
          (new_contents value_size descr_size stats entries values descrs ring))
        IsNew
unfolding initialize_array_store
initialize_array_store-IsNew vs ds md mv stats entries values descrs ring p q h k =
    simp (fits ds md p h, fits vs mv q k)
      (Succeeds-map (fill_free_list 0 number_identifiers start) (Filled number_identifiers) IsNew
        (fill_free_list-Filled 0 number_identifiers start refl (record {
          ring = record {
            some_capacity = omega arith;
            capacity_small = omega arith;
            at_most = omega arith;
            out_inside = omega arith;
            in_behind = refl;
          };
          capacity = refl;
          count = refl;
          separate = tt;
          below = tt;
          unused = λ v. refl;
          no_value = λ v. refl;
          no_descr = λ v. refl;
        }))
        Filled-IsNew)
  where
    start : ArrayContents
    start = new_contents vs ds stats entries values descrs ring

    fits : (s m : ℕ) → s < 2 ^ 64 → m + 8 < s → leb ((s + 2 ^ 64 - 8) % 2 ^ 64) m ≡ false
    fits s m y z = ground arith
