-- ===== src/Pool/Laws.antt =====
-- Acquiring: which block is handed out, and that the invariant holds.
use x_fapi.Prelude.{
  ℕ, zero, suc, ◌+◌, ◌-◌, ◌%◌, ◌^◌, ◌≤◌, ◌<◌, ◌≡◌, refl, sym, ap, ap₂, subst, ◌⊎◌, ◌∙◌, Bool, true,
  false, List, [], ◌∷◌,
}
use x_fapi.Prelude.{
  Option, none, some, arith, leb, ◌==◌, if◌then◌else◌, inl, inr, length, get_or, set, take, All,
  length-set, get-set, take-suc, take-set, copies, copies-append,
}
use x_fapi.Pool.{Slot, Pool, no_slot, pool_acquire}
use x_fapi.Pool.View.{free, held, all_held, total_held, IsSlot, IsPool}

module _ (P : Slot → Type 0) where
  pub All-get : (ss : List Slot) (i : ℕ) → i < length ss → All P ss → P (get_or ss i no_slot)
  All-get [] i h a = absurd (omega arith)
  All-get (s ∷ ss) zero h a = a.0
  All-get (s ∷ ss) (suc i) h a = All-get ss i (omega arith) a.1

  pub All-set : (ss : List Slot) (i : ℕ) (s : Slot) → All P ss → P s → All P (set ss i s)
  All-set [] i s a p = tt
  All-set (x ∷ ss) zero s a p = (p, a.1)
  All-set (x ∷ ss) (suc i) s a p = (a.0, All-set ss i s a.1 p)

-- A slot in the list is replaced.
pub total_held-set :
    (ss : List Slot) (i : ℕ) (s : Slot)
    → i < length ss
    → total_held (set ss i s) + (get_or ss i no_slot).count ≡ total_held ss + s.count
unfolding total_held
total_held-set [] i s h = absurd (omega arith)
total_held-set (x ∷ ss) zero s h = omega arith
total_held-set (x ∷ ss) (suc i) s h = omega (arith, total_held-set ss i s (omega arith))

pub copies-all_held-set :
    (a : ℕ) (ss : List Slot) (i : ℕ) (s : Slot)
    → i < length ss
    → copies a (all_held (set ss i s)) + copies a (held (get_or ss i no_slot))
      ≡ copies a (all_held ss) + copies a (held s)
unfolding all_held
copies-all_held-set a [] i s h = absurd (omega arith)
copies-all_held-set a (x ∷ ss) zero s h =
    omega (arith, copies-append a (held x) (all_held ss), copies-append a (held s) (all_held ss))
copies-all_held-set a (x ∷ ss) (suc i) s h = omega (
  arith,
  copies-append a (held x) (all_held ss),
  copies-append a (held x) (all_held (set ss i s)),
  copies-all_held-set a ss i s (omega arith),
)

pub copies-held_le :
    (a : ℕ) (ss : List Slot) (i : ℕ)
    → i < length ss
    → copies a (held (get_or ss i no_slot)) ≤ copies a (all_held ss)
unfolding all_held
copies-held_le a [] i h = absurd (omega arith)
copies-held_le a (x ∷ ss) zero h = omega (arith, copies-append a (held x) (all_held ss))
copies-held_le a (x ∷ ss) (suc i) h =
    omega (arith, copies-append a (held x) (all_held ss), copies-held_le a ss i (omega arith))

-- The slot with one more block.
abbrev pub holding : Slot → ℕ → Slot
holding s idx = record { buffers = set s.buffers s.count idx; count = s.count + 1 }

pub holding-IsSlot : (s : Slot) (idx : ℕ) → IsSlot s → s.count < 256 → IsSlot (holding s idx)
holding-IsSlot s idx (l, c) h = (length-set s.buffers s.count idx ∙ l, omega arith)

pub copies-holding :
    (a : ℕ) (s : Slot) (idx : ℕ)
    → IsSlot s
    → s.count < 256
    → copies a (held (holding s idx)) ≡ copies a (held s) + copies a (idx ∷ [])
copies-holding a s idx (l, c) h =
    ap (copies a) (take-set s.buffers s.count idx (omega arith))
    ∙ copies-append a (held s) (idx ∷ [])

-- The last slot, to which an acquired block goes.
abbrev pub current : Pool → Slot
current p = get_or p.slots 15 no_slot

pub top_block : Pool → ℕ
top_block p = get_or p.free_list (p.free_top - 1) 0

module _ (p : Pool) (v : IsPool p) (some_free : 0 < p.free_top) where
  -- The free stack is the rest and the top block.
  pub copies-free :
      (a : ℕ)
      → copies a (free p)
        ≡ copies a (take (p.free_top - 1) p.free_list) + copies a (top_block p ∷ [])
  unfolding top_block
  copies-free a =
      let n : (p.free_top - 1) + 1 ≡ p.free_top = omega arith in
      ap (λ k. copies a (take k p.free_list)) (sym n)
      ∙ ap (copies a)
          (take-suc p.free_list (p.free_top - 1) 0 (omega (arith, v.list_size, v.total)))
      ∙ copies-append a (take (p.free_top - 1) p.free_list) (top_block p ∷ [])

-- A refused acquire counts the failure; a granted one moves the top block to the current slot.
abbrev pub failed : Pool → Pool
failed p = record p { acquire_failures = (p.acquire_failures + 1) % 2 ^ 64 }

abbrev pub moved : Pool → Pool
moved p = record p {
  free_top = p.free_top - 1;
  slots = set p.slots 15 (holding (current p) (top_block p));
  total_acquired = (p.total_acquired + 1) % 2 ^ 64;
}

abbrev no_block : Option ℕ
no_block = none

put_back : (l : List ℕ) (i : ℕ) → set l i (get_or l i 0) ≡ l
put_back [] i = refl
put_back (x ∷ l) zero = refl
put_back (x ∷ l) (suc i) = ap (λ r. x ∷ r) (put_back l i)

-- The two outcomes.
pub data Acquire (p : Pool) : Type 0 where
  refused :
      ((p.free_top ≡ 0) ⊎ (256 ≤ (current p).count)) → pool_acquire p ≡ (none, failed p) → Acquire p
  granted :
      0 < p.free_top
      → (current p).count < 256
      → pool_acquire p ≡ (some (top_block p), moved p)
      → Acquire p

module _ (p : Pool) where
  abbrev over : Bool → Option ℕ × Pool
  over full =
      if full
      then (
        none,
        record p {
          free_list = set p.free_list (p.free_top - 1) (top_block p);
          free_top = (p.free_top - 1) + 1;
          acquire_failures = (p.acquire_failures + 1) % 2 ^ 64;
        },
      )
      else (some (top_block p), moved p)

  abbrev chosen : Bool → Bool → Option ℕ × Pool
  chosen empty full = if empty then (none, failed p) else over full

  acquire_chosen : pool_acquire p ≡ chosen (p.free_top == 0) (leb 256 (current p).count)
  unfolding pool_acquire top_block
  acquire_chosen = refl

  restored : 0 < p.free_top → over true ≡ (none, failed p)
  unfolding top_block
  restored h =
      let n : (p.free_top - 1) + 1 ≡ p.free_top = omega arith in
      ap₂
        (λ (l : List ℕ) (t : ℕ). (
          no_block,
          record p {
            free_list = l;
            free_top = t;
            acquire_failures = (p.acquire_failures + 1) % 2 ^ 64;
          },
        ))
        (put_back p.free_list (p.free_top - 1)) n

  by_tests :
      (empty full : Bool)
      → (p.free_top == 0) ≡ empty
      → leb 256 (current p).count ≡ full
      → pool_acquire p ≡ chosen empty full
      → Acquire p
  by_tests true full e f c = refused (inl (ground (arith, e))) c
  by_tests false true e f c = refused (inr (ground (arith, f))) (c ∙ restored (ground (arith, e)))
  by_tests false false e f c = granted (ground (arith, e)) (ground (arith, f)) c

  pub acquired_or_not : Acquire p
  acquired_or_not = by_tests (p.free_top == 0) (leb 256 (current p).count) refl refl acquire_chosen

  moved-IsPool : IsPool p → 0 < p.free_top → (current p).count < 256 → IsPool (moved p)
  moved-IsPool v free_one room = record {
    list_size = v.list_size;
    depth = length-set p.slots 15 _ ∙ v.depth;
    slots_ok =
        All-set IsSlot p.slots 15 _ v.slots_ok (holding-IsSlot (current p) (top_block p) cur room);
    total =
        omega (arith, v.total, total_held-set p.slots 15 (holding (current p) (top_block p)) at);
    once = λ a. omega (
      arith,
      v.once a,
      copies-free p v free_one a,
      copies-append a (free p) (all_held p.slots),
      copies-append a (free (moved p)) (all_held (moved p).slots),
      copies-all_held-set a p.slots 15 (holding (current p) (top_block p)) at,
      copies-holding a (current p) (top_block p) cur room,
    );
  }
    where
      at : 15 < length p.slots
      at = omega (arith, v.depth)

      cur : IsSlot (current p)
      cur = All-get IsSlot p.slots 15 at v.slots_ok

  failed-IsPool : IsPool p → IsPool (failed p)
  failed-IsPool v = record {
    list_size = v.list_size;
    depth = v.depth;
    slots_ok = v.slots_ok;
    total = v.total;
    once = v.once;
  }

  pub acquire-IsPool : IsPool p → IsPool (pool_acquire p).1
  acquire-IsPool v = elim acquired_or_not [
    | refused why e ↦ subst (λ (o : Option ℕ × Pool). IsPool o.1) (sym e) (failed-IsPool v)
    | granted f r e ↦ subst (λ (o : Option ℕ × Pool). IsPool o.1) (sym e) (moved-IsPool v f r)
  ]

  -- What a caller learns from an acquire.
  abbrev pub Grants : Option ℕ × Pool → Type 0
  Grants (none, q) =
      ((p.free_top ≡ 0) ⊎ (256 ≤ (current p).count)) × (free q ≡ free p) × (q.slots ≡ p.slots)
  Grants (some idx, q) =
      (idx < 2048) × (copies idx (all_held p.slots) ≡ 0) × (copies idx (held (current q)) ≡ 1)

  top_lem :
      IsPool p → 0 < p.free_top → (current p).count < 256 → Grants (some (top_block p), moved p)
  top_lem v f r =
      let here : copies (top_block p) (top_block p ∷ []) ≡ 1 = ground arith in
      let split : _ ≡ _ = copies-append (top_block p) (free p) (all_held p.slots) in
      let top : _ ≡ _ = copies-free p v f (top_block p) in
      let low : top_block p < 2048 = ground (arith, v.once (top_block p), here, split, top) in
      let alone : copies (top_block p) (all_held p.slots) ≡ 0 =
        ground (arith, v.once (top_block p), here, split, top) in
      let at : 15 < length p.slots = omega (arith, v.depth) in
      (
        low,
        alone,
        ap (λ (s : Slot). copies (top_block p) (held s))
              (get-set p.slots 15 (holding (current p) (top_block p)) no_slot at)
            ∙ omega (
              arith,
              here,
              alone,
              copies-held_le (top_block p) p.slots 15 at,
              copies-holding (top_block p) (current p) (top_block p)
                  (All-get IsSlot p.slots 15 at v.slots_ok) r,
            ),
      )

  -- An acquire from a pool where each block is in one place keeps that so; it returns the index of a
  -- block below 2048 that no slot held before and that the current slot holds once, or nothing,
  -- which is only when no block is free or the current slot has 256, with the free blocks and the
  -- slots as they were.
  pub pool_acquire_lem : IsPool p → IsPool (pool_acquire p).1 × Grants (pool_acquire p)
  pool_acquire_lem v = (
    acquire-IsPool v,
    elim acquired_or_not [
      | refused why e ↦ subst Grants (sym e) (why, refl, refl)
      | granted f r e ↦ subst Grants (sym e) (top_lem v f r)
    ],
  )
