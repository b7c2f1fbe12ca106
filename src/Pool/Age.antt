-- ===== src/Pool/Age.antt =====
-- The life of a block: from its acquire it is in use for fifteen slot indications, and the next frees it.
use x_fapi.Prelude.{
  ℕ, zero, suc, ◌-◌, ◌≤◌, ◌<◌, ◌≡◌, ◌≢◌, refl, sym, ap, subst, ◌∙◌, List, [], ◌∷◌, ◌++◌,
}
use x_fapi.Prelude.{
  Option, some, arith, ◌==◌, Bool-cases, inl, inr, length, get_or, drop, get-set, get-set_other,
  copies, copies-append,
}
use x_fapi.Pool.{
  Slot, Pool, no_slot, emptied, pool_acquire, on_slot_indication, Op, acquire, tick, step, run,
}
use x_fapi.Pool.View.{free, held, all_held, IsSlot, IsPool}
use x_fapi.Pool.Laws.{
  All-get, refused, granted, acquired_or_not, moved, current, top_block, holding, copies-holding,
  copies-held_le, acquire-IsPool, pool_acquire_lem, Grants,
}
use x_fapi.Pool.Recycle.{tick-IsPool, tick-slots, copies-tick_free}

pub step-IsPool : (op : Op) (p : Pool) → IsPool p → IsPool (step op p)
unfolding step
step-IsPool acquire p v = acquire-IsPool p v
step-IsPool tick p v = tick-IsPool p v

-- Every sequence of acquires and slot indications, in the order in which they get hold of the
-- mutex, keeps each of the 2048 blocks in one place, free or held by one slot, and once there, and
-- no other index anywhere, with no slot over 256 blocks, from a pool where this holds.
pub run-IsPool : (ops : List Op) (p : Pool) → IsPool p → IsPool (run ops p)
unfolding run
run-IsPool [] p v = v
run-IsPool (op ∷ ops) p v = run-IsPool ops (step op p) (step-IsPool op p v)

-- How often a block is in a slot.
abbrev pub in_slot : ℕ → ℕ → Pool → ℕ
in_slot a i p = copies a (held (get_or p.slots i no_slot))

abbrev pub ticks : List Op → ℕ
ticks [] = 0
ticks (acquire ∷ ops) = ticks ops
ticks (tick ∷ ops) = suc (ticks ops)

moved-in_slot :
    (a i : ℕ) (p : Pool)
    → IsPool p
    → i ≤ 15
    → (current p).count < 256
    → in_slot a i p ≤ in_slot a i (moved p)
moved-in_slot a i p v h r =
    let at : 15 < length p.slots = omega (arith, v.depth) in
    let more : copies a (held (current p)) ≤ copies a (held (holding (current p) (top_block p))) =
      omega (
        arith,
        copies-holding a (current p) (top_block p) (All-get IsSlot p.slots 15 at v.slots_ok) r,
      ) in
    let stored : in_slot a 15 (moved p) ≡ copies a (held (holding (current p) (top_block p))) =
      ap (λ (s : Slot). copies a (held s))
        (get-set p.slots 15 (holding (current p) (top_block p)) no_slot at) in
    elim (Bool-cases (i == 15)) [
      | inl e ↦
          let same : i ≡ 15 = ground (arith, e) in
          subst (λ (k : ℕ). in_slot a k p ≤ in_slot a k (moved p)) (sym same)
            (omega (arith, more, stored))
      | inr e ↦
          let other : i ≢ 15 = ground (arith, e) in
          let kept : in_slot a i (moved p) ≡ in_slot a i p =
            ap (λ (s : Slot). copies a (held s))
              (get-set_other p.slots i 15 (holding (current p) (top_block p)) no_slot other) in
          omega (arith, kept)
    ]

acquire-in_slot :
    (a i : ℕ) (p : Pool) → IsPool p → i ≤ 15 → in_slot a i p ≤ in_slot a i (pool_acquire p).1
acquire-in_slot a i p v h = elim (acquired_or_not p) [
  | refused why e ↦
      subst (λ (o : Option ℕ × Pool). in_slot a i p ≤ in_slot a i o.1) (sym e) (omega arith)
  | granted f r e ↦
      subst (λ (o : Option ℕ × Pool). in_slot a i p ≤ in_slot a i o.1) (sym e)
        (moved-in_slot a i p v h r)
]

get-drop :
    (ss : List Slot) (i : ℕ) (s : Slot)
    → suc i < length ss
    → get_or (drop 1 ss ++ (s ∷ [])) i no_slot ≡ get_or ss (suc i) no_slot
get-drop [] i s h = absurd (omega arith)
get-drop (x ∷ ss) i s h = get-append ss i s (omega arith)
  where
    get-append :
        (ss : List Slot) (i : ℕ) (s : Slot)
        → i < length ss
        → get_or (ss ++ (s ∷ [])) i no_slot ≡ get_or ss i no_slot
    get-append [] i s h = absurd (omega arith)
    get-append (x ∷ ss) zero s h = refl
    get-append (x ∷ ss) (suc i) s h = get-append ss i s (omega arith)

tick-in_slot :
    (a i : ℕ) (p : Pool)
    → IsPool p
    → i < 15
    → in_slot a i (on_slot_indication p) ≡ in_slot a (suc i) p
tick-in_slot a i p v h =
    ap (λ (ss : List Slot). copies a (held (get_or ss i no_slot))) (tick-slots p v)
    ∙ ap (λ (s : Slot). copies a (held s))
        (get-drop p.slots i (emptied (get_or p.slots 15 no_slot)) (omega (arith, v.depth)))

-- A block moves one slot towards the oldest with each indication, and acquires leave it there.
run-in_slot :
    (ops : List Op) (a i : ℕ) (p : Pool)
    → IsPool p
    → ticks ops ≤ i
    → i ≤ 15
    → in_slot a i p ≤ in_slot a (i - ticks ops) (run ops p)
unfolding run step
run-in_slot [] a i p v t h =
    let e : i - 0 ≡ i = omega arith in
    let same : in_slot a (i - 0) p ≡ in_slot a i p = ap (λ k. in_slot a k p) e in
    omega (arith, same)
run-in_slot (acquire ∷ ops) a i p v t h = omega (
  arith,
  acquire-in_slot a i p v h,
  run-in_slot ops a i (pool_acquire p).1 (acquire-IsPool p v) t h,
)
run-in_slot (tick ∷ ops) a zero p v t h = absurd (omega arith)
run-in_slot (tick ∷ ops) a (suc i) p v t h =
    let e : suc i - suc (ticks ops) ≡ i - ticks ops = omega arith in
    let same : in_slot a (suc i - suc (ticks ops)) (run ops (on_slot_indication p))
        ≡ in_slot a (i - ticks ops) (run ops (on_slot_indication p)) =
      ap (λ k. in_slot a k (run ops (on_slot_indication p))) e in
    omega (
      arith,
      same,
      tick-in_slot a i p v (omega arith),
      run-in_slot ops a i (on_slot_indication p) (tick-IsPool p v) (omega arith) (omega arith),
    )

-- One block is in one place.
free_or_held :
    (a i : ℕ) (p : Pool)
    → IsPool p
    → i ≤ 15
    → 1 ≤ in_slot a i p
    → (copies a (free p) ≡ 0) × (in_slot a i p ≡ 1)
free_or_held a i p v h here =
    let at : i < length p.slots = omega (arith, v.depth) in
    ground
      (arith, v.once a, copies-append a (free p) (all_held p.slots), copies-held_le a p.slots i at)

module _ (p : Pool) (idx : ℕ) (v : IsPool p) (got : (pool_acquire p).0 ≡ some idx) where
  after_acquire : in_slot idx 15 (pool_acquire p).1 ≡ 1
  after_acquire =
      (subst (λ (o : Option ℕ). Grants p (o, (pool_acquire p).1)) got (pool_acquire_lem p v).1).2

  still_held :
      (ops : List Op)
      → ticks ops ≤ 15
      → 1 ≤ in_slot idx (15 - ticks ops) (run ops (pool_acquire p).1)
  still_held ops h = omega (
    arith,
    after_acquire,
    run-in_slot ops idx 15 (pool_acquire p).1 (acquire-IsPool p v) h (omega arith),
  )

  -- A block that was acquired is not free, and is held by just one place of the slot that has aged
  -- with it, after every sequence of acquires and at most 15 slot indications, from a pool where
  -- each block is in one place.
  pub block_reserved :
      (ops : List Op)
      → ticks ops ≤ 15
      → (copies idx (free (run ops (pool_acquire p).1)) ≡ 0)
        × (in_slot idx (15 - ticks ops) (run ops (pool_acquire p).1) ≡ 1)
  block_reserved ops h =
      free_or_held idx (15 - ticks ops) (run ops (pool_acquire p).1)
        (run-IsPool ops (pool_acquire p).1 (acquire-IsPool p v)) (omega arith) (still_held ops h)

  -- A block that was acquired is free once more, and once only, after any sequence of acquires and
  -- 15 slot indications and the slot indication behind it, from a pool where each block is in one
  -- place.
  pub block_returned :
      (ops : List Op)
      → ticks ops ≡ 15
      → copies idx (free (on_slot_indication (run ops (pool_acquire p).1))) ≡ 1
  block_returned ops h =
      let q : Pool = run ops (pool_acquire p).1 in
      let ok : IsPool q = run-IsPool ops (pool_acquire p).1 (acquire-IsPool p v) in
      let oldest : 15 - ticks ops ≡ 0 = omega arith in
      let here : in_slot idx 0 q ≡ 1 =
        ap (λ k. in_slot idx k q) (sym oldest) ∙ (block_reserved ops (omega arith)).1 in
      omega (arith, copies-tick_free q ok idx, here, block_reserved ops (omega arith))
