-- ===== src/Pool/Create.antt =====
-- A fresh pool meets the invariant: all blocks are free.
use x_fapi.Prelude.{
  ℕ, zero, suc, ◌+◌, ◌-◌, ◌*◌, ◌≤◌, ◌≡◌, refl, sym, ap, ap₂, subst, ◌∙◌, Bool, true, false, List,
  [], ◌∷◌, ◌++◌, append-nil, append_assoc,
}
use x_fapi.Prelude.{
  Option, none, some, arith, ltb, if◌then◌else◌, ltb→ge, length, set, take, All, replicate,
  length-set, length-replicate, take-set, copies, copies-append,
}
use x_fapi.Pool.{Slot, Pool, emptied, filled, pool_create, zeroed_slot}
use x_fapi.Pool.View.{free, all_held, total_held, IsSlot, IsPool}

-- 2047 - i, …
abbrev down : ℕ → ℕ → List ℕ
down zero i = []
down (suc n) i = (2048 - 1 - i) ∷ down n (i + 1)

length-filled : (n i : ℕ) (fl : List ℕ) → length (filled n i fl) ≡ length fl
unfolding filled
length-filled zero i fl = refl
length-filled (suc n) i fl =
    length-filled n (i + 1) (set fl i (2048 - 1 - i)) ∙ length-set fl i (2048 - 1 - i)

filled_lem :
    (n i : ℕ) (fl : List ℕ)
    → i + n ≤ length fl
    → take (i + n) (filled n i fl) ≡ take i fl ++ down n i
unfolding filled
filled_lem zero i fl h =
    let e : i + 0 ≡ i = omega arith in ap (λ k. take k fl) e ∙ sym (append-nil (take i fl))
filled_lem (suc n) i fl h =
    let e : i + suc n ≡ (i + 1) + n = omega arith in
    ap (λ k. take k (filled n (i + 1) (set fl i (2048 - 1 - i)))) e
    ∙ filled_lem n (i + 1) (set fl i (2048 - 1 - i)) (omega (arith, length-set fl i (2048 - 1 - i)))
    ∙ ap (λ l. l ++ down n (i + 1)) (take-set fl i (2048 - 1 - i) (omega arith))
    ∙ append_assoc (take i fl) ((2048 - 1 - i) ∷ []) (down n (i + 1))

copies-down : (a n i : ℕ) → i + n ≡ 2048 → copies a (down n i) ≡ (if ltb a n then 1 else 0)
copies-down a zero i h = ground arith
copies-down a (suc n) i h = ground (arith, copies-down a n (i + 1))

nothing_held : (s : Slot) (n : ℕ) → all_held (replicate n (emptied s)) ≡ []
unfolding all_held
nothing_held s zero = refl
nothing_held s (suc n) = nothing_held s n

none_held : (s : Slot) (n : ℕ) → total_held (replicate n (emptied s)) ≡ 0
unfolding total_held
none_held s zero = refl
none_held s (suc n) = omega (arith, none_held s n)

every_slot_empty :
    (s : Slot) (n : ℕ) → length s.buffers ≡ 256 → All IsSlot (replicate n (emptied s))
every_slot_empty s zero l = tt
every_slot_empty s (suc n) l = ((l, omega arith), every_slot_empty s n l)

-- The pool that is returned, over any slot as `calloc` gives it.
abbrev pub fresh : ℕ → List ℕ → Slot → Pool
fresh base_va zeroes s = record {
  base_va = base_va;
  free_list = filled 2048 0 zeroes;
  free_top = 2048;
  slots = replicate 16 (emptied s);
  total_acquired = 0;
  total_recycled = 0;
  acquire_failures = 0;
}

and_nothing : (n : ℕ) → n + 0 ≡ n
and_nothing n = omega arith

module _ (base_va : ℕ) (zeroes : List ℕ) (s : Slot) (size : length zeroes ≡ 2048)
    (ok : length s.buffers ≡ 256) where
  fresh-free : free (fresh base_va zeroes s) ≡ down 2048 0
  fresh-free = filled_lem 2048 0 zeroes (omega arith)

  pub fresh-IsPool : IsPool (fresh base_va zeroes s)
  fresh-IsPool = record {
    list_size = length-filled 2048 0 zeroes ∙ size;
    depth = length-replicate {A = Slot} 16 (emptied s);
    slots_ok = every_slot_empty s 16 ok;
    total = omega (arith, none_held s 16);
    once = λ a.
        copies-append a (free (fresh base_va zeroes s)) (all_held (replicate 16 (emptied s)))
        ∙ ap₂ (λ m n. m + n) (ap (copies a) fresh-free ∙ copies-down a 2048 0 refl)
            (ap (copies a) (nothing_held s 16))
        ∙ and_nothing (if ltb a 2048 then 1 else 0);
  }

built :
    (small : Bool) (q p : Pool)
    → (if small then none else some q) ≡ some p
    → (small ≡ false) × (q ≡ p)
built true q p e = absurd (cc)
built false q p e = (refl, ap (λ (o : Option Pool). elim o [ none ↦ q | some r ↦ r ]) e)

-- A pool that is created has each of its 2048 blocks in one place, and was created over a region
-- that is not NULL and has room for 2048 blocks of 128 KiB.
pub pool_create_lem :
    (region : Option ℕ) (region_size : ℕ) (pool_memory list_memory : Bool) (p : Pool)
    → pool_create region region_size pool_memory list_memory ≡ some p
    → IsPool p × (region ≡ some p.base_va) × (2048 * (128 * 1024) ≤ region_size)
unfolding pool_create
pool_create_lem none region_size m l p e = absurd (cc)
pool_create_lem (some base_va) region_size false l p e = absurd (cc)
pool_create_lem (some base_va) region_size true false p e = absurd (cc)
pool_create_lem (some base_va) region_size true true p e =
    let zeroes : List ℕ = replicate 2048 0 in
    let (big, same) =
      built (ltb region_size (128 * 1024 * 2048)) (fresh base_va zeroes zeroed_slot) p e in
    (
      subst IsPool same (
          fresh-IsPool base_va zeroes zeroed_slot (length-replicate {A = ℕ} 2048 0)
            (length-replicate {A = ℕ} 256 0)),
      ap (λ (q : Pool). some q.base_va) same,
      ltb→ge region_size (128 * 1024 * 2048) big,
    )
