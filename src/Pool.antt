-- ===== src/Pool.antt =====
-- core/OCUDU_OCUDU/pair0_master_pool.c: the blocks of a shared-memory region, handed out to messages
-- and taken back sixteen slots later. Each operation is the section that runs under the mutex.
pub mod View
pub mod Laws
pub mod Recycle
pub mod Age
pub mod Create
mod Tests
use x_fapi.Prelude.{ℕ, zero, suc, ◌+◌, ◌-◌, ◌*◌, ◌%◌, ◌^◌, Bool, true, false, List, [], ◌∷◌}
use x_fapi.Prelude.{Option, none, some, leb, ltb, ◌==◌, if◌then◌else◌, get_or, set, replicate}

-- POOL_BLOCK_SIZE, POOL_BLOCK_COUNT, DL_SLOT_DEPTH and DL_MAX_PER_SLOT
abbrev pub block_size : ℕ
block_size = 128 * 1024

abbrev pub block_count : ℕ
block_count = 2048

abbrev pub slot_depth : ℕ
slot_depth = 16

abbrev pub max_per_slot : ℕ
max_per_slot = 256

-- `slot_t`
pub record Slot : Type 0 where
  pub buffers : List ℕ
  pub count : ℕ

-- `struct pair0_master_pool`, less the mutex and the two constants.
pub record Pool : Type 0 where
  pub base_va : ℕ
  pub free_list : List ℕ
  pub free_top : ℕ
  pub slots : List Slot
  pub total_acquired : ℕ
  pub total_recycled : ℕ
  pub acquire_failures : ℕ

abbrev pub no_slot : Slot
no_slot = record { buffers = []; count = 0 }

-- `free_list[i] = POOL_BLOCK_COUNT - 1u - i`
unfoldable pub filled : ℕ → ℕ → List ℕ → List ℕ
filled zero i fl = fl
filled (suc n) i fl = filled n (i + 1) (set fl i (block_count - 1 - i))

-- What `calloc` gives: zeroed memory, or none.
abbrev pub zeroed_slot : Slot
zeroed_slot = record { buffers = replicate max_per_slot 0; count = 0 }

-- `region` is the address of the region (none for NULL); `pool_memory` and `list_memory` say whether the
-- two allocations succeed.
unfoldable pub pool_create : Option ℕ → ℕ → Bool → Bool → Option Pool
unfolding filled
pool_create none region_size pool_memory list_memory = none
pool_create (some region_va) region_size false list_memory = none
pool_create (some region_va) region_size true false = none
pool_create (some region_va) region_size true true =
    if ltb region_size (block_size * block_count)
    then none
    else some (record {
      base_va = region_va;
      free_list = filled block_count 0 (replicate block_count 0);
      free_top = block_count;
      slots = replicate slot_depth zeroed_slot;
      total_acquired = 0;
      total_recycled = 0;
      acquire_failures = 0;
    })

-- The counters are `uint64_t`. A block is given by its index; `va_of` has its address.
unfoldable pub pool_acquire : Pool → Option ℕ × Pool
pool_acquire p =
    if p.free_top == 0
    then (none, record p { acquire_failures = (p.acquire_failures + 1) % 2 ^ 64 })
    else let top = p.free_top - 1 in
      let idx = get_or p.free_list top 0 in
      let cur = get_or p.slots (slot_depth - 1) no_slot in
      if leb max_per_slot cur.count
      then (
        none,
        record p {
          free_list = set p.free_list top idx;
          free_top = top + 1;
          acquire_failures = (p.acquire_failures + 1) % 2 ^ 64;
        },
      )
      else (
        some idx,
        record p {
          free_top = top;
          slots =
              set p.slots (slot_depth - 1)
                (record { buffers = set cur.buffers cur.count idx; count = cur.count + 1 });
          total_acquired = (p.total_acquired + 1) % 2 ^ 64;
        },
      )

abbrev pub va_of : Pool → ℕ → ℕ
va_of p idx = p.base_va + idx * block_size

-- `for (i = 0; i < oldest->count; ++i) free_list[free_top++] = oldest->buffers[i];`
unfoldable pub recycle : List ℕ → ℕ → ℕ → List ℕ → ℕ → List ℕ × ℕ
recycle buffers i zero fl top = (fl, top)
recycle buffers i (suc n) fl top =
    recycle buffers (i + 1) n (set fl top (get_or buffers i 0)) (top + 1)

-- `for (k = 0; k + 1u < DL_SLOT_DEPTH; ++k) slots[k] = slots[k + 1u];`
unfoldable pub shift : ℕ → ℕ → List Slot → List Slot
shift zero k slots = slots
shift (suc n) k slots = shift n (k + 1) (set slots k (get_or slots (k + 1) no_slot))

abbrev pub emptied : Slot → Slot
emptied s = record s { count = 0 }

unfoldable pub on_slot_indication : Pool → Pool
unfolding recycle shift
on_slot_indication p =
    let oldest = get_or p.slots 0 no_slot in
    let (fl, top) = recycle oldest.buffers 0 oldest.count p.free_list p.free_top in
    let shifted = shift (slot_depth - 1) 0 (set p.slots 0 (emptied oldest)) in
    record p {
      free_list = fl;
      free_top = top;
      slots = set shifted (slot_depth - 1) (emptied (get_or shifted (slot_depth - 1) no_slot));
      total_recycled = (p.total_recycled + oldest.count) % 2 ^ 64;
    }

-- The operations, in any order in which threads get hold of the mutex.
pub data Op : Type 0 where
  acquire : Op
  tick : Op

unfoldable pub step : Op → Pool → Pool
unfolding pool_acquire on_slot_indication
step acquire p = (pool_acquire p).1
step tick p = on_slot_indication p

unfoldable pub run : List Op → Pool → Pool
unfolding step
run [] p = p
run (op ∷ ops) p = run ops (step op p)
