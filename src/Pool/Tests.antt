-- ===== src/Pool/Tests.antt =====
-- Runs of the block pool.
use x_fapi.Prelude.{
  ℕ, ◌≡◌, refl, List, [], ◌∷◌, some, arith, replicate, length-replicate, copies, true, ◌*◌, ◌^◌,
  ◌≤◌,
}
use x_fapi.Pool.{
  Pool, pool_create, pool_acquire, on_slot_indication, Op, acquire, tick, run, filled,
}
use x_fapi.Pool.View.{free, IsPool}
use x_fapi.Pool.Laws.{pool_acquire_lem, Grants}
use x_fapi.Pool.Create.{fresh, fresh-IsPool, pool_create_lem}
use x_fapi.Pool.Age.{in_slot, run-IsPool, block_reserved, block_returned}

-- A pool over a region at address 4096.
abbrev made : Pool
made = fresh 4096 (replicate 2048 0) (record { buffers = replicate 256 0; count = 0 })

pool_create_lem_example :
    IsPool made × (some 4096 ≡ some made.base_va) × (2048 * (128 * 1024) ≤ 2 ^ 28)
pool_create_lem_example =
    pool_create_lem (some 4096) (2 ^ 28) true true made (unfold pool_create in refl)

made-IsPool : IsPool made
made-IsPool =
    fresh-IsPool 4096 (replicate 2048 0) (record { buffers = replicate 256 0; count = 0 })
      (length-replicate {A = ℕ} 2048 0) (length-replicate {A = ℕ} 256 0)

first_block : (pool_acquire made).0 ≡ some 0
unfolding pool_acquire filled
first_block = refl

pool_acquire_lem_example : IsPool (pool_acquire made).1 × Grants made (pool_acquire made)
pool_acquire_lem_example = pool_acquire_lem made made-IsPool

run-IsPool_example : IsPool (run (acquire ∷ tick ∷ acquire ∷ []) made)
run-IsPool_example = run-IsPool (acquire ∷ tick ∷ acquire ∷ []) made made-IsPool

block_reserved_example :
    (copies 0 (free (run (tick ∷ acquire ∷ []) (pool_acquire made).1)) ≡ 0)
    × (in_slot 0 14 (run (tick ∷ acquire ∷ []) (pool_acquire made).1) ≡ 1)
block_reserved_example =
    block_reserved made 0 made-IsPool first_block (tick ∷ acquire ∷ []) (omega arith)

abbrev fifteen : List Op
fifteen = acquire ∷ replicate 15 tick

block_returned_example :
    copies 0 (free (on_slot_indication (run fifteen (pool_acquire made).1))) ≡ 1
block_returned_example = block_returned made 0 made-IsPool first_block fifteen refl
