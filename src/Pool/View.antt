-- ===== src/Pool/View.antt =====
-- What a pool stands for: the stack of free blocks, and the blocks held by each slot.
use x_fapi.Prelude.{
  ℕ, ◌+◌, ◌≤◌, ◌≡◌, List, [], ◌∷◌, ◌++◌, ltb, if◌then◌else◌, length, take, All, copies,
}
use x_fapi.Pool.{Slot, Pool}

abbrev pub free : Pool → List ℕ
free p = take p.free_top p.free_list

abbrev pub held : Slot → List ℕ
held s = take s.count s.buffers

unfoldable pub all_held : List Slot → List ℕ
all_held [] = []
all_held (s ∷ ss) = held s ++ all_held ss

abbrev pub blocks : Pool → List ℕ
blocks p = free p ++ all_held p.slots

unfoldable pub total_held : List Slot → ℕ
total_held [] = 0
total_held (s ∷ ss) = s.count + total_held ss

abbrev pub IsSlot : Slot → Type 0
IsSlot s = (length s.buffers ≡ 256) × (s.count ≤ 256)

-- Every block of the region is in one place, free or held by one slot, and once there; nothing else is.
pub record IsPool (p : Pool) : Type 0 where
  pub list_size : length p.free_list ≡ 2048
  pub depth : length p.slots ≡ 16
  pub slots_ok : All IsSlot p.slots
  pub total : p.free_top + total_held p.slots ≡ 2048
  pub once : (a : ℕ) → copies a (blocks p) ≡ (if ltb a 2048 then 1 else 0)
