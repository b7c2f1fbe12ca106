-- ===== src/Request/Config.antt =====
-- L2_to_L1/P5/config_request.c, `ocudu_l2l1_config_request` with `config_req_free`: read the cell, latch its
-- numerology and identity, build the nFAPI message on the heap, send it, and free the heap. What is sent
-- and the calls of the allocator are outputs; whether an allocation succeeds is an input.
pub mod Values
pub mod Cell
pub mod Message
pub mod Spec
pub mod Laws
pub mod Bitmap
pub mod Heap
pub mod Tdd
pub mod Roots
pub mod Mask
mod Tests
use x_fapi.Prelude.{
  ℕ, zero, suc, ◌+◌, Bool, true, false, not, List, [], ◌∷◌, ◌++◌, Option, none, some, ℤ, negsuc,
  if◌then◌else◌,
}
use x_fapi.Wire.Cursor.{rd_init}
use x_fapi.Request.Config.Cell.{CellConfiguration, read_cell}
use x_fapi.Request.Config.Message.{ConfigReq, Local, cell_mu, n_slots, wants_tdd, config_message}

-- The blocks on the heap, by number: the message, its PRACH list, its TDD list, and the symbols of a slot.
abbrev pub request : ℕ
request = 0

abbrev pub prach_list : ℕ
prach_list = 1

abbrev pub tdd_list : ℕ
tdd_list = 2

abbrev pub slot_list : ℕ → ℕ
slot_list s = 3 + s

pub data HeapOp : Type 0 where
  alloc : ℕ → HeapOp
  release : ℕ → HeapOp

-- How the translator ends: in the endless loop over the bitmap; with -1 for a body that is too short and
-- nothing changed; or with the numerology and the cell identity latched, the calls of the allocator,
-- the message that is sent (if it gets there), and the return code.
pub data ConfigOutcome : Type 0 where
  hangs : ConfigOutcome
  refused : ConfigOutcome
  ended : ℕ → ℕ → List HeapOp → Option ConfigReq → ℤ → ConfigOutcome

-- The slots from `s` on, with `n` to go, up to the first allocation that fails.
unfoldable pub alloc_slots : (ℕ → Bool) → ℕ → ℕ → List HeapOp × Option ℕ
alloc_slots mem s zero = ([], none)
alloc_slots mem s (suc n) =
    let (ops, failed) = alloc_slots mem (s + 1) n in
    if mem (slot_list s) then (alloc (slot_list s) ∷ ops, failed) else ([], some s)

unfoldable pub free_slots : ℕ → ℕ → List HeapOp
free_slots s zero = []
free_slots s (suc n) = release (slot_list s) ∷ free_slots (s + 1) n

-- `config_req_free` on a message whose PRACH list is there: `tdd` says that the TDD list is.
unfoldable pub config_req_free : Bool → ℕ → List HeapOp
unfolding free_slots
config_req_free tdd n =
    release prach_list ∷ (if tdd then free_slots 0 n ++ (release tdd_list ∷ []) else [])

-- The end of the function, over the calls so far.
abbrev pub send_and_free :
    (ConfigReq → ℤ) → ConfigReq → List HeapOp → Bool → ℕ → List HeapOp × Option ConfigReq × ℤ
send_and_free send m ops tdd n =
    (ops ++ (config_req_free tdd n ++ (release request ∷ [])), some m, send m)

-- Behind the slots, over the calls so far: none failed, or slot `s` did.
abbrev pub after_slots :
    (ConfigReq → ℤ) → ConfigReq → List HeapOp → ℕ → Option ℕ → List HeapOp × Option ConfigReq × ℤ
after_slots send m ops n none = send_and_free send m ops true n
after_slots send m ops n (some s) = (
  ops
      ++ (free_slots 0 s
          ++ (release tdd_list ∷ (config_req_free false 0 ++ (release request ∷ [])))),
  none,
  negsuc 0,
)

-- The TDD table, over the calls so far.
unfoldable pub fill_tdd :
    (ℕ → Bool) → (ConfigReq → ℤ) → ConfigReq → List HeapOp → ℕ → List HeapOp × Option ConfigReq × ℤ
unfolding alloc_slots config_req_free
fill_tdd mem send m ops n =
    if not (mem tdd_list)
    then (ops ++ (config_req_free false 0 ++ (release request ∷ [])), none, negsuc 0)
    else let (slots, failed) = alloc_slots mem 0 n in
      after_slots send m (ops ++ (alloc tdd_list ∷ slots)) n failed

-- Behind the latches. `tdd` says that the cell has a TDD table.
unfoldable pub build :
    (ℕ → Bool) → (ConfigReq → ℤ) → ConfigReq → Bool → ℕ → List HeapOp × Option ConfigReq × ℤ
unfolding fill_tdd
build mem send m tdd n =
    if not (mem request)
    then ([], none, negsuc 0)
    else if not (mem prach_list)
    then (alloc request ∷ release request ∷ [], none, negsuc 0)
    else if tdd
    then fill_tdd mem send m (alloc request ∷ alloc prach_list ∷ []) n
    else send_and_free send m (alloc request ∷ alloc prach_list ∷ []) false n

abbrev pub built : ℕ → ℕ → List HeapOp × Option ConfigReq × ℤ → ConfigOutcome
built mu pci (ops, m, rc) = ended mu pci ops m rc

-- Behind the reads, none of which failed.
unfoldable pub configure : (ℕ → Bool) → Local → (ConfigReq → ℤ) → CellConfiguration → ConfigOutcome
unfolding build
configure mem l send c = elim c.ssb.bitmap [
  | none ↦ hangs
  | some bitmap ↦
      built (cell_mu c.carrier) c.carrier.pci (
        build mem send (config_message l c bitmap) (wants_tdd c.carrier c.tail) (n_slots c.carrier))
]

-- An error is latched only where the bitmap has ended: a cursor with an error reads 0 bits.
unfoldable pub config_request : (ℕ → Bool) → Local → (ConfigReq → ℤ) → List ℕ → ℕ → ConfigOutcome
unfolding configure
config_request mem l send body body_len =
    let (c, r) = read_cell (rd_init body body_len) in
    if r.error then refused else configure mem l send c
