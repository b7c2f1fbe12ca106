-- ===== src/Indication/Relay.antt =====
-- The frame that the CRC, RX_DATA, UCI and RACH indications share: read the head, write the OCUDU
-- head, translate the PDUs one by one, and deliver the body unless a cursor has an error.
pub mod Spec
pub mod Laws
pub mod Pieces
pub mod InTurn
use x_fapi.Prelude.{ℕ, zero, suc, ◌+◌, ◌-◌, ◌*◌, ◌%◌, ◌^◌, Bool, true, false, ◌||◌, List}
use x_fapi.Prelude.{Option, none, some, ltb, if◌then◌else◌, drop, ℤ, pos, negsuc}
use x_fapi.Wire.Cursor.{Cursor, Rd, ◌>>=◌, ◌>>◌, return, be_u16}
use x_fapi.Wire.Writer.{Writer, written, wr_init, wr_u8, wr_u16, wr_u32, ◌⨾◌}

-- What a translator does: it drops the message and returns -1, or hands a body to `ocudu_l2_xsm_put`.
pub data Delivery : Type 0 where
  dropped : Delivery
  put : ℕ → List ℕ → Delivery

-- The numerology latched in the VNF state (none for a null pointer), 1 if it is out of range.
unfoldable pub mu_of : Option ℤ → ℕ
mu_of none = 1
mu_of (some (pos n)) = if ltb n 5 then n else 1
mu_of (some (negsuc n)) = 1

-- `count = sfn * (10u << mu) + slot`, in `uint32_t`.
unfoldable pub slot_count : ℕ → ℕ → ℕ → ℕ
slot_count mu sfn slot = (sfn * (10 * 2 ^ mu % 2 ^ 32) % 2 ^ 32 + slot) % 2 ^ 32

pub record Head : Type 0 where
  pub sfn : ℕ
  pub slot : ℕ
  pub pdus : ℕ

unfoldable pub read_head : Rd ℕ → Rd Head
unfolding ◌>>=◌
read_head read_count = do
  sfn ← be_u16
  slot ← be_u16
  n ← read_count
  return (record { sfn = sfn; slot = slot; pdus = n })

-- slot_point_extended {valid, numerology, count}, then the number of PDUs.
unfoldable pub write_head : ℕ → Head → Writer → Writer
unfolding slot_count ◌⨾◌
write_head mu h = wr_u8 1 ⨾ wr_u8 mu ⨾ wr_u32 (slot_count mu h.sfn h.slot) ⨾ wr_u16 h.pdus

-- One round of the PDU loop, over both cursors.
abbrev pub Round : Type 0
Round = Cursor → Writer → Cursor × Writer

-- Read a PDU; on an error leave the loop, else write its translation.
unfoldable pub read_write {ℓ} : {A : Type ℓ} → Rd A → (A → Writer → Writer) → Round
read_write m enc r w = let (a, r') = m r in if r'.error then (r', w) else (r', enc a w)

-- `for (i = 0; i < n; ++i) { …; if (r.err) break; … }`
unfoldable pub pdu_loop : ℕ → Round → Round
pdu_loop zero round r w = (r, w)
pdu_loop (suc n) round r w =
    let (r', w') = round r w in
    let rest = pdu_loop n round r' w' in if r'.error then (r', w') else rest

-- The body of a translator behind its length check. `scratch` is what the body buffer held.
unfoldable pub relay : Rd ℕ → Round → ℕ → ℕ → List ℕ → ℕ → Cursor → Delivery
relay read_count round msg_type mu scratch cap r =
    let (h, r1) = read_head read_count r in
    let (r2, w) = pdu_loop h.pdus round r1 (write_head mu h (wr_init scratch cap)) in
    if r2.error || w.error then dropped else put msg_type (written w)

-- The cursor over the nFAPI body: `{ nfapi_msg + HEADER, len - HEADER, 0, 0 }`.
abbrev pub body_cursor : ℕ → List ℕ → ℕ → Cursor
body_cursor header msg len = record {
  buf = drop header msg;
  len = len - header;
  off = 0;
  error = false;
}
