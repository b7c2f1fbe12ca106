-- ===== src/Request/Ul.antt =====
-- L2_to_L1/P7/ul_tti_request.c, `ocudu_l2l1_ul_tti_request`: the PDUs are walked in wire order, captured
-- by kind, and mapped to nFAPI kind by kind.
pub mod Corr
pub mod Mapping
pub mod Prach
pub mod Pusch
pub mod Pucch
pub mod Srs
pub mod Room
pub mod Spec
pub mod Laws
use x_fapi.Prelude.{
  ℕ, zero, suc, ◌+◌, ◌%◌, ◌^◌, Bool, true, false, ◌||◌, ◌&&◌, not, List, [], ◌∷◌, ◌++◌,
}
use x_fapi.Prelude.{ltb, ◌==◌, if◌then◌else◌, length, Option, none, some, map, ℤ, pos, negsuc}
use x_fapi.Wire.Cursor.{Cursor, Rd, ◌>>=◌, ◌>>◌, return, rd_init, rd_u8, rd_u16, rd_u32, rd_times}
use x_fapi.Request.{Outcome, fault, returned, send_by, slots_per_frame, sfn_of, slot_of}
use x_fapi.Request.Gather.{gather, add}
use x_fapi.Request.Ul.Prach.{CapPrach, read_prach}
use x_fapi.Request.Ul.Prach.Mapper.{PrachPdu, map_prach}
use x_fapi.Request.Ul.Pusch.{CapPusch, walk_pusch}
use x_fapi.Request.Ul.Pusch.Mapper.{PuschPdu, map_pusch}
use x_fapi.Request.Ul.Pucch.{CapPucch, walk_pucch}
use x_fapi.Request.Ul.Pucch.Mapper.{PucchPdu, map_pucch}
use x_fapi.Request.Ul.Srs.{CapSrs, walk_srs}
use x_fapi.Request.Ul.Srs.Mapper.{SrsPdu, map_srs}

pub record UlHead : Type 0 where
  pub mu : ℕ
  pub count : ℕ
  pub total_pdus : ℕ

unfoldable pub read_count : Rd (Unit {0})
unfolding ◌>>◌
read_count = do rd_u16; return tt

-- The counts of the six PDU kinds and of the groups are read and not used.
unfoldable pub read_ul_head : Rd UlHead
unfolding ◌>>=◌ ◌>>◌
read_ul_head = do
  mu ← rd_u8
  count ← rd_u32
  rd_times 6 read_count
  rd_u16
  total_pdus ← rd_u16
  return (record { mu = mu; count = count; total_pdus = total_pdus })

-- Every PDU has the parts of all four kinds; its type says which one counts.
pub record UlPdu : Type 0 where
  pub pdu_type : ℕ
  pub prach : CapPrach
  pub pusch : CapPusch
  pub pucch : CapPucch
  pub srs : CapSrs

unfoldable pub read_ul_pdu : Rd UlPdu
unfolding ◌>>=◌ ◌>>◌
read_ul_pdu = do
  pdu_type ← rd_u16
  rd_u16
  prach ← read_prach
  pusch ← walk_pusch
  pucch ← walk_pucch
  srs ← walk_srs
  return (record { pdu_type = pdu_type; prach = prach; pusch = pusch; pucch = pucch; srs = srs })

-- The four arrays of captured parts.
pub record Captures : Type 0 where
  pub prachs : List CapPrach
  pub puschs : List CapPusch
  pub pucchs : List CapPucch
  pub srss : List CapSrs

abbrev pub no_captures : Captures
no_captures = record { prachs = []; puschs = []; pucchs = []; srss = [] }

-- The `switch` over the type, each array with room for `max`, NFAPI_MAX_NUM_UL_PDU.
unfoldable pub capture : ℕ → Captures → UlPdu → Captures
capture max s u =
    if u.pdu_type == 0
    then record s { prachs = add max s.prachs u.prach }
    else if (u.pdu_type == 1) || (u.pdu_type == 5)
    then record s { puschs = add max s.puschs u.pusch }
    else if (u.pdu_type == 2) || (u.pdu_type == 3)
    then record s { pucchs = add max s.pucchs u.pucch }
    else (if u.pdu_type == 4 then record s { srss = add max s.srss u.srs } else s)

-- `for (i = 0; i < n_x && n < MAX; ++i) { …pdus_list[n++]… }`
unfoldable pub emit {ℓ} : {A : Type ℓ} → ℕ → List A → List A → List A
emit max out [] = out
emit max out (x ∷ xs) =
    let rest = emit max (out ++ (x ∷ [])) xs in if ltb (length out) max then rest else out

-- A PDU of `nfapi_nr_ul_tti_request_t`: its type and size follow from its kind.
pub data UlConfig : Type 0 where
  prach_config : PrachPdu → UlConfig
  pusch_config : PuschPdu → UlConfig
  pucch_config : PucchPdu → UlConfig
  srs_config : SrsPdu → UlConfig

pub record UlTti : Type 0 where
  pub phy_id : ℕ
  pub sfn : ℕ
  pub slot : ℕ
  pub n_pdus : ℕ
  pub rach_present : ℕ
  pub n_ulsch : ℕ
  pub n_ulcch : ℕ
  pub n_group : ℕ
  pub pdus_list : List UlConfig

abbrev pub to_prach : ℕ → CapPrach → UlConfig
to_prach pci c = prach_config (map_prach c pci)

abbrev pub to_pusch : CapPusch → UlConfig
to_pusch c = pusch_config (map_pusch c)

abbrev pub to_pucch : CapPucch → UlConfig
to_pucch c = pucch_config (map_pucch c)

abbrev pub to_srs : CapSrs → UlConfig
to_srs c = srs_config (map_srs c)

abbrev pub emitted : ℕ → ℕ → Captures → List UlConfig
emitted max pci s =
    emit max
      (emit max
        (emit max (emit max [] (map (to_prach (pci % 2 ^ 16)) s.prachs)) (map to_pusch s.puschs))
        (map to_pucch s.pucchs))
      (map to_srs s.srss)

abbrev pub ul_message : ℕ → UlHead → Captures → List UlConfig → UlTti
ul_message phy_id h s pdus = record {
  phy_id = phy_id % 2 ^ 16;
  sfn = sfn_of h.mu h.count;
  slot = slot_of h.mu h.count;
  n_pdus = length pdus % 2 ^ 8;
  rach_present = if ltb 0 (length s.prachs) then 1 else 0;
  n_ulsch = length s.puschs % 2 ^ 8;
  n_ulcch = length s.pucchs % 2 ^ 8;
  n_group = 0;
  pdus_list = pdus;
}

abbrev pub captured : Captures → ℕ
captured s = length s.prachs + length s.puschs + length s.pucchs + length s.srss

-- Behind the header. The walk must end at the end of the body, if there is any PDU to walk.
unfoldable pub ul_pdus : ℕ → ℕ → ℕ → Bool → (UlTti → ℤ) → UlHead → Cursor → Outcome UlTti
unfolding gather emit
ul_pdus max phy_id pci alloc send h r =
    if slots_per_frame h.mu == 0
    then fault
    else let (s, r') = gather read_ul_pdu (capture max) h.total_pdus no_captures r in
      if ltb 0 h.total_pdus && not (not r'.error && (r'.off == r'.len))
      then returned (negsuc 0)
      else if captured s == 0
      then returned (pos 0)
      else if not alloc
      then returned (negsuc 0)
      else send_by send (ul_message phy_id h s (emitted max pci s))

unfoldable pub ul_tti_request : ℕ → ℕ → ℕ → Bool → (UlTti → ℤ) → List ℕ → ℕ → Outcome UlTti
unfolding read_ul_head ul_pdus
ul_tti_request max phy_id pci alloc send body body_len =
    let (valid, r) = rd_u8 (rd_init body body_len) in
    let (h, r') = read_ul_head r in
    if valid == 0
    then returned (pos 0)
    else if r'.error
    then returned (negsuc 0)
    else ul_pdus max phy_id pci alloc send h r'
