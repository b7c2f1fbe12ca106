-- ===== src/Request/Ul/Spec.antt =====
-- What an UL_TTI.request should become: parse all of it, sort the PDUs by kind, and send the first ones.
use x_fapi.Prelude.{ℕ, ◌%◌, ◌^◌, Bool, ◌||◌, ◌&&◌, not, List, ◌++◌, Option, none, some}
use x_fapi.Prelude.{ltb, ◌==◌, if◌then◌else◌, length, take, map, ℤ, pos, negsuc}
use x_fapi.Wire.Cursor.Parser as P
use x_fapi.Wire.Cursor.Parser.{Parser, ◌>>=◌, ◌>>◌, pure}
use x_fapi.Request.{Outcome, fault, returned, send_by, slots_per_frame}
use x_fapi.Request.Gather.{picked}
use x_fapi.Request.Ul.Corr.Spec.{rounds}
use x_fapi.Request.Ul.Prach.{CapPrach}
use x_fapi.Request.Ul.Prach.Spec.{prach_pdu}
use x_fapi.Request.Ul.Pusch.{CapPusch}
use x_fapi.Request.Ul.Pusch.Spec.{pusch_pdu}
use x_fapi.Request.Ul.Pucch.{CapPucch}
use x_fapi.Request.Ul.Pucch.Spec.{pucch_pdu}
use x_fapi.Request.Ul.Srs.{CapSrs}
use x_fapi.Request.Ul.Srs.Spec.{srs_pdu}
use x_fapi.Request.Ul.{
  UlHead, UlPdu, UlTti, UlConfig, Captures, captured, ul_message, to_prach, to_pusch, to_pucch,
  to_srs,
}

unfoldable pub ul_head : Parser UlHead
unfolding ◌>>=◌ ◌>>◌
ul_head = do
  mu ← P.byte
  count ← P.le_uint 4
  rounds 6 (P.le_uint 2 >> pure tt)
  P.le_uint 2
  total_pdus ← P.le_uint 2
  pure (record { mu = mu; count = count; total_pdus = total_pdus })

unfoldable pub ul_pdu : Parser UlPdu
unfolding ◌>>=◌ ◌>>◌
ul_pdu = do
  pdu_type ← P.le_uint 2
  P.le_uint 2
  prach ← prach_pdu
  pusch ← pusch_pdu
  pucch ← pucch_pdu
  srs ← srs_pdu
  pure (record { pdu_type = pdu_type; prach = prach; pusch = pusch; pucch = pucch; srs = srs })

-- The part that counts: type 0 is PRACH, 1 and 5 PUSCH, 2 and 3 PUCCH, 4 SRS.
unfoldable pub prach_of : UlPdu → Option CapPrach
prach_of u = if u.pdu_type == 0 then some u.prach else none

unfoldable pub pusch_of : UlPdu → Option CapPusch
pusch_of u = if (u.pdu_type == 1) || (u.pdu_type == 5) then some u.pusch else none

unfoldable pub pucch_of : UlPdu → Option CapPucch
pucch_of u = if (u.pdu_type == 2) || (u.pdu_type == 3) then some u.pucch else none

unfoldable pub srs_of : UlPdu → Option CapSrs
srs_of u = if u.pdu_type == 4 then some u.srs else none

-- The first `max` of each kind.
abbrev pub firsts : ℕ → List UlPdu → Captures
firsts max pdus = record {
  prachs = take max (picked prach_of pdus);
  puschs = take max (picked pusch_of pdus);
  pucchs = take max (picked pucch_of pdus);
  srss = take max (picked srs_of pdus);
}

-- All PDUs, kind by kind.
abbrev pub sorted : ℕ → List UlPdu → List UlConfig
sorted pci pdus =
    ((map (to_prach (pci % 2 ^ 16)) (picked prach_of pdus) ++ map to_pusch (picked pusch_of pdus))
      ++ map to_pucch (picked pucch_of pdus))
    ++ map to_srs (picked srs_of pdus)

abbrev pub ul_end :
    ℕ → ℕ → ℕ → Bool → (UlTti → ℤ) → UlHead → Option (List UlPdu × List ℕ) → Outcome UlTti
ul_end max phy_id pci alloc send h none = returned (negsuc 0)
ul_end max phy_id pci alloc send h (some (pdus, rest)) =
    if ltb 0 h.total_pdus && ltb 0 (length rest)
    then returned (negsuc 0)
    else if captured (firsts max pdus) == 0
    then returned (pos 0)
    else if not alloc
    then returned (negsuc 0)
    else send_by send (ul_message phy_id h (firsts max pdus) (take max (sorted pci pdus)))

unfoldable pub ul_body : ℕ → ℕ → ℕ → Bool → (UlTti → ℤ) → UlHead → List ℕ → Outcome UlTti
ul_body max phy_id pci alloc send h bs =
    if slots_per_frame h.mu == 0
    then fault
    else ul_end max phy_id pci alloc send h (P.times h.total_pdus ul_pdu bs)

unfoldable pub ul_request : ℕ → ℕ → ℕ → Bool → (UlTti → ℤ) → List ℕ → Outcome UlTti
ul_request max phy_id pci alloc send bs = elim (P.byte bs) [
  | none ↦ returned (pos 0)
  | some (valid, rest) ↦ if valid == 0 then returned (pos 0) else elim (ul_head rest) [
    | none ↦ returned (negsuc 0)
    | some (h, pdus) ↦ ul_body max phy_id pci alloc send h pdus
  ]
]
