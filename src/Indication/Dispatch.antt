-- ===== src/Indication/Dispatch.antt =====
-- L1_to_L2/oai_l1_to_l2_p7.c, `ocudu_p7_translate_to_l2`: route a reassembled nFAPI message to its
-- translator, and what that delivers to the L2.
pub mod Laws
use x_fapi.Prelude.{ℕ, Bool, List, [], Option, none, some, ℤ, pos, negsuc, ◌==◌, if◌then◌else◌}
use x_fapi.Indication.Relay.{Delivery, dropped, put}
use x_fapi.Indication.Slot.{slot_indication}
use x_fapi.Indication.Rach.{rach_indication}
use x_fapi.Indication.Crc.{crc_indication}
use x_fapi.Indication.RxData.{rx_data_indication}
use x_fapi.Indication.Uci.{uci_indication}
use x_fapi.Indication.Xsm.{XsmAnswers, XsmCall, l2_xsm_put}

-- The constants of the nFAPI headers: the length of the P7 header, and the message types.
pub record Nfapi : Type 0 where
  pub header : ℕ
  pub slot_indication_id : ℕ
  pub rach_indication_id : ℕ
  pub crc_indication_id : ℕ
  pub rx_data_indication_id : ℕ
  pub uci_indication_id : ℕ

-- What a call of the dispatcher finds: the latched numerology, what the local bodies of 13 and 4096
-- bytes hold, what `malloc` answers, the two clocks, whether the L2 handle is there, and the xSM.
pub record Env : Type 0 where
  pub numerology : Option ℤ
  pub small_body : List ℕ
  pub large_body : List ℕ
  pub heap_body : Option (List ℕ)
  pub realtime_ns : ℕ
  pub monotonic_ns : ℕ
  pub ready : Bool
  pub xsm : XsmAnswers

-- A translator returns -1, or what `ocudu_l2_xsm_put` returns.
unfoldable pub finish : Env → Delivery → ℤ × List XsmCall
finish e dropped = (negsuc 0, [])
finish e (put msg_type body) = l2_xsm_put e.ready e.xsm e.monotonic_ns msg_type body

-- An indication with no translator is ignored.
unfoldable pub p7_translate_to_l2 : Nfapi → Env → ℕ → Option (List ℕ) → ℕ → ℤ × List XsmCall
unfolding finish
p7_translate_to_l2 n e id msg len =
    if id == n.slot_indication_id
    then finish e (slot_indication n.header e.numerology e.small_body e.realtime_ns msg len)
    else if id == n.rach_indication_id
    then finish e (rach_indication n.header e.numerology e.large_body msg len)
    else if id == n.crc_indication_id
    then finish e (crc_indication n.header e.numerology e.large_body msg len)
    else if id == n.rx_data_indication_id
    then finish e (rx_data_indication n.header e.numerology e.heap_body msg len)
    else if id == n.uci_indication_id
    then finish e (uci_indication n.header e.numerology e.large_body msg len)
    else (pos 0, [])
