-- ===== src/Request/P5.antt =====
-- L2_to_L1/oai_l2_to_l1_p5.c, `ocudu_p5_translate_and_send`: parse the xSM header, and route the body. The
-- result of a handler is its return code.
use x_fapi.Prelude.{ℕ, Bool, true, false, List, Option, none, some, ◌==◌, if◌then◌else◌, ℤ, negsuc}
use x_fapi.Wire.Header.{hdr_parse, Parsed}

pub record P5Handlers : Type 0 where
  pub param_request : List ℕ → ℕ → ℤ
  pub config_request : List ℕ → ℕ → ℤ
  pub start_request : List ℕ → ℕ → ℤ
  pub stop_request : List ℕ → ℕ → ℤ

unfoldable pub p5_route : P5Handlers → Parsed → ℤ
p5_route hs p =
    if p.msg_type == 0x00
    then hs.param_request p.body p.body_len
    else if p.msg_type == 0x02
    then hs.config_request p.body p.body_len
    else if p.msg_type == 0x04
    then hs.start_request p.body p.body_len
    else (if p.msg_type == 0x05 then hs.stop_request p.body p.body_len else negsuc 0)

-- `ready` says that the VNF is not null.
unfoldable pub p5_translate_and_send : P5Handlers → Bool → Option (List ℕ) → ℕ → ℤ
unfolding p5_route
p5_translate_and_send hs false src size = negsuc 0
p5_translate_and_send hs true src size = elim (hdr_parse src size) [
  | none ↦ negsuc 0
  | some p ↦ p5_route hs p
]
