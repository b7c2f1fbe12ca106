-- ===== src/Vnf/Message.antt =====
-- core/OAI_OCUDU/oai_vnf.c, `oai_vnf_handle_p5_message`: one message of the PNF. The codec is a library: what it
-- makes of the bytes is an argument.
use x_fapi.Prelude.{
  zero, suc, ℕ, ◌%◌, ◌^◌, Bool, true, false, List, Option, none, some, ℤ, pos, negsuc,
}
use x_fapi.Vnf.{
  Vnf, Answers, emit, respond, close_pnf_session, enter_running, send_pnf_config_req,
  send_pnf_start_req,
}

-- The message identities of the `switch`.
pub data Kind : Type 0 where
  pnf_param_response pnf_config_response pnf_start_response : Kind
  param_response config_response start_response other : Kind

-- What the handler reads of a response; an address or a port whose tag is 0 is none.
pub record Response : Type 0 where
  pub error_code : ℕ
  pub p7_address : Option (List ℕ)
  pub p7_port : Option ℕ

-- The header is the identity of a message and the length of its body.
pub record Codec : Type 0 where
  pub header : List ℕ → Option (Kind × ℕ)
  pub body : List ℕ → Option Response

-- A request that could not be sent ends the session.
abbrev pub or_close : ℤ × Vnf → Vnf
or_close (pos n, v) = elim n [ zero ↦ v | suc m ↦ close_pnf_session v ]
or_close (negsuc n, v) = close_pnf_session v

-- The P7 destination that the PNF reports. The port is taken as it is.
abbrev pub latch_address : Option (List ℕ) → Vnf → Vnf
latch_address none v = v
latch_address (some bytes) v = record v { p7_addr = bytes }

abbrev pub latch_port : Option ℕ → Vnf → Vnf
latch_port none v = v
latch_port (some port) v = record v { p7_port = port % 2 ^ 16; p7_addr_known = true }

-- A message of a kind whose body was unpacked. A response for the L2 is one of `oai_l1_to_l2_p5.c`.
unfoldable pub on_response : Answers → Kind → Response → Vnf → Vnf
unfolding send_pnf_config_req send_pnf_start_req
on_response a pnf_param_response r v = or_close (send_pnf_config_req a v)
on_response a pnf_config_response r v = or_close (send_pnf_start_req a v)
on_response a pnf_start_response r v = enter_running a v
on_response a param_response r v =
    emit (respond 0x01 (r.error_code % 2 ^ 8)) (latch_port r.p7_port (latch_address r.p7_address v))
on_response a config_response r v = emit (respond 0x03 (r.error_code % 2 ^ 8)) v
on_response a start_response r v = v
on_response a other r v = v

abbrev pub is_known : Kind → Bool
is_known other = false
is_known _ = true

abbrev pub on_body : Answers → Kind → Vnf → Option Response → Vnf
on_body a kind v none = v
on_body a kind v (some r) = on_response a kind r v

abbrev pub unpack : Answers → Codec → List ℕ → Kind → Vnf → Bool → Vnf
unpack a c buf kind v false = v
unpack a c buf kind v true = on_body a kind v (c.body buf)

abbrev pub on_message : Answers → Codec → List ℕ → Vnf → Option (Kind × ℕ) → Vnf
on_message a c buf v none = v
on_message a c buf v (some (kind, len)) = unpack a c buf kind v (is_known kind)

unfoldable pub handle_p5_message : Answers → Codec → List ℕ → Vnf → Vnf
unfolding on_response
handle_p5_message a c buf v = on_message a c buf v (c.header buf)
