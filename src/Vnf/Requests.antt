-- ===== src/Vnf/Requests.antt =====
-- translation/OAI_L1_OCUDU/L2_to_L1/P5/{param,start,stop}_request.c: the requests of the cell that have no body, as
-- the VNF sends them. The body that came in is not read.
use x_fapi.Prelude.{ℕ, ◌%◌, ◌^◌, List, ℤ}
use x_fapi.Vnf.{Vnf, Answers, param, start, stop, send_p5_msg}

unfoldable pub param_request : Answers → List ℕ → Vnf → ℤ × Vnf
unfolding send_p5_msg
param_request a body v = send_p5_msg a (param (v.phy_id % 2 ^ 16)) v

unfoldable pub start_request : Answers → List ℕ → Vnf → ℤ × Vnf
unfolding send_p5_msg
start_request a body v = send_p5_msg a (start (v.phy_id % 2 ^ 16)) v

unfoldable pub stop_request : Answers → List ℕ → Vnf → ℤ × Vnf
unfolding send_p5_msg
stop_request a body v = send_p5_msg a (stop (v.phy_id % 2 ^ 16)) v
