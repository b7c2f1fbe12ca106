-- ===== src/Indication/Response.antt =====
-- L1_to_L2/oai_l1_to_l2_p5.c, `ocudu_p5_send_response_to_l2`, with P5/param_response.c and
-- P5/config_response.c: a response is one byte, the error code.
use x_fapi.Prelude.{ℕ, Bool, List, [], ◌∷◌, ◌==◌, if◌then◌else◌, ℤ, negsuc}
use x_fapi.Indication.Xsm.{XsmAnswers, XsmCall, l2_xsm_put}

unfoldable pub param_response : Bool → XsmAnswers → ℕ → ℕ → ℤ × List XsmCall
param_response ready x now_ns error_code = l2_xsm_put ready x now_ns 0x01 (error_code ∷ [])

unfoldable pub config_response : Bool → XsmAnswers → ℕ → ℕ → ℤ × List XsmCall
config_response ready x now_ns error_code = l2_xsm_put ready x now_ns 0x03 (error_code ∷ [])

unfoldable pub send_response_to_l2 : Bool → XsmAnswers → ℕ → ℕ → ℕ → ℤ × List XsmCall
unfolding param_response config_response
send_response_to_l2 ready x now_ns msg_type error_code =
    if msg_type == 0x01
    then param_response ready x now_ns error_code
    else if msg_type == 0x03
    then config_response ready x now_ns error_code
    else (negsuc 0, [])
