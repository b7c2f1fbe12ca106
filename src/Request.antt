-- ===== src/Request.antt =====
-- L2_to_L1/P7: the requests of the OCUDU L2 to the nFAPI L1. What the translators share: the slot
-- point, and how a translator ends.
pub mod Gather
pub mod Start
pub mod Tx
pub mod Ul
pub mod Dl
pub mod Dispatch
pub mod P5
pub mod Config
pub mod Forward
mod Tests
use x_fapi.Prelude.{ℕ, zero, suc, ◌*◌, ◌/◌, ◌%◌, ◌^◌, ℤ, pos, negsuc}

-- How a translator ends: in undefined behaviour, with a code and nothing sent, or by handing a
-- message to `oai_vnf_send_p7`, with the code that it returns then.
pub data Outcome {ℓ} (A : Type ℓ) : Type ℓ where
  fault : Outcome A
  returned : ℤ → Outcome A
  sent : ℤ → A → Outcome A

-- `(rc == 0) ? 1 : -1`
unfoldable pub sent_code : ℤ → ℤ
sent_code (pos zero) = pos 1
sent_code (pos (suc n)) = negsuc 0
sent_code (negsuc n) = negsuc 0

abbrev pub send_by : {A : Type 0} → (A → ℤ) → A → Outcome A
send_by send a = sent (sent_code (send a)) a

-- `10u << mu`, in 32 bits. It is 0 from mu = 31 on, where the division by it (31) or the shift itself
-- (32 and more) is undefined.
unfoldable pub slots_per_frame : ℕ → ℕ
slots_per_frame mu = 10 * 2 ^ mu % 2 ^ 32

unfoldable pub sfn_of : ℕ → ℕ → ℕ
unfolding slots_per_frame
sfn_of mu count = count / slots_per_frame mu % 1024

unfoldable pub slot_of : ℕ → ℕ → ℕ
unfolding slots_per_frame
slot_of mu count = count % slots_per_frame mu % 2 ^ 16
