-- ===== src/Request/Forward.antt =====
-- core/OAI_OCUDU/forwarder_l2_to_oai.c: from the shared memory of the L2 to the dispatchers of P5 and P7. The
-- shared memory is a library: what it gives is an argument.
use x_fapi.Prelude.{
  ℕ, zero, suc, ◌+◌, ◌*◌, ◌≤◌, ◌≢◌, Bool, true, false, not, List, [], ◌∷◌, Option, none, some, ℤ,
  pos, negsuc, leb, if◌then◌else◌, arith, if_both,
}
use x_fapi.Request.{Outcome, fault, returned, sent}
use x_fapi.Request.Dispatch.{Handlers, p7_translate_and_send}
use x_fapi.Request.P5.{P5Handlers, p5_translate_and_send}
use x_fapi.Vnf.{PnfState, is_running}

-- FAPI_P7_TYPE_THRESHOLD, P5_RUNNING_WAIT_MS and P5_RUNNING_POLL_MS
abbrev pub p7_type_threshold : ℕ
p7_type_threshold = 0x80

abbrev pub running_wait_ms : ℕ
running_wait_ms = 5000

abbrev pub running_poll_ms : ℕ
running_poll_ms = 10

-- The loop from poll `k` on: `state` and `going` are the state of the PNF and the flag of the forwarder as
-- the polls find them. None if the fuel does not reach the end.
unfoldable pub wait_pnf_running : (ℕ → PnfState) → (ℕ → Bool) → ℕ → ℕ → ℕ → Option Bool
wait_pnf_running state going zero k waited = none
wait_pnf_running state going (suc fuel) k waited =
    let rest = wait_pnf_running state going fuel (k + 1) (waited + running_poll_ms) in
    if is_running (state k)
    then some true
    else if not (going k)
    then some false
    else (if leb running_wait_ms waited then some false else rest)

-- 500 sleeps, and the last test.
abbrev pub wait_fuel : ℕ
wait_fuel = 501

-- The fuel is enough, whatever the polls find.
wait_pnf_running_ends :
    (state : ℕ → PnfState) (going : ℕ → Bool) (fuel k waited : ℕ)
    → running_wait_ms ≤ waited + fuel * running_poll_ms
    → wait_pnf_running state going (suc fuel) k waited ≢ none
unfolding wait_pnf_running
wait_pnf_running_ends state going zero k waited h =
    if_both (λ o. o ≢ none) (is_running (state k)) (λ up e. absurd (cc))
      λ down.
        if_both (λ o. o ≢ none) (not (going k)) (λ over e. absurd (cc))
          λ on.
            if_both (λ o. o ≢ none) (leb running_wait_ms waited) (λ late e. absurd (cc))
              λ early. absurd (ground (arith, h, early))
wait_pnf_running_ends state going (suc fuel) k waited h =
    if_both (λ o. o ≢ none) (is_running (state k)) (λ up e. absurd (cc))
      λ down.
        if_both (λ o. o ≢ none) (not (going k)) (λ over e. absurd (cc))
          λ on.
            if_both (λ o. o ≢ none) (leb running_wait_ms waited) (λ late e. absurd (cc))
              λ early.
                wait_pnf_running_ends state going fuel (k + 1) (waited + running_poll_ms)
                  (omega (arith, h))

-- Whatever the polls find, the wait has ended by the 501st, behind 500 sleeps at most.
pub wait_pnf_running_lem :
    (state : ℕ → PnfState) (going : ℕ → Bool) → wait_pnf_running state going wait_fuel 0 0 ≢ none
wait_pnf_running_lem state going = wait_pnf_running_ends state going 500 0 0 (omega arith)

-- `(r < 0) ? -1 : 0`
abbrev pub clamped : ℤ → ℤ
clamped (pos n) = pos 0
clamped (negsuc n) = negsuc 0

abbrev pub with_code : {A : Type 0} → Outcome A → Outcome A
with_code fault = fault
with_code (returned rc) = returned (clamped rc)
with_code (sent rc m) = sent (clamped rc) m

-- What became of a message: neither its buffer nor a VNF is there, or a code of P5 or an outcome of P7.
pub data Forwarded (A : Type 0) : Type 0 where
  unmapped : Forwarded A
  no_vnf : Forwarded A
  over_p5 : ℤ → Forwarded A
  over_p7 : Outcome A → Forwarded A

-- Behind the wait.
abbrev pub if_running : P5Handlers → Option (List ℕ) → ℕ → Option Bool → ℤ
if_running hs src size none = negsuc 0
if_running hs src size (some false) = negsuc 0
if_running hs src size (some true) = p5_translate_and_send hs true src size

-- A message of the shared memory, with what the polls find if it has to wait; `src` is the address that
-- `XSM_PhysToVirt` gives.
pub record L2Message : Type 0 where
  pub payload_pa : ℕ
  pub type_id : ℕ
  pub src : Option (List ℕ)
  pub payload_size : ℕ
  pub vnf : Bool
  pub state : ℕ → PnfState
  pub going : ℕ → Bool

-- `l2_to_oai_forward`
unfoldable pub l2_to_oai_forward : {A : Type 0} → P5Handlers → Handlers A → L2Message → Forwarded A
unfolding wait_pnf_running p5_translate_and_send p7_translate_and_send
l2_to_oai_forward hs hs7 m =
    if leb p7_type_threshold m.type_id
    then over_p7 (with_code (p7_translate_and_send hs7 true m.src m.payload_size))
    else over_p5
        (if_running hs m.src m.payload_size (wait_pnf_running m.state m.going wait_fuel 0 0))

-- A message of the inner loop, and the buffers that are given back for it.
abbrev pub forward_mapped :
    {A : Type 0} → P5Handlers → Handlers A → L2Message → Option (List ℕ) → Forwarded A × List ℕ
forward_mapped hs hs7 m none = (unmapped, [])
forward_mapped hs hs7 m (some bytes) =
    (if m.vnf then l2_to_oai_forward hs hs7 m else no_vnf, m.payload_pa ∷ [])

-- The messages that `XSM_Get` gives in turn.
unfoldable pub drain :
    {A : Type 0} → P5Handlers → Handlers A → List L2Message → List (Forwarded A × List ℕ)
unfolding l2_to_oai_forward
drain hs hs7 [] = []
drain hs hs7 (m ∷ more) = forward_mapped hs hs7 m m.src ∷ drain hs hs7 more
