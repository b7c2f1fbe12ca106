-- ===== src/Vnf.antt =====
-- core/OAI_OCUDU/oai_vnf.c: the control plane towards the OAI L1, which connects as the PNF over SCTP. The
-- state of a session, and the requests that are sent in it. What the libraries and the system answer is
-- an argument; what is done to them is a list of effects. A call of `oai_p7_threads_stop`, and one of
-- `oai_p7_threads_start` that fails, is taken to return; Endpoint.Listener.Stop says when the join of the
-- threads, on which they wait, does not.
pub mod Message
pub mod Listener
pub mod Lifecycle
pub mod Session
pub mod Handshake
pub mod Life
pub mod Requests
mod Tests
use x_fapi.Prelude.{
  ℕ, zero, suc, ◌+◌, ◌%◌, ◌^◌, Bool, true, false, not, List, [], ◌∷◌, ◌++◌, Option, none, some, ℤ,
  pos, negsuc, ◌==◌, if◌then◌else◌,
}
use x_fapi.Request.Config.Message.{ConfigReq}

-- `oai_vnf_pnf_state_t`
pub data PnfState : Type 0 where
  disconnected connected param_sent config_sent start_sent running : PnfState

-- What is sent to the PNF over P5; `pnf_config` holds the identity of the PHY.
pub data P5Request : Type 0 where
  pnf_param : P5Request
  pnf_config : ℕ → P5Request
  pnf_start : P5Request
  param : ℕ → P5Request
  config : ConfigReq → P5Request
  start : ℕ → P5Request
  stop : ℕ → P5Request

-- A call of the system, or of another part of the program. `open` and `shut` are of a socket.
pub data Effect : Type 0 where
  opened : ℕ → Effect
  shut : ℕ → Effect
  sendmsg : ℕ → P5Request → Effect
  start_threads : Effect
  stop_threads : Effect
  reset_segments : Effect
  respond : ℕ → ℕ → Effect

-- `oai_vnf_t`, as far as the control plane goes. A socket that is -1 is none; `p7_addr` and `p7_port` are the
-- destination of P7, which counts only once it is known.
pub record Vnf : Type 0 where
  pub listener : Option ℕ
  pub p5_sock : Option ℕ
  pub p7_sock : Option ℕ
  pub pnf_state : PnfState
  pub phy_id : ℕ
  pub p7_addr : List ℕ
  pub p7_port : ℕ
  pub p7_addr_known : Bool
  pub p7_threads_started : Bool
  pub log : List Effect

abbrev pub emit : Effect → Vnf → Vnf
emit e v = record v { log = v.log ++ (e ∷ []) }

-- What `nfapi_nr_p5_message_pack` and `sctp_sendmsg` return (none for a negative number), and whether
-- `oai_p7_threads_start` succeeds. A failure is the one that returns: the listener could not be created.
pub record Answers : Type 0 where
  pub packed : P5Request → Option ℕ
  pub sent : ℕ → Option ℕ
  pub threads : Bool

abbrev pub all_sent : Option ℕ → ℕ → ℤ
all_sent none n = negsuc 0
all_sent (some m) n = if m == n then pos 0 else negsuc 0

abbrev pub send_packed : Answers → P5Request → ℕ → Vnf → Option ℕ → ℤ × Vnf
send_packed a m fd v none = (negsuc 0, v)
send_packed a m fd v (some n) = (all_sent (a.sent n) n, emit (sendmsg fd m) v)

abbrev pub send_to : Answers → P5Request → Vnf → Option ℕ → ℤ × Vnf
send_to a m v none = (negsuc 0, v)
send_to a m v (some fd) = send_packed a m fd v (a.packed m)

-- `oai_vnf_send_p5`
unfoldable pub send_p5 : Answers → P5Request → Vnf → ℤ × Vnf
send_p5 a m v = send_to a m v v.p5_sock

-- `oai_vnf_send_p5_msg`, for a VNF and a message that are not null.
unfoldable pub send_p5_msg : Answers → P5Request → Vnf → ℤ × Vnf
unfolding send_p5
send_p5_msg a m v = send_p5 a m v

-- A new state if the request was sent.
abbrev pub moved : PnfState → ℤ × Vnf → ℤ × Vnf
moved s (pos zero, v) = (pos 0, record v { pnf_state = s })
moved s (rc, v) = (rc, v)

unfoldable pub send_pnf_param_req : Answers → Vnf → ℤ × Vnf
unfolding send_p5
send_pnf_param_req a v = moved param_sent (send_p5 a pnf_param v)

unfoldable pub send_pnf_config_req : Answers → Vnf → ℤ × Vnf
unfolding send_p5
send_pnf_config_req a v = moved config_sent (send_p5 a (pnf_config (v.phy_id % 2 ^ 16)) v)

-- `oai_p7_threads_stop`, if the threads were started.
abbrev pub stop_threads_if : Bool → Vnf → Vnf
stop_threads_if true v = emit stop_threads (record v { p7_threads_started = false })
stop_threads_if false v = v

abbrev pub shut_p5 : Option ℕ → Vnf → Vnf
shut_p5 none v = v
shut_p5 (some fd) v = emit (shut fd) (record v { p5_sock = none })

abbrev pub torn_down : Vnf → Vnf
torn_down v = shut_p5 v.p5_sock (stop_threads_if v.p7_threads_started v)

unfoldable pub close_pnf_session : Vnf → Vnf
close_pnf_session v = record (emit reset_segments (torn_down v)) {
  pnf_state = disconnected;
  p7_addr_known = false;
}

abbrev pub is_running : PnfState → Bool
is_running running = true
is_running _ = false

unfoldable pub enter_running : Answers → Vnf → Vnf
unfolding close_pnf_session
enter_running a v =
    if is_running v.pnf_state
    then v
    else if v.p7_threads_started
    then record v { pnf_state = running }
    else if a.threads
    then record (emit start_threads v) { pnf_state = running; p7_threads_started = true }
    else close_pnf_session v

abbrev pub started : Answers → ℤ × Vnf → ℤ × Vnf
started a (pos zero, v) = (pos 0, enter_running a (record v { pnf_state = start_sent }))
started a (rc, v) = (rc, v)

unfoldable pub send_pnf_start_req : Answers → Vnf → ℤ × Vnf
unfolding send_p5 enter_running
send_pnf_start_req a v = started a (send_p5 a pnf_start v)
