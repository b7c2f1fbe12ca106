-- ===== src/Vnf/Lifecycle.antt =====
-- core/OAI_OCUDU/oai_vnf.c: `oai_vnf_start` with the two sockets that it opens, and `oai_vnf_stop`. Socket
-- options and the pinning of the thread change nothing here.
use x_fapi.Prelude.{
  ℕ, ◌%◌, ◌^◌, Bool, true, false, not, List, [], Option, none, some, if◌then◌else◌,
}
use x_fapi.Vnf.{Vnf, Effect, opened, shut, disconnected, emit, close_pnf_session}

-- What the system answers: `socket` (none for a negative number), `bind`, `listen` and `pthread_create`; and
-- the configuration, with what `inet_pton` makes of the address of the PNF.
pub record Boot : Type 0 where
  pub memory : Bool
  pub p7_socket : Option ℕ
  pub p7_bound : Bool
  pub p5_socket : Option ℕ
  pub p5_bound : Bool
  pub p5_listens : Bool
  pub thread : Bool
  pub p7_remote_port : ℕ
  pub p7_remote_addr : Option (List ℕ)

abbrev pub fresh_vnf : Vnf
fresh_vnf = record {
  listener = none;
  p5_sock = none;
  p7_sock = none;
  pnf_state = disconnected;
  phy_id = 1;
  p7_addr = [];
  p7_port = 0;
  p7_addr_known = false;
  p7_threads_started = false;
  log = [];
}

-- The destination of the configuration. The port is kept as a number; its bytes are swapped on the way out.
abbrev pub default_destination : Boot → Option (List ℕ) → Vnf → Vnf
default_destination b none v = record v { p7_port = b.p7_remote_port % 2 ^ 16 }
default_destination b (some bytes) v = record v {
  p7_port = b.p7_remote_port % 2 ^ 16;
  p7_addr = bytes;
  p7_addr_known = true;
}

abbrev pub bind_p7 : Boot → Option ℕ → Vnf → Bool × Vnf
bind_p7 b none v = (false, v)
bind_p7 b (some fd) v = if not b.p7_bound then (false, emit (shut fd) (emit (opened fd) v)) else (
  true,
  default_destination b b.p7_remote_addr (record (emit (opened fd) v) { p7_sock = some fd }),
)

-- `oai_vnf_open_p7_socket`: whether it returns 0.
unfoldable pub open_p7_socket : Boot → Vnf → Bool × Vnf
open_p7_socket b v = bind_p7 b b.p7_socket v

abbrev pub listen_on : Boot → Option ℕ → Vnf → Bool × Vnf
listen_on b none v = (false, v)
listen_on b (some fd) v =
    if not b.p5_bound
    then (false, emit (shut fd) (emit (opened fd) v))
    else if not b.p5_listens
    then (false, emit (shut fd) (emit (opened fd) v))
    else (true, record (emit (opened fd) v) { listener = some fd })

-- `oai_vnf_open_p5_listener`
unfoldable pub open_p5_listener : Boot → Vnf → Bool × Vnf
open_p5_listener b v = listen_on b b.p5_socket v

abbrev pub shut_if : Option ℕ → Vnf → Vnf
shut_if none v = v
shut_if (some fd) v = emit (shut fd) v

-- A VNF that runs, or the effects of a start that failed.
pub data StartResult : Type 0 where
  up : Vnf → StartResult
  down : List Effect → StartResult

-- The thread of the listener, over the two sockets.
abbrev pub spawn : Boot → Vnf → StartResult
spawn b v = if b.thread then up v else down (shut_if v.p7_sock (shut_if v.listener v)).log

abbrev pub with_listener : Boot → Bool × Vnf → StartResult
with_listener b (true, v) = spawn b v
with_listener b (false, v) = down (shut_if v.p7_sock v).log

abbrev pub with_p7 : Boot → Bool × Vnf → StartResult
with_p7 b (true, v) = with_listener b (open_p5_listener b v)
with_p7 b (false, v) = down v.log

unfoldable pub vnf_start : Boot → StartResult
unfolding open_p7_socket open_p5_listener
vnf_start b = if not b.memory then down [] else with_p7 b (open_p7_socket b fresh_vnf)

-- A VNF whose listener thread has ended; the memory is freed.
unfoldable pub vnf_stop : Vnf → List Effect
unfolding close_pnf_session
vnf_stop v =
    let ended = close_pnf_session v in (shut_if ended.p7_sock (shut_if ended.listener ended)).log
