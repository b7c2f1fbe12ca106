-- ===== src/Vnf/Tests.antt =====
-- Runs of the VNF.
use x_fapi.Prelude.{
  copies, ◌+◌, ℕ, zero, suc, ◌≡◌, refl, true, false, List, [], ◌∷◌, none, some, negsuc, ◌==◌, arith,
  replicate,
}
use x_fapi.Vnf.{
  Vnf, pnf_param, pnf_config, pnf_start, opened, shut, sendmsg, start_threads, stop_threads,
  reset_segments, Answers, running,
}
use x_fapi.Vnf.Message.{Kind, Codec}
use x_fapi.Vnf.Listener.{failed, hung_up, got, Round, rounds, listener_round}
use x_fapi.Vnf.Lifecycle.{Boot, fresh_vnf, up, down, vnf_start, vnf_stop}
use x_fapi.Vnf.Requests.{param_request}
use x_fapi.Vnf.Session.{IsSession, held}
use x_fapi.Vnf.Session.Rounds.{rounds-IsSession}
use x_fapi.Vnf.Handshake.{Sends, Connects, Brings, handshake_lem}
use x_fapi.Vnf.Life.{IsLevel, life_lem, Started, vnf_start_lem}

abbrev willing : Answers
willing = record { packed = λ m. some 16; sent = λ n. some n; threads = true }

-- The first byte is the kind of a message; there are 4 bytes behind its header of 10.
abbrev kind_of : ℕ → Kind
kind_of (suc zero) = Kind.pnf_param_response
kind_of (suc (suc zero)) = Kind.pnf_config_response
kind_of n = Kind.other

abbrev first : List ℕ → ℕ
first [] = 0
first (b ∷ more) = b

abbrev codec : Codec
codec = record {
  header = λ buf. some (kind_of (first buf), 4);
  body = λ buf. some (record { error_code = 0; p7_address = none; p7_port = none });
}

abbrev knock : Round
knock = record {
  ready = true;
  readable = λ fd. fd == 3;
  accepted = some 7;
  peeked = failed;
  memory = true;
  received = failed;
  answers = willing;
}

abbrev message : ℕ → Round
message kind = record {
  ready = true;
  readable = λ fd. fd == 7;
  accepted = none;
  peeked = got kind (replicate 9 0);
  memory = true;
  received = got kind (replicate 13 0);
  answers = willing;
}

abbrev parting : Round
parting = record (message 1) { peeked = hung_up }

abbrev waiting : Vnf
waiting = record fresh_vnf { listener = some 3; p7_sock = some 4; log = opened 4 ∷ opened 3 ∷ [] }

willing-Sends : Sends willing
willing-Sends = record { size = λ m. 16; packs = λ m. refl; takes = λ n. refl }

knock-Connects : Connects 3 7 knock
knock-Connects = record {
  ready = refl;
  knocks = refl;
  accepted = refl;
  silent = refl;
  sends = willing-Sends;
}

-- Either of the two responses.
message-Brings : (kind : ℕ) → Brings 10 65536 codec 3 7 (kind_of kind) (message kind)
message-Brings kind = record {
  ready = refl;
  alone = refl;
  speaks = refl;
  b = kind;
  peek = replicate 9 0;
  size = 4;
  peeked = refl;
  enough = omega arith;
  header = refl;
  some_body = omega arith;
  fits = omega arith;
  memory = refl;
  b' = kind;
  buf = replicate 13 0;
  size' = 4;
  response = record { error_code = 0; p7_address = none; p7_port = none };
  received = refl;
  header' = refl;
  body = refl;
  sends = willing-Sends;
}

handshake_lem_example :
    rounds 10 65536 codec (knock ∷ message 1 ∷ message 2 ∷ []) waiting ≡ record waiting {
      p5_sock = some 7;
      pnf_state = running;
      p7_threads_started = true;
      log =
          opened 4
          ∷ opened 3
          ∷ opened 7
          ∷ sendmsg 7 pnf_param
          ∷ sendmsg 7 (pnf_config 1)
          ∷ sendmsg 7 pnf_start
          ∷ start_threads
          ∷ [];
    }
handshake_lem_example =
    handshake_lem 10 65536 codec 3 7 knock (message 1) (message 2) waiting knock-Connects
      (message-Brings 1) (message-Brings 2) refl refl refl refl

waiting-IsSession : IsSession waiting
waiting-IsSession = record { shape = refl; threads = refl; sockets = λ fd. balance fd }
  where
    balance : (fd : ℕ) → copies fd (4 ∷ 3 ∷ []) ≡ 0 + held fd waiting
    balance fd = ground arith

-- The PNF leaves, and another one connects.
rounds-IsSession_example :
    IsSession (rounds 10 65536 codec (knock ∷ message 1 ∷ message 2 ∷ parting ∷ knock ∷ []) waiting)
rounds-IsSession_example =
    rounds-IsSession 10 65536 codec (knock ∷ message 1 ∷ message 2 ∷ parting ∷ knock ∷ []) waiting
      waiting-IsSession

-- The listening socket cannot be bound.
abbrev taken : Boot
taken = record {
  memory = true;
  p7_socket = some 4;
  p7_bound = true;
  p5_socket = some 5;
  p5_bound = false;
  p5_listens = true;
  thread = true;
  p7_remote_port = 50010;
  p7_remote_addr = some (127 ∷ 0 ∷ 0 ∷ 1 ∷ []);
}

vnf_start_lem_example : Started (vnf_start taken)
vnf_start_lem_example = vnf_start_lem taken

taken_run : vnf_start taken ≡ down (opened 4 ∷ opened 5 ∷ shut 5 ∷ shut 4 ∷ [])
unfolding vnf_start
taken_run = refl

abbrev fine : Boot
fine = record taken { p5_socket = some 3; p5_bound = true; p7_remote_addr = none }

abbrev fine_vnf : Vnf
fine_vnf = record waiting { p7_port = 50010 }

fine_run : vnf_start fine ≡ up fine_vnf
unfolding vnf_start
fine_run = refl

life_lem_example :
    IsLevel
      (vnf_stop (rounds 10 65536 codec (knock ∷ message 1 ∷ message 2 ∷ parting ∷ []) fine_vnf))
life_lem_example =
    life_lem fine 10 65536 codec (knock ∷ message 1 ∷ message 2 ∷ parting ∷ []) fine_vnf fine_run

-- Without a PNF a request of the cell is refused and changes nothing.
param_run : param_request willing [] waiting ≡ (negsuc 0, waiting)
unfolding param_request
param_run = refl

-- The whole life of a VNF that a PNF reached.
life_run :
    vnf_stop (rounds 10 65536 codec (knock ∷ message 1 ∷ message 2 ∷ []) waiting)
    ≡ opened 4
      ∷ opened 3
      ∷ opened 7
      ∷ sendmsg 7 pnf_param
      ∷ sendmsg 7 (pnf_config 1)
      ∷ sendmsg 7 pnf_start
      ∷ start_threads
      ∷ stop_threads
      ∷ shut 7
      ∷ reset_segments
      ∷ shut 3
      ∷ shut 4
      ∷ []
unfolding vnf_stop rounds listener_round
life_run = refl
