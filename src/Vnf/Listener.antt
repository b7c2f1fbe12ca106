-- ===== src/Vnf/Listener.antt =====
-- core/OAI_OCUDU/oai_vnf.c: a round of `oai_vnf_p5_listener_thread`, with `oai_vnf_accept_pnf` and
-- `oai_vnf_p5_read_dispatch`.
use x_fapi.Prelude.{
  ℕ, zero, suc, ◌+◌, ◌%◌, ◌^◌, Bool, false, not, ◌||◌, List, [], ◌∷◌, Option, none, some, ℤ, pos,
  negsuc, ltb, leb, if◌then◌else◌, length,
}
use x_fapi.Vnf.{Vnf, Answers, emit, opened, shut, connected, close_pnf_session, send_pnf_param_req}
use x_fapi.Vnf.Message.{Kind, Codec, or_close, handle_p5_message}

-- `sctp_recvmsg`: a negative number, 0, or the bytes received, of which there is one.
pub data Received : Type 0 where
  failed : Received
  hung_up : Received
  got : ℕ → List ℕ → Received

-- What a round of the loop meets: a `select` that fails or times out, or the sockets that are readable,
-- with what `accept`, the two receptions and `malloc` give.
pub record Round : Type 0 where
  pub ready : Bool
  pub readable : ℕ → Bool
  pub accepted : Option ℕ
  pub peeked : Received
  pub memory : Bool
  pub received : Received
  pub answers : Answers

-- With a PNF attached, another one is accepted and shut at once.
abbrev pub reject : Option ℕ → Vnf → Vnf
reject none v = v
reject (some extra) v = emit (shut extra) (emit (opened extra) v)

abbrev pub attach : Option ℕ → Vnf → ℤ × Vnf
attach none v = (negsuc 0, v)
attach (some s) v = (pos 0, record (emit (opened s) v) { p5_sock = some s; pnf_state = connected })

abbrev pub accept_with : Option ℕ → Option ℕ → Vnf → ℤ × Vnf
accept_with none o v = attach o v
accept_with (some fd) o v = (negsuc 0, reject o v)

unfoldable pub accept_pnf : Option ℕ → Vnf → ℤ × Vnf
accept_pnf o v = accept_with v.p5_sock o v

-- The message is read whole: `buf` is what it comes to.
abbrev pub take_message : Answers → Codec → Received → Vnf → ℤ × Vnf
take_message a c failed v = (negsuc 0, v)
take_message a c hung_up v = (pos 0, v)
take_message a c (got b buf) v = (pos 1, handle_p5_message a c (b ∷ buf) v)

-- `hdr_len` is NFAPI_NR_P5_HEADER_LENGTH and `max_len` OAI_VNF_TX_BUF_SIZE.
abbrev pub message_size : ℕ → ℕ → ℕ
message_size hdr_len n = (n % 2 ^ 32 + hdr_len) % 2 ^ 32

-- The message, if its size is plausible and there is memory for it.
abbrev pub read_whole : ℕ → ℕ → Codec → Round → ℕ → Vnf → ℤ × Vnf
read_whole hdr_len max_len c r n v =
    if leb (message_size hdr_len n) hdr_len || ltb max_len (message_size hdr_len n)
    then (negsuc 0, v)
    else if not r.memory
    then (negsuc 0, v)
    else take_message r.answers c r.received v

abbrev pub on_header : ℕ → ℕ → Codec → Round → Option (Kind × ℕ) → Vnf → ℤ × Vnf
on_header hdr_len max_len c r none v = (negsuc 0, v)
on_header hdr_len max_len c r (some (kind, n)) v = read_whole hdr_len max_len c r n v

abbrev pub on_peek : ℕ → ℕ → Codec → Round → Received → Vnf → ℤ × Vnf
on_peek hdr_len max_len c r failed v = (negsuc 0, v)
on_peek hdr_len max_len c r hung_up v = (pos 0, v)
on_peek hdr_len max_len c r (got b peek) v =
    if ltb (suc (length peek)) hdr_len
    then (negsuc 0, v)
    else on_header hdr_len max_len c r (c.header (b ∷ peek)) v

unfoldable pub p5_read_dispatch : ℕ → ℕ → Codec → Round → Vnf → ℤ × Vnf
unfolding handle_p5_message
p5_read_dispatch hdr_len max_len c r v = on_peek hdr_len max_len c r r.peeked v

-- A new PNF: the handshake starts, or the session is reset.
abbrev pub greet : Answers → ℤ × Vnf → Vnf
greet a (pos zero, v) = or_close (send_pnf_param_req a v)
greet a (rc, v) = v

-- Behind a read: 0 and negative codes end the session.
abbrev pub keep_or_close : ℤ × Vnf → Vnf
keep_or_close (pos (suc n), v) = v
keep_or_close (rc, v) = close_pnf_session v

abbrev pub is_set : (ℕ → Bool) → Option ℕ → Bool
is_set readable none = false
is_set readable (some fd) = readable fd

-- A new connection, and then a message of the PNF that is attached.
abbrev pub welcomed : Round → Vnf → Vnf
welcomed r v = if is_set r.readable v.listener then greet r.answers (accept_pnf r.accepted v) else v

abbrev pub served : ℕ → ℕ → Codec → Round → Vnf → Vnf
served hdr_len max_len c r v =
    if is_set r.readable v.p5_sock
    then keep_or_close (p5_read_dispatch hdr_len max_len c r v)
    else v

unfoldable pub listener_round : ℕ → ℕ → Codec → Round → Vnf → Vnf
unfolding accept_pnf p5_read_dispatch send_pnf_param_req
listener_round hdr_len max_len c r v =
    if not r.ready then v else served hdr_len max_len c r (welcomed r v)

-- Rounds in turn.
unfoldable pub rounds : ℕ → ℕ → Codec → List Round → Vnf → Vnf
rounds hdr_len max_len c [] v = v
rounds hdr_len max_len c (r ∷ rs) v =
    rounds hdr_len max_len c rs (listener_round hdr_len max_len c r v)
