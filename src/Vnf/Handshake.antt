-- ===== src/Vnf/Handshake.antt =====
-- A PNF that connects and answers is brought to RUNNING.
use x_fapi.Prelude.{
  ℕ, suc, ◌%◌, ◌^◌, ◌≤◌, ◌<◌, ◌≡◌, refl, ap, ◌∙◌, true, false, not, ◌||◌, List, [], ◌∷◌, ◌++◌,
  append_assoc, none, some, ℤ, pos, ◌==◌, ltb, leb, if_yes, if_no, ge→ltb, length, arith,
}
use x_fapi.Vnf.{
  Vnf, Answers, P5Request, pnf_param, pnf_config, pnf_start, Effect, opened, sendmsg, start_threads,
  emit, connected, param_sent, config_sent, running, send_p5, all_sent, moved, started,
  enter_running, send_pnf_param_req, send_pnf_config_req, send_pnf_start_req, send_to, send_packed,
}
use x_fapi.Vnf.Message.{
  Kind, Codec, Response, or_close, on_response, is_known, handle_p5_message, on_body, unpack,
  on_message,
}
use x_fapi.Vnf.Listener.{
  got, Round, message_size, take_message, on_header, on_peek, accept_pnf, accept_with, attach,
  greet, is_set, served, keep_or_close, p5_read_dispatch, listener_round, rounds,
}

-- The libraries take every request whole.
pub record Sends (a : Answers) : Type 0 where
  pub size : P5Request → ℕ
  pub packs : (m : P5Request) → a.packed m ≡ some (size m)
  pub takes : (n : ℕ) → a.sent n ≡ some n

send_lem :
    (a : Answers) (m : P5Request) (v : Vnf) (s : ℕ)
    → Sends a
    → v.p5_sock ≡ some s
    → send_p5 a m v ≡ (pos 0, emit (sendmsg s m) v)
unfolding send_p5
send_lem a m v s ok e =
    ap (send_to a m v) e
    ∙ ap (send_packed a m s v) (ok.packs m)
    ∙ ap (λ o. (all_sent o (ok.size m), emit (sendmsg s m) v)) (ok.takes (ok.size m))
    ∙ ap (λ (rc : ℤ). (rc, emit (sendmsg s m) v)) (if_yes _ _ (same (ok.size m)))
  where
    same : (n : ℕ) → (n == n) ≡ true
    same n = ground arith

-- A round in which a PNF connects, on socket `s`.
pub record Connects (l s : ℕ) (r : Round) : Type 0 where
  pub ready : r.ready ≡ true
  pub knocks : r.readable l ≡ true
  pub accepted : r.accepted ≡ some s
  pub silent : r.readable s ≡ false
  pub sends : Sends r.answers

-- A round in which a whole response of a kind comes in on socket `s`.
pub record Brings (hdr_len max_len : ℕ) (c : Codec) (l s : ℕ) (kind : Kind) (r : Round)
    : Type 0 where
  pub ready : r.ready ≡ true
  pub alone : r.readable l ≡ false
  pub speaks : r.readable s ≡ true
  pub b : ℕ
  pub peek : List ℕ
  pub size : ℕ
  pub peeked : r.peeked ≡ got b peek
  pub enough : hdr_len ≤ suc (length peek)
  pub header : c.header (b ∷ peek) ≡ some (kind, size)
  pub some_body : hdr_len < message_size hdr_len size
  pub fits : message_size hdr_len size ≤ max_len
  pub memory : r.memory ≡ true
  pub b' : ℕ
  pub buf : List ℕ
  pub size' : ℕ
  pub response : Response
  pub received : r.received ≡ got b' buf
  pub header' : c.header (b' ∷ buf) ≡ some (kind, size')
  pub body : c.body (b' ∷ buf) ≡ some response
  pub sends : Sends r.answers

handle_lem :
    (a : Answers) (c : Codec) (kind : Kind) (n : ℕ) (buf : List ℕ) (p : Response) (v : Vnf)
    → c.header buf ≡ some (kind, n)
    → is_known kind ≡ true
    → c.body buf ≡ some p
    → handle_p5_message a c buf v ≡ on_response a kind p v
unfolding handle_p5_message
handle_lem a c kind n buf p v h k q =
    ap (on_message a c buf v) h ∙ ap (unpack a c buf kind v) k ∙ ap (on_body a kind v) q

read_lem :
    (hdr_len max_len : ℕ) (c : Codec) (l s : ℕ) (kind : Kind) (r : Round) (v : Vnf)
    → (br : Brings hdr_len max_len c l s kind r) → is_known kind ≡ true
    → p5_read_dispatch hdr_len max_len c r v ≡ (pos 1, on_response r.answers kind br.response v)
unfolding p5_read_dispatch
read_lem hdr_len max_len c l s kind r v br k =
    ap (λ p. on_peek hdr_len max_len c r p v) br.peeked
    ∙ if_no _ _ (ge→ltb (suc (length br.peek)) hdr_len br.enough)
    ∙ ap (λ o. on_header hdr_len max_len c r o v) br.header
    ∙ if_no _ _ plausible
    ∙ if_no _ _ (ap not br.memory)
    ∙ ap (λ got'. take_message r.answers c got' v) br.received
    ∙ ap (λ (w : Vnf). (pos 1, w))
        (handle_lem r.answers c kind br.size' (br.b' ∷ br.buf) br.response v br.header' k br.body)
  where
    plausible :
        (leb (message_size hdr_len br.size) hdr_len || ltb max_len (message_size hdr_len br.size))
        ≡ false
    plausible = ground (arith, br.some_body, br.fits)

-- The session behind each of the three rounds.
abbrev greeted : ℕ → Vnf → Vnf
greeted s v = record v {
  p5_sock = some s;
  pnf_state = param_sent;
  log = (v.log ++ (opened s ∷ [])) ++ (sendmsg s pnf_param ∷ []);
}

abbrev configured : ℕ → Vnf → Vnf
configured s v = record (emit (sendmsg s (pnf_config (v.phy_id % 2 ^ 16))) v) {
  pnf_state = config_sent;
}

abbrev served_by : ℕ → Vnf → Vnf
served_by s v = record (emit start_threads (emit (sendmsg s pnf_start) v)) {
  pnf_state = running;
  p7_threads_started = true;
}

five :
    (log : List Effect) (e1 e2 e3 e4 e5 : Effect)
    → ((((log ++ (e1 ∷ [])) ++ (e2 ∷ [])) ++ (e3 ∷ [])) ++ (e4 ∷ [])) ++ (e5 ∷ [])
      ≡ log ++ (e1 ∷ e2 ∷ e3 ∷ e4 ∷ e5 ∷ [])
five log e1 e2 e3 e4 e5 = simp append_assoc

module _ (hdr_len max_len : ℕ) (c : Codec) (l s : ℕ) where
  connects_lem :
      (r : Round) (v : Vnf)
      → Connects l s r
      → v.listener ≡ some l
      → v.p5_sock ≡ none
      → listener_round hdr_len max_len c r v ≡ greeted s v
  unfolding listener_round accept_pnf send_pnf_param_req
  connects_lem r v k el es =
      let w : Vnf = record (emit (opened s) v) { p5_sock = some s; pnf_state = connected } in
      if_no _ _ (ap not k.ready)
      ∙ ap (served hdr_len max_len c r) (
          if_yes _ _ (ap (is_set r.readable) el ∙ k.knocks)
          ∙ ap (λ p. greet r.answers (accept_with p r.accepted v)) es
          ∙ ap (λ o. greet r.answers (attach o v)) k.accepted
          ∙ ap (λ out. or_close (moved param_sent out))
              (send_lem r.answers pnf_param w s k.sends refl))
      ∙ if_no _ _ k.silent

  brings_lem :
      (kind : Kind) (r : Round) (v : Vnf)
      → (br : Brings hdr_len max_len c l s kind r) → is_known kind ≡ true
      → v.listener ≡ some l
      → v.p5_sock ≡ some s
      → listener_round hdr_len max_len c r v ≡ on_response r.answers kind br.response v
  unfolding listener_round
  brings_lem kind r v br known el es =
      if_no _ _ (ap not br.ready)
      ∙ ap (served hdr_len max_len c r) (if_no _ _ (ap (is_set r.readable) el ∙ br.alone))
      ∙ if_yes _ _ (ap (is_set r.readable) es ∙ br.speaks)
      ∙ ap keep_or_close (read_lem hdr_len max_len c l s kind r v br known)

  -- A PNF that connects and answers the first two requests with whole messages, over libraries that send
  -- every request whole and start the threads, is brought from no session to RUNNING with the P7
  -- threads started: the socket is opened, PNF_PARAM, PNF_CONFIG with the identity of the PHY and
  -- PNF_START are sent over it in this order, the threads are started, and nothing else happens.
  pub handshake_lem :
      (r1 r2 r3 : Round) (v : Vnf)
      → Connects l s r1
      → Brings hdr_len max_len c l s Kind.pnf_param_response r2
      → Brings hdr_len max_len c l s Kind.pnf_config_response r3
      → r3.answers.threads ≡ true
      → v.listener ≡ some l
      → v.p5_sock ≡ none
      → v.p7_threads_started ≡ false
      → rounds hdr_len max_len c (r1 ∷ r2 ∷ r3 ∷ []) v ≡ record v {
        p5_sock = some s;
        pnf_state = running;
        p7_threads_started = true;
        log =
            v.log
            ++ (opened s
                ∷ sendmsg s pnf_param
                ∷ sendmsg s (pnf_config (v.phy_id % 2 ^ 16))
                ∷ sendmsg s pnf_start
                ∷ start_threads
                ∷ []);
      }
  unfolding rounds on_response send_pnf_config_req send_pnf_start_req enter_running
  handshake_lem r1 r2 r3 v k b2 b3 th el es quiet =
      let v1 : Vnf = greeted s v in
      let v2 : Vnf = configured s v1 in
      ap (λ w. listener_round hdr_len max_len c r3 (listener_round hdr_len max_len c r2 w))
        (connects_lem r1 v k el es)
      ∙ ap (listener_round hdr_len max_len c r3) (
          brings_lem Kind.pnf_param_response r2 v1 b2 refl el refl
          ∙ ap (λ out. or_close (moved config_sent out))
              (send_lem r2.answers (pnf_config (v.phy_id % 2 ^ 16)) v1 s b2.sends refl))
      ∙ brings_lem Kind.pnf_config_response r3 v2 b3 refl el refl
      ∙ ap (λ out. or_close (started r3.answers out))
          (send_lem r3.answers pnf_start v2 s b3.sends refl)
      ∙ if_no _ _ quiet
      ∙ if_yes _ _ th
      ∙ ap
          (λ es. record v {
            p5_sock = some s;
            pnf_state = running;
            p7_threads_started = true;
            log = es;
          })
          (five v.log (opened s) (sendmsg s pnf_param) (sendmsg s (pnf_config (v.phy_id % 2 ^ 16)))
            (sendmsg s pnf_start) start_threads)
