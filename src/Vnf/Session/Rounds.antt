-- ===== src/Vnf/Session/Rounds.antt =====
-- The invariant of a session, round by round of the listener.
use x_fapi.Prelude.{
  held_by, ap, sym, ◌∙◌, arith, ◌+◌, ℕ, zero, suc, ◌≡◌, refl, not, ◌||◌, List, [], ◌∷◌, Option,
  none, some, ℤ, pos, negsuc, if◌then◌else◌, if_both, ltb, leb, length,
}
use x_fapi.Vnf.{
  Vnf, Answers, emit, opened, shut, pnf_param, param_sent, send_p5, moved, send_pnf_param_req,
}
use x_fapi.Vnf.Message.{Kind, Codec}
use x_fapi.Vnf.Listener.{
  Received, failed, hung_up, got, Round, reject, attach, accept_with, take_message, message_size,
  on_header, on_peek, p5_read_dispatch, greet, keep_or_close, is_set, listener_round, rounds,
}
use x_fapi.Vnf.Session.{emit_other, emit-Accounted, opens-append, shuts-append, IsSession}
use x_fapi.Vnf.Session.Sends.{send_p5-Sending, moved-IsSession}
use x_fapi.Vnf.Session.Teardown.{close-IsSession}
use x_fapi.Vnf.Session.Steps.{or_close-IsSession, handle_p5_message-IsSession}

-- A connection that is shut at once.
reject-IsSession : (o : Option ℕ) (v : Vnf) → IsSession v → IsSession (reject o v)
reject-IsSession none v i = i
reject-IsSession (some extra) v i =
    let w : Vnf = emit (opened extra) v in
    let (p, q) = emit_other (opened extra) v refl in
    let (p', q') = emit_other (shut extra) w refl in
    record {
      shape = i.shape;
      threads =
          p'
          ∙ p
          ∙ i.threads
          ∙ ap (λ n. n + (if v.p7_threads_started then 1 else 0)) (sym q ∙ sym q');
      sockets = λ fd.
          let a : _ ≡ _ = opens-append fd v.log (opened extra ∷ []) in
          let b : _ ≡ _ = shuts-append fd v.log (opened extra ∷ []) in
          let c : _ ≡ _ = opens-append fd w.log (shut extra ∷ []) in
          let d : _ ≡ _ = shuts-append fd w.log (shut extra ∷ []) in
          let before : _ ≡ _ = i.sockets fd in omega (arith, a, b, c, d, before);
    }

attach-IsSession :
    (o : Option ℕ) (v : Vnf) → v.p5_sock ≡ none → IsSession v → IsSession (attach o v).1
attach-IsSession none v e i = i
attach-IsSession (some s) v e i =
    let (p, q) = emit_other (opened s) v refl in
    record {
      shape = refl;
      threads = p ∙ i.threads ∙ ap (λ n. n + (if v.p7_threads_started then 1 else 0)) (sym q);
      sockets =
          emit-Accounted (opened s) v (attach (some s) v).1 refl
            (λ fd. let free : _ ≡ _ = ap (held_by fd) e in omega (arith, free)) i.sockets;
    }

accept_with-IsSession :
    (p o : Option ℕ) (v : Vnf) → v.p5_sock ≡ p → IsSession v → IsSession (accept_with p o v).1
accept_with-IsSession none o v e i = attach-IsSession o v e i
accept_with-IsSession (some fd) o v e i = reject-IsSession o v i

greet-IsSession : (a : Answers) (r : ℤ × Vnf) → IsSession r.1 → IsSession (greet a r)
unfolding send_pnf_param_req
greet-IsSession a (pos zero, v) i =
    or_close-IsSession (moved param_sent (send_p5 a pnf_param v))
      (moved-IsSession pnf_param v param_sent _ (send_p5-Sending a pnf_param v) refl refl i)
greet-IsSession a (pos (suc n), v) i = i
greet-IsSession a (negsuc n, v) i = i

keep_or_close-IsSession : (r : ℤ × Vnf) → IsSession r.1 → IsSession (keep_or_close r)
keep_or_close-IsSession (pos zero, v) i = close-IsSession v i
keep_or_close-IsSession (pos (suc n), v) i = i
keep_or_close-IsSession (negsuc n, v) i = close-IsSession v i

module _ (hdr_len max_len : ℕ) (c : Codec) where
  module _ (r : Round) (v : Vnf) (fd : ℕ) (e : v.p5_sock ≡ some fd) (i : IsSession v) where
    abbrev Kept : ℤ × Vnf → Type 0
    Kept out = IsSession out.1

    take_message-IsSession : (got' : Received) → Kept (take_message r.answers c got' v)
    take_message-IsSession failed = i
    take_message-IsSession hung_up = i
    take_message-IsSession (got b buf) = handle_p5_message-IsSession r.answers c v fd e i (b ∷ buf)

    on_header-IsSession : (o : Option (Kind × ℕ)) → Kept (on_header hdr_len max_len c r o v)
    on_header-IsSession none = i
    on_header-IsSession (some (kind, n)) =
        if_both Kept (leb (message_size hdr_len n) hdr_len || ltb max_len (message_size hdr_len n))
          (λ bad. i)
          λ plausible.
            if_both Kept (not r.memory) (λ bad. i) λ room. take_message-IsSession r.received

    on_peek-IsSession : (peeked : Received) → Kept (on_peek hdr_len max_len c r peeked v)
    on_peek-IsSession failed = i
    on_peek-IsSession hung_up = i
    on_peek-IsSession (got b peek) =
        if_both Kept (ltb (suc (length peek)) hdr_len) (λ short. i)
          λ whole. on_header-IsSession (c.header (b ∷ peek))

  by_readable :
      (r : Round) (v : Vnf) (o : Option ℕ)
      → v.p5_sock ≡ o
      → IsSession v
      → IsSession (
          if is_set r.readable o then keep_or_close (p5_read_dispatch hdr_len max_len c r v) else v)
  unfolding p5_read_dispatch
  by_readable r v none e i = i
  by_readable r v (some fd) e i =
      if_both IsSession (r.readable fd)
        (λ readable. keep_or_close-IsSession _ (on_peek-IsSession r v fd e i r.peeked)) λ quiet. i

  listener_round-IsSession :
      (r : Round) (v : Vnf) → IsSession v → IsSession (listener_round hdr_len max_len c r v)
  unfolding listener_round
  listener_round-IsSession r v i =
      if_both IsSession (not r.ready) (λ idle. i)
        λ ready. by_readable r _ _ refl (
          if_both IsSession (is_set r.readable v.listener)
            (λ new.
              greet-IsSession r.answers _ (accept_with-IsSession v.p5_sock r.accepted v refl i))
            λ none_new. i)

  -- Every sequence of rounds of the listener, whatever the PNF sends, the system answers and the codec makes of
  -- the bytes, keeps a session consistent: the state is DISCONNECTED if and only if no PNF is attached, P7
  -- runs in the state RUNNING and never without a PNF, the P7 threads have been started once more than
  -- stopped if they run, and as often as stopped otherwise, and each socket was opened as often as it was
  -- shut and is held; the calls of oai_p7_threads_stop, and of oai_p7_threads_start where it fails,
  -- are taken to return.
  pub rounds-IsSession :
      (rs : List Round) (v : Vnf) → IsSession v → IsSession (rounds hdr_len max_len c rs v)
  unfolding rounds
  rounds-IsSession [] v i = i
  rounds-IsSession (r ∷ rs) v i =
      rounds-IsSession rs (listener_round hdr_len max_len c r v) (listener_round-IsSession r v i)
