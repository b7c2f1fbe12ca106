-- ===== src/Vnf/Session/Steps.antt =====
-- The invariant of a session under the messages of the PNF.
use x_fapi.Prelude.{
  if_both, ◌%◌, ◌^◌, ℕ, zero, suc, ◌+◌, ◌≡◌, refl, ap, ap₂, Bool, true, false, List, [], ◌∷◌,
  Option, none, some, ℤ, pos, negsuc, arith,
}
use x_fapi.Vnf.{
  config_sent, start_sent, running, P5Request, pnf_config, pnf_start, sendmsg, start_threads, Vnf,
  emit, Answers, send_p5, moved, is_running, enter_running, started,
}
use x_fapi.Vnf.Message.{
  Kind, Codec, Response, or_close, latch_address, latch_port, on_response, handle_p5_message,
  is_known, on_body, unpack, on_message,
}
use x_fapi.Vnf.Session.{
  emit-Accounted, Accounted, starts, stops, starts-append, stops-append, consistent, IsSession,
  emit-IsSession,
}
use x_fapi.Vnf.Session.Sends.{
  Sending, unsent, partly, wholly, send_p5-Sending, set_state, moved-IsSession,
}
use x_fapi.Vnf.Session.Teardown.{close-IsSession}

-- P7 runs with a PNF attached, in the state RUNNING.
serving :
    (v : Vnf) (fd : ℕ)
    → v.p5_sock ≡ some fd
    → starts v.log ≡ stops v.log + 1
    → Accounted v
    → IsSession (record v { pnf_state = running; p7_threads_started = true })
serving v fd e level s = record {
  shape = ap (λ o. consistent o running true) e;
  threads = level;
  sockets = s;
}

pub enter_running-IsSession :
    (a : Answers) (v : Vnf) (fd : ℕ)
    → v.p5_sock ≡ some fd
    → IsSession v
    → IsSession (enter_running a v)
unfolding enter_running
enter_running-IsSession a v fd e i =
    if_both IsSession (is_running v.pnf_state) (λ already. i)
      λ yet.
        if_both IsSession v.p7_threads_started
          (λ up. record {
            shape = ap₂ (λ o t. consistent o running t) e up;
            threads = i.threads;
            sockets = i.sockets;
          })
          λ quiet.
            if_both IsSession a.threads
              (λ ok.
                let p : _ ≡ _ = starts-append v.log (start_threads ∷ []) in
                let q : _ ≡ _ = stops-append v.log (start_threads ∷ []) in
                serving (emit start_threads v) fd e (ground (arith, p, q, i.threads, quiet)) (
                  emit-Accounted start_threads v (emit start_threads v) refl (λ fd. refl)
                    i.sockets))
              (λ bad. close-IsSession v i)

started-IsSession :
    (a : Answers) (m : P5Request) (v : Vnf) (r : ℤ × Vnf)
    → Sending m v r
    → IsSession v
    → IsSession (started a r).1
started-IsSession a m v r unsent i = i
started-IsSession a m v r (partly fd e) i = emit-IsSession (sendmsg fd m) v refl refl i
started-IsSession a m v r (wholly fd e) i =
    let w : Vnf = emit (sendmsg fd m) v in
    enter_running-IsSession a (record w { pnf_state = start_sent }) fd e
      (set_state w fd start_sent e refl refl (emit-IsSession (sendmsg fd m) v refl refl i))

pub or_close-IsSession : (r : ℤ × Vnf) → IsSession r.1 → IsSession (or_close r)
or_close-IsSession (pos zero, v) i = i
or_close-IsSession (pos (suc n), v) i = close-IsSession v i
or_close-IsSession (negsuc n, v) i = close-IsSession v i

latch_port-IsSession : (o : Option ℕ) (v : Vnf) → IsSession v → IsSession (latch_port o v)
latch_port-IsSession none v i = i
latch_port-IsSession (some port) v i = record {
  shape = i.shape;
  threads = i.threads;
  sockets = i.sockets;
}

latch_address-IsSession :
    (o : Option (List ℕ)) (v : Vnf) → IsSession v → IsSession (latch_address o v)
latch_address-IsSession none v i = i
latch_address-IsSession (some bytes) v i = record {
  shape = i.shape;
  threads = i.threads;
  sockets = i.sockets;
}

on_response-IsSession :
    (a : Answers) (kind : Kind) (r : Response) (v : Vnf) (fd : ℕ)
    → v.p5_sock ≡ some fd
    → IsSession v
    → IsSession (on_response a kind r v)
unfolding on_response
on_response-IsSession a Kind.pnf_param_response r v fd e i =
    or_close-IsSession (moved config_sent (send_p5 a (pnf_config (v.phy_id % 2 ^ 16)) v)) (
      moved-IsSession (pnf_config (v.phy_id % 2 ^ 16)) v config_sent _
        (send_p5-Sending a (pnf_config (v.phy_id % 2 ^ 16)) v) refl refl i)
on_response-IsSession a Kind.pnf_config_response r v fd e i =
    or_close-IsSession (started a (send_p5 a pnf_start v))
      (started-IsSession a pnf_start v _ (send_p5-Sending a pnf_start v) i)
on_response-IsSession a Kind.pnf_start_response r v fd e i = enter_running-IsSession a v fd e i
on_response-IsSession a Kind.param_response r v fd e i =
    emit-IsSession _ _ refl refl
      (latch_port-IsSession r.p7_port _ (latch_address-IsSession r.p7_address v i))
on_response-IsSession a Kind.config_response r v fd e i = emit-IsSession _ v refl refl i
on_response-IsSession a Kind.start_response r v fd e i = i
on_response-IsSession a Kind.other r v fd e i = i

module _ (a : Answers) (c : Codec) (v : Vnf) (fd : ℕ) (e : v.p5_sock ≡ some fd)
    (i : IsSession v) where
  on_body-IsSession : (kind : Kind) (o : Option Response) → IsSession (on_body a kind v o)
  on_body-IsSession kind none = i
  on_body-IsSession kind (some r) = on_response-IsSession a kind r v fd e i

  unpack-IsSession :
      (buf : List ℕ) (kind : Kind) (known : Bool) → IsSession (unpack a c buf kind v known)
  unpack-IsSession buf kind false = i
  unpack-IsSession buf kind true = on_body-IsSession kind (c.body buf)

  on_message-IsSession : (buf : List ℕ) (o : Option (Kind × ℕ)) → IsSession (on_message a c buf v o)
  on_message-IsSession buf none = i
  on_message-IsSession buf (some (kind, len)) = unpack-IsSession buf kind (is_known kind)

  pub handle_p5_message-IsSession : (buf : List ℕ) → IsSession (handle_p5_message a c buf v)
  unfolding handle_p5_message
  handle_p5_message-IsSession buf = on_message-IsSession buf (c.header buf)
