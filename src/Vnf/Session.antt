-- ===== src/Vnf/Session.antt =====
-- What holds of a session at every round of the listener.
mod Sends
pub mod Teardown
mod Steps
pub mod Rounds
use x_fapi.Prelude.{
  held_by, if_both, ◌%◌, ◌^◌, ◌&&◌, ◌||◌, ℕ, zero, suc, ◌+◌, ◌≡◌, ◌≢◌, refl, sym, ap, ap₂, ◌∙◌,
  Bool, true, false, not, List, [], ◌∷◌, ◌++◌, Option, none, some, ℤ, pos, negsuc, if◌then◌else◌,
  inl, inr, Bool-cases, ◌==◌, arith, copies, length,
}
use x_fapi.Vnf.{
  PnfState, disconnected, connected, param_sent, config_sent, start_sent, running, P5Request,
  pnf_param, pnf_config, pnf_start, Effect, opened, shut, sendmsg, start_threads, stop_threads,
  reset_segments, respond, Vnf, emit, Answers, send_p5, moved, send_pnf_param_req,
  send_pnf_config_req, stop_threads_if, shut_p5, torn_down, close_pnf_session, is_running,
  enter_running, started, send_pnf_start_req, all_sent, send_packed, send_to,
}
use x_fapi.Vnf.Message.{
  Kind, Codec, Response, or_close, latch_address, latch_port, on_response, handle_p5_message,
  is_known,
}
use x_fapi.Vnf.Listener.{
  Received, Round, reject, attach, accept_pnf, take_message, p5_read_dispatch, greet, keep_or_close,
  listener_round, rounds,
}

-- How often the P7 threads were started, and stopped.
abbrev pub starts : List Effect → ℕ
starts [] = 0
starts (start_threads ∷ es) = suc (starts es)
starts (e ∷ es) = starts es

abbrev pub stops : List Effect → ℕ
stops [] = 0
stops (stop_threads ∷ es) = suc (stops es)
stops (e ∷ es) = stops es

-- The sockets that were opened, and those that were shut.
abbrev pub opens : List Effect → List ℕ
opens [] = []
opens (opened fd ∷ es) = fd ∷ opens es
opens (e ∷ es) = opens es

abbrev pub shuts : List Effect → List ℕ
shuts [] = []
shuts (shut fd ∷ es) = fd ∷ shuts es
shuts (e ∷ es) = shuts es

-- How many of the three places of a session hold a socket.
abbrev pub held : ℕ → Vnf → ℕ
held fd v = held_by fd v.listener + held_by fd v.p5_sock + held_by fd v.p7_sock

-- Every socket was opened as often as it was shut and is held.
abbrev pub Accounted : Vnf → Type 0
Accounted v = (fd : ℕ) → copies fd (opens v.log) ≡ copies fd (shuts v.log) + held fd v

abbrev pub is_disconnected : PnfState → Bool
is_disconnected disconnected = true
is_disconnected _ = false

-- The state is DISCONNECTED if and only if no PNF is attached; then P7 does not run, and in the state RUNNING it
-- does.
abbrev pub consistent : Option ℕ → PnfState → Bool → Bool
consistent none s threads = is_disconnected s && not threads
consistent (some fd) s threads = not (is_disconnected s) && (not (is_running s) || threads)

-- The threads were started once more than stopped if P7 runs, and as often otherwise, and no socket is
-- lost.
pub record IsSession (v : Vnf) : Type 0 where
  pub shape : consistent v.p5_sock v.pnf_state v.p7_threads_started ≡ true
  pub threads : starts v.log ≡ stops v.log + (if v.p7_threads_started then 1 else 0)
  pub sockets : Accounted v

pub starts-append : (xs ys : List Effect) → starts (xs ++ ys) ≡ starts xs + starts ys
starts-append [] ys = omega arith
starts-append (x ∷ xs) ys = let ih : _ ≡ _ = starts-append xs ys in ground (arith, ih)

pub stops-append : (xs ys : List Effect) → stops (xs ++ ys) ≡ stops xs + stops ys
stops-append [] ys = omega arith
stops-append (x ∷ xs) ys = let ih : _ ≡ _ = stops-append xs ys in ground (arith, ih)

pub opens-append :
    (fd : ℕ) (xs ys : List Effect)
    → copies fd (opens (xs ++ ys)) ≡ copies fd (opens xs) + copies fd (opens ys)
opens-append fd [] ys = omega arith
opens-append fd (x ∷ xs) ys = let ih : _ ≡ _ = opens-append fd xs ys in ground (arith, ih)

pub shuts-append :
    (fd : ℕ) (xs ys : List Effect)
    → copies fd (shuts (xs ++ ys)) ≡ copies fd (shuts xs) + copies fd (shuts ys)
shuts-append fd [] ys = omega arith
shuts-append fd (x ∷ xs) ys = let ih : _ ≡ _ = shuts-append fd xs ys in ground (arith, ih)

-- An effect on the threads, and one on the sockets.
abbrev pub of_threads : Effect → Bool
of_threads start_threads = true
of_threads stop_threads = true
of_threads _ = false

abbrev pub of_sockets : Effect → Bool
of_sockets (opened fd) = true
of_sockets (shut fd) = true
of_sockets _ = false

pub emit_other :
    (e : Effect) (v : Vnf)
    → of_threads e ≡ false
    → (starts (v.log ++ (e ∷ [])) ≡ starts v.log) × (stops (v.log ++ (e ∷ [])) ≡ stops v.log)
emit_other e v h =
    let p : _ ≡ _ = starts-append v.log (e ∷ []) in
    let q : _ ≡ _ = stops-append v.log (e ∷ []) in ground (arith, p, q)

-- The balance of a socket moves with the places that hold it.
pub emit-Accounted :
    (e : Effect) (v w : Vnf)
    → w.log ≡ v.log ++ (e ∷ [])
    → ((fd : ℕ) → copies fd (opens (e ∷ [])) + held fd v ≡ copies fd (shuts (e ∷ [])) + held fd w)
    → Accounted v
    → Accounted w
emit-Accounted e v w l moves i fd =
    let p : _ ≡ _ = opens-append fd v.log (e ∷ []) in
    let q : _ ≡ _ = shuts-append fd v.log (e ∷ []) in
    let before : _ ≡ _ = i fd in
    let step : _ ≡ _ = moves fd in
    let o : _ ≡ _ = ap (λ es. copies fd (opens es)) l in
    let s : _ ≡ _ = ap (λ es. copies fd (shuts es)) l in omega (arith, p, q, before, step, o, s)

neutral :
    (e : Effect) (n fd : ℕ)
    → of_sockets e ≡ false
    → copies fd (opens (e ∷ [])) + n ≡ copies fd (shuts (e ∷ [])) + n
neutral e n fd h = ground arith

pub emit-IsSession :
    (e : Effect) (v : Vnf)
    → of_threads e ≡ false
    → of_sockets e ≡ false
    → IsSession v
    → IsSession (emit e v)
emit-IsSession e v h n i =
    let (p, q) = emit_other e v h in
    record {
      shape = i.shape;
      threads = p ∙ i.threads ∙ ap (λ n. n + (if v.p7_threads_started then 1 else 0)) (sym q);
      sockets = emit-Accounted e v (emit e v) refl (λ fd. neutral e (held fd v) fd n) i.sockets;
    }
