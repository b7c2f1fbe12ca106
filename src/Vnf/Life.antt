-- ===== src/Vnf/Life.antt =====
-- The VNF from its start to its stop.
use x_fapi.Prelude.{
  held_by, subst, ap, ◌∙◌, ◌+◌, Bool, true, false, ℕ, ◌≡◌, refl, sym, false, not, List, [], ◌∷◌,
  Option, none, some, if_both, arith, copies,
}
use x_fapi.Vnf.{close_pnf_session, disconnected, Vnf, Effect, opened, shut, emit}
use x_fapi.Vnf.Session.{
  IsSession, opens, shuts, starts, stops, consistent, opens-append, shuts-append, emit_other,
}
use x_fapi.Vnf.Session.Teardown.{close-IsSession}
use x_fapi.Vnf.Session.Rounds.{rounds-IsSession}
use x_fapi.Vnf.Message.{Codec}
use x_fapi.Vnf.Listener.{Round, rounds}
use x_fapi.Vnf.Lifecycle.{
  shut_if, vnf_stop, Boot, fresh_vnf, default_destination, bind_p7, listen_on, open_p5_listener,
  StartResult, up, down, spawn, with_listener, with_p7, vnf_start,
}

-- A start that fails has shut every socket that it opened, as often; one that succeeds has a consistent
-- session over two open sockets.
abbrev pub Started : StartResult → Type 0
Started (down es) = (fd : ℕ) → copies fd (opens es) ≡ copies fd (shuts es)
Started (up v) =
    IsSession v
    × ((p l : ℕ) × (v.p7_sock ≡ some p)
        × (v.listener ≡ some l)
        × (v.log ≡ opened p ∷ opened l ∷ []))

-- The VNF over the socket of P7, with a destination if there is one.
abbrev over_p7 : Boot → ℕ → Option (List ℕ) → Vnf
over_p7 b p o = default_destination b o (record (emit (opened p) fresh_vnf) { p7_sock = some p })

swap_copies : (p l fd : ℕ) → copies fd (l ∷ p ∷ []) ≡ copies fd (p ∷ l ∷ [])
swap_copies p l fd = ground arith

swap_sum :
    (p l fd : ℕ) → copies fd (p ∷ l ∷ []) ≡ 0 + (held_by fd (some l) + 0 + held_by fd (some p))
swap_sum p l fd = ground arith

module _ (b : Boot) where
  spawn-Started :
      (p l : ℕ) (o : Option (List ℕ))
      → Started (spawn b (record (emit (opened l) (over_p7 b p o)) { listener = some l }))
  spawn-Started p l none =
      if_both Started b.thread
        (λ runs. (
          record { shape = refl; threads = refl; sockets = λ fd. swap_sum p l fd },
          (p, l, refl, refl, refl),
        ))
        λ failed. λ fd. sym (swap_copies p l fd)
  spawn-Started p l (some bytes) =
      if_both Started b.thread
        (λ runs. (
          record { shape = refl; threads = refl; sockets = λ fd. swap_sum p l fd },
          (p, l, refl, refl, refl),
        ))
        λ failed. λ fd. sym (swap_copies p l fd)

  -- Without a listener, over P7 socket `p`.
  without_listener :
      (p l : ℕ) (o : Option (List ℕ))
      → Started (with_listener b (false, over_p7 b p o))
        × Started (with_listener b (false, emit (shut l) (emit (opened l) (over_p7 b p o))))
  without_listener p l none = (λ fd. refl, λ fd. sym (swap_copies p l fd))
  without_listener p l (some bytes) = (λ fd. refl, λ fd. sym (swap_copies p l fd))

  listen_on-Started :
      (p : ℕ) (o : Option (List ℕ)) (s : Option ℕ)
      → Started (with_listener b (listen_on b s (over_p7 b p o)))
  listen_on-Started p o none = (without_listener p 0 o).0
  listen_on-Started p o (some l) =
      if_both (λ out. Started (with_listener b out)) (not b.p5_bound)
        (λ failed. (without_listener p l o).1)
        λ bound.
          if_both (λ out. Started (with_listener b out)) (not b.p5_listens)
            (λ failed. (without_listener p l o).1) λ fine. spawn-Started p l o

  bind_p7-Started : (s : Option ℕ) → Started (with_p7 b (bind_p7 b s fresh_vnf))
  unfolding open_p5_listener
  bind_p7-Started none = λ fd. refl
  bind_p7-Started (some p) =
      if_both (λ out. Started (with_p7 b out)) (not b.p7_bound) (λ failed. λ fd. refl)
        λ fine. listen_on-Started p b.p7_remote_addr b.p5_socket

-- A start that fails, at whatever step, has shut every socket that it opened, as often as it opened
-- it. One that succeeds has opened the P7 socket and then the listening one and nothing else, keeps both, and is
-- a consistent session: DISCONNECTED, without a PNF and with P7 stopped.
pub vnf_start_lem : (b : Boot) → Started (vnf_start b)
unfolding vnf_start
vnf_start_lem b =
    if_both Started (not b.memory) (λ full. λ fd. refl) λ room. bind_p7-Started b b.p7_socket

-- A list of effects in which every socket is shut as often as opened, and the threads stopped as often as
-- started.
abbrev pub IsLevel : List Effect → Type 0
IsLevel es = ((fd : ℕ) → copies fd (opens es) ≡ copies fd (shuts es)) × (starts es ≡ stops es)

shut_if_lem :
    (o : Option ℕ) (v : Vnf)
    → ((fd : ℕ) → copies fd (opens (shut_if o v).log) ≡ copies fd (opens v.log))
      × ((fd : ℕ) → copies fd (shuts (shut_if o v).log) ≡ copies fd (shuts v.log) + held_by fd o)
      × (starts (shut_if o v).log ≡ starts v.log)
      × (stops (shut_if o v).log ≡ stops v.log)
shut_if_lem none v = (λ fd. refl, λ fd. omega arith, refl, refl)
shut_if_lem (some s) v =
    let (p, q) = emit_other (shut s) v refl in
    (
      λ fd. let a : _ ≡ _ = opens-append fd v.log (shut s ∷ []) in omega (arith, a),
      λ fd. let a : _ ≡ _ = shuts-append fd v.log (shut s ∷ []) in omega (arith, a),
      p,
      q,
    )

-- A session in the state DISCONNECTED.
idle : (o : Option ℕ) (t : Bool) → consistent o disconnected t ≡ true → (o ≡ none) × (t ≡ false)
idle none false h = (refl, refl)
idle none true h = ground (arith, h)
idle (some fd) t h = ground (arith, h)

shut_all :
    (v : Vnf)
    → IsSession v
    → v.pnf_state ≡ disconnected
    → IsLevel (shut_if v.p7_sock (shut_if v.listener v)).log
shut_all v i d =
    let w : Vnf = shut_if v.listener v in
    let (gone, quiet) =
      idle v.p5_sock v.p7_threads_started
        (ap (λ s. consistent v.p5_sock s v.p7_threads_started) (sym d) ∙ i.shape) in
    let (o1, s1, a1, b1) = shut_if_lem v.listener v in
    let (o2, s2, a2, b2) = shut_if_lem v.p7_sock w in
    (
      λ fd.
          let p1 : _ ≡ _ = o1 fd in
          let p2 : _ ≡ _ = o2 fd in
          let q1 : _ ≡ _ = s1 fd in
          let q2 : _ ≡ _ = s2 fd in
          let all : _ ≡ _ = i.sockets fd in
          let none_left : held_by fd v.p5_sock ≡ 0 = ap (held_by fd) gone in
          omega (arith, p1, p2, q1, q2, all, none_left),
      ground (arith, a1, a2, b1, b2, i.threads, quiet),
    )

-- A VNF that is started, whatever the system answers, goes through any sequence of rounds of the listener, and
-- is stopped, has shut every socket as often as it opened it, and stopped the P7 threads as often as it
-- started them; the calls of oai_p7_threads_stop, and of oai_p7_threads_start where it fails,
-- are taken to return.
pub life_lem :
    (b : Boot) (hdr_len max_len : ℕ) (c : Codec) (rs : List Round) (v : Vnf)
    → vnf_start b ≡ up v
    → IsLevel (vnf_stop (rounds hdr_len max_len c rs v))
unfolding vnf_stop close_pnf_session
life_lem b hdr_len max_len c rs v e =
    let (i, rest) : Started (up v) = subst Started e (vnf_start_lem b) in
    shut_all (close_pnf_session (rounds hdr_len max_len c rs v))
      (close-IsSession _ (rounds-IsSession hdr_len max_len c rs v i)) refl
