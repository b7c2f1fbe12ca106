-- ===== src/Vnf/Session/Teardown.antt =====
-- The invariant of a session under a teardown.
use x_fapi.Prelude.{
  held_by, ℕ, ◌+◌, ◌≡◌, refl, sym, ap, ap₂, ◌∙◌, Bool, true, false, [], ◌∷◌, Option, none, some,
  if◌then◌else◌, arith,
}
use x_fapi.Vnf.{
  disconnected, shut, stop_threads, reset_segments, Vnf, stop_threads_if, shut_p5, torn_down,
  close_pnf_session,
}
use x_fapi.Vnf.Session.{
  starts, stops, Accounted, consistent, IsSession, starts-append, stops-append, emit_other,
  emit-Accounted,
}

-- The parts of a teardown.
stop_threads_if_lem :
    (v : Vnf) (t : Bool)
    → v.p7_threads_started ≡ t
    → IsSession v
    → let w : Vnf = stop_threads_if t v in
      (w.p7_threads_started ≡ false) × (starts w.log ≡ stops w.log)
stop_threads_if_lem v true e i =
    let p : _ ≡ _ = starts-append v.log (stop_threads ∷ []) in
    let q : _ ≡ _ = stops-append v.log (stop_threads ∷ []) in
    (refl, ground (arith, p, q, i.threads, e))
stop_threads_if_lem v false e i = (e, ground (arith, i.threads, e))

shut_p5_lem :
    (v : Vnf) (o : Option ℕ)
    → let w : Vnf = shut_p5 o v in
      (w.p7_threads_started ≡ v.p7_threads_started)
      × (starts w.log ≡ starts v.log)
      × (stops w.log ≡ stops v.log)
shut_p5_lem v none = (refl, refl, refl)
shut_p5_lem v (some fd) = let (p, q) = emit_other (shut fd) v refl in (refl, p, q)

shut_p5-none : (v : Vnf) (o : Option ℕ) → v.p5_sock ≡ o → (shut_p5 o v).p5_sock ≡ none
shut_p5-none v none e = e
shut_p5-none v (some fd) e = refl

same_socket : (t : Bool) (v : Vnf) → (stop_threads_if t v).p5_sock ≡ v.p5_sock
same_socket true v = refl
same_socket false v = refl

stop_threads_if-Accounted : (v : Vnf) (t : Bool) → Accounted v → Accounted (stop_threads_if t v)
stop_threads_if-Accounted v true i =
    emit-Accounted stop_threads v (stop_threads_if true v) refl (λ fd. refl) i
stop_threads_if-Accounted v false i = i

shut_p5-Accounted : (v : Vnf) (o : Option ℕ) → v.p5_sock ≡ o → Accounted v → Accounted (shut_p5 o v)
shut_p5-Accounted v none e i = i
shut_p5-Accounted v (some s) e i =
    emit-Accounted (shut s) v (shut_p5 (some s) v) refl
      (λ fd. let gone : _ ≡ _ = ap (held_by fd) e in omega (arith, gone)) i

-- A teardown leaves no PNF, no P7 threads, no known destination, and the state DISCONNECTED.
pub close-IsSession : (v : Vnf) → IsSession v → IsSession (close_pnf_session v)
unfolding close_pnf_session
close-IsSession v i =
    let w : Vnf = stop_threads_if v.p7_threads_started v in
    let (still, level) = stop_threads_if_lem v v.p7_threads_started refl i in
    let (same, p, q) = shut_p5_lem w v.p5_sock in
    let gone : (torn_down v).p5_sock ≡ none =
      shut_p5-none w v.p5_sock (same_socket v.p7_threads_started v) in
    let quiet : (torn_down v).p7_threads_started ≡ false = same ∙ still in
    let (p', q') = emit_other reset_segments (torn_down v) refl in
    record {
      shape = ap₂ (λ o t. consistent o disconnected t) gone quiet;
      threads = p' ∙ (p ∙ level ∙ sym q) ∙ sym q' ∙ unchanged _ _ quiet;
      sockets =
          emit-Accounted reset_segments (torn_down v) (close_pnf_session v) refl (λ fd. refl)
            (shut_p5-Accounted w v.p5_sock (same_socket v.p7_threads_started v)
              (stop_threads_if-Accounted v v.p7_threads_started i.sockets));
    }
  where
    unchanged : (n : ℕ) (t : Bool) → t ≡ false → n ≡ n + (if t then 1 else 0)
    unchanged n t e = ground arith
