-- ===== src/Endpoint/Listener/Faults.antt =====
-- A thread locks the mutex of the queue behind its end only where the destroy comes to that end.
use x_fapi.Prelude.{
  ℕ, ◌≡◌, refl, Bool, true, false, not, ◌&&◌, List, [], ◌∷◌, Option, none, some, ◌==◌, if_both,
  length, arith,
}
use x_fapi.Queue.{capacity}
use x_fapi.Endpoint.RxPool.{RxPool}
use x_fapi.Endpoint.Listener.{
  Datagram, handed, receive_round, Receiver, Step, listener, task, destroy, dispose, halt,
  listener_at, take_item, task_at, act, step, run,
}

-- Whether the mutex is destroyed in a list of steps.
abbrev pub disposes : List Step → Bool
disposes [] = false
disposes (dispose ∷ more) = true
disposes (a ∷ more) = disposes more

-- A mutex that is there, and no fault.
abbrev pub Sane : Receiver → Type 0
Sane s = not s.is_faulted && s.is_live ≡ true

module _ (s : Receiver) (k : Sane s) where
  live : s.is_live ≡ true
  live = ground (arith, k)

  handed-Sane : (r : Option ℕ × RxPool) → Sane (handed s r)
  handed-Sane (item, p) = k

  listener_at-Sane : (hdr_len : ℕ) (d : Datagram) (o : Option ℕ) → Sane (listener_at hdr_len d s o)
  listener_at-Sane hdr_len d none =
      if_both Sane s.is_running (λ up. handed-Sane (receive_round hdr_len d s.pool)) λ down. k
  listener_at-Sane hdr_len d (some idx) =
      if_both Sane (not s.is_live) (λ dead. absurd (ground (arith, dead, live)))
        λ there.
          if_both Sane ((length s.queue == capacity) && s.is_active) (λ full. k)
            λ goes. if_both Sane (not s.is_active) (λ gone. k) λ used. k

  take_item-Sane : (l : List ℕ) → Sane (take_item s l)
  take_item-Sane [] = if_both Sane s.is_active (λ waits. k) λ gone. k
  take_item-Sane (idx ∷ more) = k

  task_at-Sane : (o : Option ℕ) → Sane (task_at s o)
  task_at-Sane (some idx) = k
  task_at-Sane none =
      if_both Sane s.popping
        (λ popping.
          if_both Sane (not s.is_live) (λ dead. absurd (ground (arith, dead, live)))
            λ there. take_item-Sane s.queue)
        λ head. if_both Sane s.is_running (λ up. k) λ down. k

  step-Sane : (hdr_len : ℕ) (a : Step) → disposes (a ∷ []) ≡ false → Sane (step hdr_len a s)
  unfolding step act
  step-Sane hdr_len (listener d) n =
      if_both Sane s.is_faulted (λ over. k)
        λ fine.
          if_both Sane s.listener_ended (λ ended. k) λ alive. listener_at-Sane hdr_len d s.pending
  step-Sane hdr_len task n =
      if_both Sane s.is_faulted (λ over. k)
        λ fine. if_both Sane s.task_ended (λ ended. k) λ alive. task_at-Sane s.working
  step-Sane hdr_len destroy n =
      if_both Sane s.is_faulted (λ over. k)
        λ fine.
          if_both Sane (not s.is_live) (λ dead. absurd (ground (arith, dead, live))) λ there. k
  step-Sane hdr_len dispose n = absurd (cc)
  step-Sane hdr_len halt n = if_both Sane s.is_faulted (λ over. k) λ fine. k

pub run-Sane :
    (hdr_len : ℕ) (steps : List Step) (s : Receiver)
    → Sane s
    → disposes steps ≡ false
    → Sane (run hdr_len steps s)
unfolding run
run-Sane hdr_len [] s k n = k
run-Sane hdr_len (listener d ∷ more) s k n =
    run-Sane hdr_len more _ (step-Sane s k hdr_len (listener d) refl) n
run-Sane hdr_len (task ∷ more) s k n = run-Sane hdr_len more _ (step-Sane s k hdr_len task refl) n
run-Sane hdr_len (destroy ∷ more) s k n =
    run-Sane hdr_len more _ (step-Sane s k hdr_len destroy refl) n
run-Sane hdr_len (dispose ∷ more) s k n = absurd (cc)
run-Sane hdr_len (halt ∷ more) s k n = run-Sane hdr_len more _ (step-Sane s k hdr_len halt refl) n
