-- ===== src/Endpoint/Listener/Returns.antt =====
-- Once the VNF does not run and the destroy of the queue has begun, `oai_p7_threads_stop` returns, whatever
-- the order of the turns.
use x_fapi.Prelude.{
  ℕ, suc, ◌-◌, ◌≤◌, ◌≡◌, refl, ap, Bool, true, false, not, ◌&&◌, ◌||◌, List, [], ◌∷◌, Option, none,
  some, if_both, arith, inl, inr,
}
use x_fapi.Endpoint.Listener.{
  Receiver, Step, listener, task, destroy, dispose, halt, act, step, run, joined,
}
use x_fapi.Endpoint.Listener.Faults.{disposes, Sane, run-Sane}
use x_fapi.Endpoint.Listener.Turns.{
  listener_left, task_left, to_listen, to_work, IsEnding, Nearer, listener-Nearer, task-Nearer,
  destroy-Nearer, dispose-Nearer,
}

-- How many turns a list has for the listener, and for the task.
abbrev pub listener_turns : List Step → ℕ
listener_turns [] = 0
listener_turns (listener d ∷ more) = suc (listener_turns more)
listener_turns (a ∷ more) = listener_turns more

abbrev pub task_turns : List Step → ℕ
task_turns [] = 0
task_turns (task ∷ more) = suc (task_turns more)
task_turns (a ∷ more) = task_turns more

-- A stop has returned, or a thread has locked the destroyed mutex.
abbrev Over : Receiver → Type 0
Over s = s.is_faulted || joined s ≡ true

ended-Over : (s : Receiver) → to_listen s ≤ 0 → to_work s ≤ 0 → Over s
ended-Over s a b =
    by_flags s.is_faulted s.listener_ended s.task_ended s.popping s.pending s.working a b
  where
    by_flags :
        (f l t p : Bool) (o q : Option ℕ)
        → listener_left l o ≤ 0
        → task_left t p q ≤ 0
        → f || (l && t) ≡ true
    by_flags true l t p o q a b = refl
    by_flags false true true p o q a b = refl
    by_flags false false t p none q a b = absurd (omega (arith, a))
    by_flags false false t p (some idx) q a b = absurd (omega (arith, a))
    by_flags false true false true o none a b = absurd (omega (arith, b))
    by_flags false true false false o none a b = absurd (omega (arith, b))
    by_flags false true false true o (some idx) a b = absurd (omega (arith, b))
    by_flags false true false false o (some idx) a b = absurd (omega (arith, b))

module _ (hdr_len : ℕ) where
  run-faulted :
      (steps : List Step) (s : Receiver) → s.is_faulted ≡ true → Over (run hdr_len steps s)
  unfolding run step
  run-faulted [] s f = ap (λ b. b || joined s) f
  run-faulted (a ∷ more) s f = run-faulted more (step hdr_len a s) (
      if_both (λ (w : Receiver). w.is_faulted ≡ true) s.is_faulted (λ over. over)
        λ fine. absurd (ground (arith, f, fine)))

  step-Nearer :
      (n m : ℕ) (a : Step) (s : Receiver)
      → IsEnding s
      → Nearer n m s (act hdr_len a s)
      → Nearer n m s (step hdr_len a s)
  unfolding step
  step-Nearer n m a s i near = if_both (Nearer n m s) s.is_faulted (λ over. inl over) λ fine. near

  -- From one turn on to the rest, which is the argument.
  onward :
      (more : List Step) (n m : ℕ) (s r : Receiver)
      → ((r : Receiver)
          → IsEnding r
          → to_listen r ≤ listener_turns more
          → to_work r ≤ task_turns more
          → Over (run hdr_len more r))
      → Nearer n m s r
      → to_listen s - n ≤ listener_turns more
      → to_work s - m ≤ task_turns more
      → Over (run hdr_len more r)
  onward more n m s r rest (inl f) x y = run-faulted more r f
  onward more n m s r rest (inr (i, p, q)) x y =
      rest r i (omega (arith, p, x)) (omega (arith, q, y))

  run-Over :
      (steps : List Step) (s : Receiver)
      → IsEnding s
      → to_listen s ≤ listener_turns steps
      → to_work s ≤ task_turns steps
      → Over (run hdr_len steps s)
  unfolding run act
  run-Over [] s i x y = ended-Over s x y
  run-Over (listener d ∷ more) s i x y =
      onward more 1 0 s _ (run-Over more)
        (step-Nearer 1 0 (listener d) s i (listener-Nearer s i hdr_len d)) (omega (arith, x))
        (omega (arith, y))
  run-Over (task ∷ more) s i x y =
      onward more 0 1 s _ (run-Over more) (step-Nearer 0 1 task s i (task-Nearer s i))
        (omega (arith, x)) (omega (arith, y))
  run-Over (destroy ∷ more) s i x y =
      onward more 0 0 s _ (run-Over more) (step-Nearer 0 0 destroy s i (destroy-Nearer s i))
        (omega (arith, x)) (omega (arith, y))
  run-Over (dispose ∷ more) s i x y =
      onward more 0 0 s _ (run-Over more) (step-Nearer 0 0 dispose s i (dispose-Nearer s i))
        (omega (arith, x)) (omega (arith, y))
  run-Over (halt ∷ more) s i x y =
      onward more 0 0 s _ (run-Over more)
        (step-Nearer 0 0 halt s i
          (inr (record { down = refl; closed = i.closed }, omega arith, omega arith)))
        (omega (arith, x)) (omega (arith, y))

-- In a VNF that does not run, over a queue whose destroy has begun and whose mutex is still there, every
-- order of turns, of whatever the threads are in the middle of and whatever comes in, in which the
-- listener has two turns and the task four lets `oai_p7_threads_stop` return, as both threads have ended,
-- or has a thread lock the mutex that the destroy has destroyed; and the latter only if the mutex is
-- destroyed in it.
pub stop_returns :
    (hdr_len : ℕ) (steps : List Step) (s : Receiver)
    → s.is_running ≡ false
    → s.is_active ≡ false
    → s.is_live ≡ true
    → s.is_faulted ≡ false
    → 2 ≤ listener_turns steps
    → 4 ≤ task_turns steps
    → ((run hdr_len steps s).is_faulted || joined (run hdr_len steps s) ≡ true)
      × (disposes steps || not (run hdr_len steps s).is_faulted ≡ true)
stop_returns hdr_len steps s down closed there fine two four = (
  run-Over hdr_len steps s (record { down = down; closed = closed })
      (omega (arith, two, few s.listener_ended s.pending))
      (omega (arith, four, some_work s.task_ended s.popping s.working)),
  by_dispose (disposes steps) refl,
)
  where
    few : (b : Bool) (o : Option ℕ) → listener_left b o ≤ 2
    few true o = omega arith
    few false none = omega arith
    few false (some idx) = omega arith

    some_work : (b p : Bool) (o : Option ℕ) → task_left b p o ≤ 4
    some_work true p o = omega arith
    some_work false true none = omega arith
    some_work false false none = omega arith
    some_work false true (some idx) = omega arith
    some_work false false (some idx) = omega arith

    by_dispose : (b : Bool) → disposes steps ≡ b → b || not (run hdr_len steps s).is_faulted ≡ true
    by_dispose true e = refl
    by_dispose false e =
        let sane : Sane (run hdr_len steps s) =
          run-Sane hdr_len steps s (ground (arith, there, fine)) e in
        ground (arith, sane)
