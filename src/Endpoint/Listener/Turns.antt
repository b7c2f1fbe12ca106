-- ===== src/Endpoint/Listener/Turns.antt =====
-- How far a turn brings each thread to its end, once the VNF does not run and the destroy of the queue has
-- begun.
use x_fapi.Prelude.{
  ℕ, ◌+◌, ◌-◌, ◌≤◌, ◌≡◌, refl, ap, ap₂, ◌∙◌, Bool, true, false, not, ◌&&◌, List, [], ◌∷◌, Option,
  none, some, ◌==◌, ◌⊎◌, if_both, if◌then◌else◌, length, arith, inl, inr,
}
use x_fapi.Queue.{capacity}
use x_fapi.Endpoint.Listener.{
  Datagram, Receiver, listener_at, take_item, task_at, destroy_queue, dispose_queue,
}

-- How many turns each thread has to go at most.
abbrev pub listener_left : Bool → Option ℕ → ℕ
listener_left true o = 0
listener_left false none = 1
listener_left false (some idx) = 2

abbrev pub task_left : Bool → Bool → Option ℕ → ℕ
task_left true p o = 0
task_left false true none = 3
task_left false false none = 1
task_left false true (some idx) = 4
task_left false false (some idx) = 2

abbrev pub to_listen : Receiver → ℕ
to_listen s = listener_left s.listener_ended s.pending

abbrev pub to_work : Receiver → ℕ
to_work s = task_left s.task_ended s.popping s.working

-- A VNF that does not run, over a queue whose destroy has begun.
pub record IsEnding (s : Receiver) : Type 0 where
  pub down : s.is_running ≡ false
  pub closed : s.is_active ≡ false

-- Behind `n` turns of the listener and `m` of the task, unless there was a fault.
abbrev pub Nearer : ℕ → ℕ → Receiver → Receiver → Type 0
Nearer n m s r =
    (r.is_faulted ≡ true)
    ⊎ (IsEnding r × (to_listen r ≤ to_listen s - n) × (to_work r ≤ to_work s - m))

module _ (s : Receiver) (i : IsEnding s) where
  kept : Nearer 0 0 s s
  kept = inr (i, omega arith, omega arith)

  listener_at-Nearer :
      (hdr_len : ℕ) (d : Datagram) (o : Option ℕ)
      → s.pending ≡ o
      → s.listener_ended ≡ false
      → Nearer 1 0 s (listener_at hdr_len d s o)
  listener_at-Nearer hdr_len d none e alive =
      if_both (Nearer 1 0 s) s.is_running (λ up. absurd (ground (arith, up, i.down)))
        λ down. inr (record { down = i.down; closed = i.closed }, omega arith, omega arith)
  listener_at-Nearer hdr_len d (some idx) e alive =
      let two : to_listen s ≡ 2 = ap₂ listener_left alive e in
      let one : listener_left s.listener_ended none ≡ 1 = ap (λ b. listener_left b none) alive in
      if_both (Nearer 1 0 s) (not s.is_live) (λ dead. inl refl)
        λ live.
          if_both (Nearer 1 0 s) ((length s.queue == capacity) && s.is_active)
            (λ full. absurd (ground (arith, full, i.closed)))
            λ goes.
              if_both (Nearer 1 0 s) (not s.is_active)
                (λ gone. inr (
                  record { down = i.down; closed = i.closed },
                  omega (arith, one, two),
                  omega arith,
                ))
                λ there. absurd (ground (arith, there, i.closed))

  pub listener-Nearer :
      (hdr_len : ℕ) (d : Datagram)
      → Nearer 1 0 s (if s.listener_ended then s else listener_at hdr_len d s s.pending)
  listener-Nearer hdr_len d =
      if_both (Nearer 1 0 s) s.listener_ended
        (λ ended.
          let over : to_listen s ≡ 0 = ap (λ b. listener_left b s.pending) ended in
          inr (i, omega (arith, over), omega arith))
        (λ alive. listener_at-Nearer hdr_len d s.pending refl alive)

  take_item-Nearer :
      (l : List ℕ)
      → s.working ≡ none
      → s.popping ≡ true
      → s.task_ended ≡ false
      → Nearer 0 1 s (take_item s l)
  take_item-Nearer [] e popping alive =
      if_both (Nearer 0 1 s) s.is_active (λ used. absurd (ground (arith, used, i.closed)))
        λ gone. inr (record { down = i.down; closed = i.closed }, omega arith, omega arith)
  take_item-Nearer (idx ∷ more) e popping alive =
      let three : to_work s ≡ 3 = at_work alive popping e in
      let two : task_left s.task_ended false (some idx) ≡ 2 =
        ap (λ b. task_left b false (some idx)) alive in
      inr (record { down = i.down; closed = i.closed }, omega arith, omega (arith, two, three))
    where
      at_work : s.task_ended ≡ false → s.popping ≡ true → s.working ≡ none → to_work s ≡ 3
      at_work a b c =
          ap (λ t. task_left t s.popping s.working) a ∙ ap₂ (λ p o. task_left false p o) b c

  task_at-Nearer :
      (o : Option ℕ) → s.working ≡ o → s.task_ended ≡ false → Nearer 0 1 s (task_at s o)
  task_at-Nearer (some idx) e alive =
      let before : to_work s ≡ task_left false s.popping (some idx) =
        ap₂ (λ t o. task_left t s.popping o) alive e in
      let after : task_left s.task_ended s.popping none ≡ task_left false s.popping none =
        ap (λ t. task_left t s.popping none) alive in
      let less : _ ≡ _ = one_less s.popping idx in
      inr (
        record { down = i.down; closed = i.closed },
        omega arith,
        omega (arith, before, after, less),
      )
    where
      one_less : (p : Bool) (idx : ℕ) → task_left false p (some idx) ≡ task_left false p none + 1
      one_less true idx = refl
      one_less false idx = refl
  task_at-Nearer none e alive =
      if_both (Nearer 0 1 s) s.popping
        (λ popping.
          if_both (Nearer 0 1 s) (not s.is_live) (λ dead. inl refl)
            λ live. take_item-Nearer s.queue e popping alive)
        λ head.
          if_both (Nearer 0 1 s) s.is_running (λ up. absurd (ground (arith, up, i.down)))
            λ down. inr (record { down = i.down; closed = i.closed }, omega arith, omega arith)

  pub task-Nearer : Nearer 0 1 s (if s.task_ended then s else task_at s s.working)
  task-Nearer =
      if_both (Nearer 0 1 s) s.task_ended
        (λ ended.
          let over : to_work s ≡ 0 = ap (λ b. task_left b s.popping s.working) ended in
          inr (i, omega arith, omega (arith, over)))
        (λ alive. task_at-Nearer s.working refl alive)

  pub destroy-Nearer : Nearer 0 0 s (destroy_queue s)
  destroy-Nearer =
      if_both (Nearer 0 0 s) (not s.is_live) (λ dead. inl refl)
        λ live. inr (record { down = i.down; closed = refl }, omega arith, omega arith)

  pub dispose-Nearer : Nearer 0 0 s (dispose_queue s)
  dispose-Nearer =
      if_both (Nearer 0 0 s) (not s.is_live) (λ dead. inl refl)
        λ live.
          if_both (Nearer 0 0 s) s.is_active (λ used. kept)
            λ idle. inr (record { down = i.down; closed = i.closed }, omega arith, omega arith)
