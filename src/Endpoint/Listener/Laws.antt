-- ===== src/Endpoint/Listener/Laws.antt =====
-- The two threads of the receive side: who owns a buffer, and when `oai_p7_threads_stop` returns.
use x_fapi.Prelude.{
  ℕ, ◌≤◌, ◌<◌, ◌≡◌, refl, ap, Bool, true, not, ◌&&◌, List, [], ◌∷◌, ◌++◌, Option, none, some, ◌==◌,
  ltb, if◌then◌else◌, if_both, if_yes, length, copies, copies-append, held_by, arith,
}
use x_fapi.Queue.{capacity}
use x_fapi.Endpoint.RxPool.{RxPool, busy}
use x_fapi.Endpoint.Listener.{
  Datagram, handed, receive_round, Receiver, Step, listener, task, destroy, dispose, halt, fault,
  listen, push_item, listener_at, take_item, finish_item, task_at, act, step, run,
}
use x_fapi.Endpoint.Listener.Buffers.{in_use, owned, IsReceiver, Made, released, receive_round-Made}

module _ (s : Receiver) (i : IsReceiver s) where
  handed-IsReceiver :
      (r : Option ℕ × RxPool) → s.pending ≡ none → Made s.pool r → IsReceiver (handed s r)
  handed-IsReceiver (item, p) e (ok, count) = record {
    sound = ok;
    owners = λ j.
        let before : _ ≡ _ = i.owners j in
        let free : held_by j s.pending ≡ 0 = ap (held_by j) e in
        let made : _ ≡ _ = count j in omega (arith, before, free, made);
  }

  listen-IsReceiver :
      (hdr_len : ℕ) (d : Datagram) → s.pending ≡ none → IsReceiver (listen hdr_len d s)
  listen-IsReceiver hdr_len d e =
      if_both IsReceiver s.is_running
        (λ up.
          handed-IsReceiver (receive_round hdr_len d s.pool) e
            (receive_round-Made s.pool i.sound hdr_len d))
        λ down. record { sound = i.sound; owners = i.owners }

  fault-IsReceiver : IsReceiver (fault s)
  fault-IsReceiver = record { sound = i.sound; owners = i.owners }

  push_item-IsReceiver : (idx : ℕ) → s.pending ≡ some idx → IsReceiver (push_item s idx)
  push_item-IsReceiver idx e =
      if_both IsReceiver (not s.is_live) (λ dead. fault-IsReceiver)
        λ live.
          if_both IsReceiver ((length s.queue == capacity) && s.is_active) (λ waits. i)
            λ goes. if_both IsReceiver (not s.is_active) (λ gone. dropped) λ there. queued
    where
      dropped : IsReceiver (record s { pending = none; lost = s.lost ++ (idx ∷ []) })
      dropped = record {
        sound = i.sound;
        owners = λ j.
            let before : _ ≡ _ = i.owners j in
            let held : held_by j s.pending ≡ held_by j (some idx) = ap (held_by j) e in
            let joins : _ ≡ _ = copies-append j s.lost (idx ∷ []) in
            omega (arith, before, held, joins);
      }

      queued : IsReceiver (record s { pending = none; queue = s.queue ++ (idx ∷ []) })
      queued = record {
        sound = i.sound;
        owners = λ j.
            let before : _ ≡ _ = i.owners j in
            let held : held_by j s.pending ≡ held_by j (some idx) = ap (held_by j) e in
            let joins : _ ≡ _ = copies-append j s.queue (idx ∷ []) in
            omega (arith, before, held, joins);
      }

  listener_at-IsReceiver :
      (hdr_len : ℕ) (d : Datagram) (o : Option ℕ)
      → s.pending ≡ o
      → IsReceiver (listener_at hdr_len d s o)
  listener_at-IsReceiver hdr_len d none e = listen-IsReceiver hdr_len d e
  listener_at-IsReceiver hdr_len d (some idx) e = push_item-IsReceiver idx e

  take_item-IsReceiver : (l : List ℕ) → s.queue ≡ l → s.working ≡ none → IsReceiver (take_item s l)
  take_item-IsReceiver [] e f =
      if_both IsReceiver s.is_active (λ waits. i)
        λ gone. record { sound = i.sound; owners = i.owners }
  take_item-IsReceiver (idx ∷ more) e f = record {
    sound = i.sound;
    owners = λ j.
        let before : _ ≡ _ = i.owners j in
        let queued : copies j s.queue ≡ copies j (idx ∷ more) = ap (copies j) e in
        let free : held_by j s.working ≡ 0 = ap (held_by j) f in
        omega (arith, before, queued, free);
  }

  finish_item-IsReceiver : (idx : ℕ) → s.working ≡ some idx → IsReceiver (finish_item s idx)
  finish_item-IsReceiver idx e =
      let mine : held_by idx s.working ≡ held_by idx (some idx) = ap (held_by idx) e in
      let one : 1 ≤ in_use s.pool idx = at_least idx mine (i.owners idx) in
      let (low, used) = used_inside idx (busy s.pool idx) one in
      let (ok, count) = released s.pool idx i.sound low used in
      record {
        sound = ok;
        owners = λ j.
            let before : _ ≡ _ = i.owners j in
            let held : held_by j s.working ≡ held_by j (some idx) = ap (held_by j) e in
            let less : _ ≡ _ = count j in omega (arith, before, held, less);
      }
    where
      at_least :
          (idx : ℕ)
          → held_by idx s.working ≡ held_by idx (some idx)
          → owned idx s ≡ in_use s.pool idx
          → 1 ≤ in_use s.pool idx
      at_least idx mine all =
          let self : held_by idx (some idx) ≡ 1 = if_yes _ _ (same idx) in
          omega (arith, mine, all, self)
        where
          same : (n : ℕ) → (n == n) ≡ true
          same n = ground arith

      used_inside :
          (idx : ℕ) (b : Bool) → 1 ≤ (if ltb idx 256 && b then 1 else 0) → (idx < 256) × (b ≡ true)
      used_inside idx b h = ground (arith, h)

  task_at-IsReceiver : (o : Option ℕ) → s.working ≡ o → IsReceiver (task_at s o)
  task_at-IsReceiver (some idx) e = finish_item-IsReceiver idx e
  task_at-IsReceiver none e =
      if_both IsReceiver s.popping
        (λ popping.
          if_both IsReceiver (not s.is_live) (λ dead. fault-IsReceiver)
            λ live. take_item-IsReceiver s.queue refl e)
        λ head.
          if_both IsReceiver s.is_running (λ up. record { sound = i.sound; owners = i.owners })
            λ down. record { sound = i.sound; owners = i.owners }

act-IsReceiver :
    (hdr_len : ℕ) (a : Step) (s : Receiver) → IsReceiver s → IsReceiver (act hdr_len a s)
unfolding act
act-IsReceiver hdr_len (listener d) s i =
    if_both IsReceiver s.listener_ended (λ ended. i)
      λ alive. listener_at-IsReceiver s i hdr_len d s.pending refl
act-IsReceiver hdr_len task s i =
    if_both IsReceiver s.task_ended (λ ended. i) λ alive. task_at-IsReceiver s i s.working refl
act-IsReceiver hdr_len destroy s i =
    if_both IsReceiver (not s.is_live) (λ dead. fault-IsReceiver s i)
      λ live. record { sound = i.sound; owners = i.owners }
act-IsReceiver hdr_len dispose s i =
    if_both IsReceiver (not s.is_live) (λ dead. fault-IsReceiver s i)
      λ live.
        if_both IsReceiver s.is_active (λ used. i)
          λ idle. record { sound = i.sound; owners = i.owners }
act-IsReceiver hdr_len halt s i = record { sound = i.sound; owners = i.owners }

step-IsReceiver :
    (hdr_len : ℕ) (a : Step) (s : Receiver) → IsReceiver s → IsReceiver (step hdr_len a s)
unfolding step
step-IsReceiver hdr_len a s i =
    if_both IsReceiver s.is_faulted (λ over. i) λ fine. act-IsReceiver hdr_len a s i

-- Every sequence of turns of the two threads, of the two parts of the destroy of the queue and of the end of
-- the VNF, whatever datagrams come in, keeps each of the 256 receive buffers that is in use with one
-- owner (the listener that pushes it, the queue, the task, or the items that were dropped by a push on
-- a queue whose destroy has begun), once, and none that is free with any, and the pool of the buffers
-- sound, up to the undefined behaviour of a lock of the destroyed mutex.
pub run-IsReceiver :
    (hdr_len : ℕ) (steps : List Step) (s : Receiver)
    → IsReceiver s
    → IsReceiver (run hdr_len steps s)
unfolding run
run-IsReceiver hdr_len [] s i = i
run-IsReceiver hdr_len (a ∷ more) s i =
    run-IsReceiver hdr_len more (step hdr_len a s) (step-IsReceiver hdr_len a s i)
