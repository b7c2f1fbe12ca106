-- ===== src/Endpoint/Listener/Stop.antt =====
-- When `oai_p7_threads_stop` returns, which joins both threads.
use x_fapi.Prelude.{
  ℕ, ◌≡◌, true, false, not, ◌&&◌, List, [], ◌∷◌, Option, none, some, ◌==◌, if_both, length, arith,
}
use x_fapi.Queue.{capacity}
use x_fapi.Endpoint.RxPool.{RxPool}
use x_fapi.Endpoint.Listener.{
  Datagram, handed, receive_round, Receiver, Step, listener, task, destroy, dispose, halt,
  push_item, listener_at, take_item, task_at, act, step, run, joined,
}

-- The listener ends only in a VNF that does not run.
abbrev Waits : Receiver → Type 0
Waits s = s.listener_ended && s.is_running ≡ false

handed-Waits : (s : Receiver) (r : Option ℕ × RxPool) → Waits s → Waits (handed s r)
handed-Waits s (item, p) w = w

push_item-Waits : (s : Receiver) (idx : ℕ) → Waits s → Waits (push_item s idx)
push_item-Waits s idx w =
    if_both Waits (not s.is_live) (λ dead. w)
      λ live.
        if_both Waits ((length s.queue == capacity) && s.is_active) (λ full. w)
          λ goes. if_both Waits (not s.is_active) (λ gone. w) λ there. w

listener_at-Waits :
    (hdr_len : ℕ) (d : Datagram) (s : Receiver) (o : Option ℕ)
    → Waits s
    → Waits (listener_at hdr_len d s o)
listener_at-Waits hdr_len d s none w =
    if_both Waits s.is_running (λ up. handed-Waits s (receive_round hdr_len d s.pool) w)
      λ down. down
listener_at-Waits hdr_len d s (some idx) w = push_item-Waits s idx w

take_item-Waits : (s : Receiver) (l : List ℕ) → Waits s → Waits (take_item s l)
take_item-Waits s [] w = if_both Waits s.is_active (λ waits. w) λ gone. w
take_item-Waits s (idx ∷ more) w = w

task_at-Waits : (s : Receiver) (o : Option ℕ) → Waits s → Waits (task_at s o)
task_at-Waits s (some idx) w = w
task_at-Waits s none w =
    if_both Waits s.popping
      (λ popping. if_both Waits (not s.is_live) (λ dead. w) λ live. take_item-Waits s s.queue w)
      λ head. if_both Waits s.is_running (λ up. w) λ down. w

act-Waits : (hdr_len : ℕ) (a : Step) (s : Receiver) → Waits s → Waits (act hdr_len a s)
unfolding act
act-Waits hdr_len (listener d) s w =
    if_both Waits s.listener_ended (λ ended. w) λ alive. listener_at-Waits hdr_len d s s.pending w
act-Waits hdr_len task s w =
    if_both Waits s.task_ended (λ ended. w) λ alive. task_at-Waits s s.working w
act-Waits hdr_len destroy s w = if_both Waits (not s.is_live) (λ dead. w) λ live. w
act-Waits hdr_len dispose s w =
    if_both Waits (not s.is_live) (λ dead. w)
      λ live. if_both Waits s.is_active (λ used. w) λ idle. w
act-Waits hdr_len halt s w = ground arith

run-Waits : (hdr_len : ℕ) (steps : List Step) (s : Receiver) → Waits s → Waits (run hdr_len steps s)
unfolding run step
run-Waits hdr_len [] s w = w
run-Waits hdr_len (a ∷ more) s w =
    run-Waits hdr_len more (step hdr_len a s)
      (if_both Waits s.is_faulted (λ over. w) λ fine. act-Waits hdr_len a s w)

-- From a listener that is alive, or a VNF that does not run, whatever the threads do in whatever order and
-- whatever comes in, both threads have ended only where the VNF does not run any more: while it runs,
-- `oai_p7_threads_stop`, which joins both, does not return.
pub stop_waits :
    (hdr_len : ℕ) (steps : List Step) (s : Receiver)
    → s.listener_ended && s.is_running ≡ false
    → joined (run hdr_len steps s) ≡ true
    → (run hdr_len steps s).is_running ≡ false
stop_waits hdr_len steps s w j = returned (run hdr_len steps s) (run-Waits hdr_len steps s w) j
  where
    returned : (s : Receiver) → Waits s → joined s ≡ true → s.is_running ≡ false
    returned s w j = ground (arith, w, j)
