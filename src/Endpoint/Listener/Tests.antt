-- ===== src/Endpoint/Listener/Tests.antt =====
-- Runs of the receive side.
use x_fapi.Prelude.{
  ℕ, zero, suc, ◌<◌, ◌≡◌, sym, refl, Bool, true, false, not, ◌&&◌, ◌||◌, List, [], ◌∷◌, none, some,
  ltb, if◌then◌else◌, get_or, replicate, arith,
}
use x_fapi.Endpoint.RxPool.{no_slot, free_slot, rx_pool_init, busy}
use x_fapi.Endpoint.Listener.{
  Datagram, Receiver, Step, listener, task, destroy, dispose, halt, act, step, run, joined,
}
use x_fapi.Endpoint.Listener.Buffers.{in_use, IsReceiver}
use x_fapi.Endpoint.Listener.Laws.{run-IsReceiver}
use x_fapi.Endpoint.Listener.Stop.{stop_waits}
use x_fapi.Endpoint.Listener.Faults.{disposes}
use x_fapi.Endpoint.Listener.Returns.{stop_returns}

abbrev fresh : Receiver
fresh = record {
  pool = rx_pool_init;
  pending = none;
  queue = [];
  popping = false;
  working = none;
  lost = [];
  is_active = true;
  is_live = true;
  is_running = true;
  listener_ended = false;
  task_ended = false;
  is_faulted = false;
}

abbrev datagram : Datagram
datagram = record {
  readable = true;
  peeked = some 18;
  message_length = some 200;
  received = some 200;
  memory = true;
}

free_in : (n i : ℕ) → i < n → (get_or (replicate n free_slot) i no_slot).in_use ≡ false
free_in zero i h = absurd (omega (arith, h))
free_in (suc n) zero h = refl
free_in (suc n) (suc i) h = free_in n i (omega (arith, h))

none_in_use : (i : ℕ) → in_use rx_pool_init i ≡ 0
unfolding rx_pool_init
none_in_use i =
    by_place (ltb i 256) (busy rx_pool_init i) (λ low. free_in 256 i (ground (arith, low)))
  where
    by_place : (b c : Bool) → (b ≡ true → c ≡ false) → ◌≡◌ {A = ℕ} (if b && c then 1 else 0) 0
    by_place true true h = ground (arith, h refl)
    by_place true false h = refl
    by_place false c h = refl

fresh-IsReceiver : IsReceiver fresh
unfolding rx_pool_init
fresh-IsReceiver = record {
  sound = record { all_slots = refl; hint_inside = omega arith };
  owners = λ i. sym (none_in_use i);
}

-- Two datagrams, of which one is handled, and one comes behind the first part of the destroy.
abbrev session : List Step
session =
    listener datagram
    ∷ listener datagram
    ∷ task
    ∷ task
    ∷ listener datagram
    ∷ task
    ∷ destroy
    ∷ listener datagram
    ∷ []

run-IsReceiver_example : IsReceiver (run 18 session fresh)
run-IsReceiver_example = run-IsReceiver 18 session fresh fresh-IsReceiver

-- The second item is dropped.
lost_run : (run 18 session fresh).lost ≡ 1 ∷ []
unfolding run step act rx_pool_init
lost_run = refl

-- Both threads come to their end.
abbrev ending : List Step
ending = halt ∷ destroy ∷ listener datagram ∷ task ∷ []

stop_waits_example : (run 18 ending fresh).is_running ≡ false
unfolding run step act
stop_waits_example = stop_waits 18 ending fresh refl refl

-- In the middle of a push, and of a round.
abbrev busy_receiver : Receiver
busy_receiver = record (run 18 (halt ∷ destroy ∷ []) fresh) {
  pending = some 3;
  working = some 4;
  queue = 5 ∷ 6 ∷ [];
}

abbrev turns : List Step
turns = task ∷ listener datagram ∷ task ∷ task ∷ listener datagram ∷ task ∷ []

stop_returns_example :
    ((run 18 turns busy_receiver).is_faulted || joined (run 18 turns busy_receiver) ≡ true)
    × (disposes turns || not (run 18 turns busy_receiver).is_faulted ≡ true)
unfolding run step act
stop_returns_example =
    stop_returns 18 turns busy_receiver refl refl refl refl (omega arith) (omega arith)

-- The task, which waits in a pop, locks the mutex that the destroy has destroyed.
fault_run : (run 18 (task ∷ halt ∷ destroy ∷ dispose ∷ task ∷ []) fresh).is_faulted ≡ true
unfolding run step act
fault_run = refl
