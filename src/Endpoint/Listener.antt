-- ===== src/Endpoint/Listener.antt =====
-- core/OAI_OCUDU/oai_p7.c: the two threads of the receive side, `oai_p7_listener_thread` and
-- `oai_p7_rx_task_thread`, as steps in any order, with the queue between them and `oai_p7_threads_stop`. A
-- turn of a thread is what it does up to its next lock of the queue or its next look at the flag. A
-- queued item is the buffer that it holds; the queue is the list that it stands for. What the task does
-- with a message is in Segments.
pub mod Buffers
pub mod Laws
pub mod Stop
pub mod Faults
pub mod Turns
pub mod Returns
mod Tests
use x_fapi.Prelude.{
  ℕ, Bool, true, false, not, ◌&&◌, ◌||◌, List, [], ◌∷◌, ◌++◌, Option, none, some, ◌==◌, ltb,
  if◌then◌else◌, get_or, set, length,
}
use x_fapi.Queue.{capacity}
use x_fapi.Endpoint.RxPool.{RxPool, no_slot, rx_pool_acquire, rx_pool_release}

-- OAI_VNF_P7_RX_SLOT_BYTES
abbrev pub slot_bytes : ℕ
slot_bytes = 65536

-- What a round of the listener meets: whether the socket is readable, the bytes that a peek gives (none if
-- it gives no byte), the length in the header (none if it does not unpack), the bytes that the reception
-- gives (none if it gives no byte), and whether there is memory for an item.
pub record Datagram : Type 0 where
  pub readable : Bool
  pub peeked : Option ℕ
  pub message_length : Option ℕ
  pub received : Option ℕ
  pub memory : Bool

abbrev pub filled : ℕ → ℕ → RxPool → RxPool
filled mlen idx p = record p {
  slots = set p.slots idx (record (get_or p.slots idx no_slot) { length = mlen });
}

abbrev pub given_back : ℕ → RxPool → Option ℕ × RxPool
given_back idx p = (none, rx_pool_release p (some idx))

-- Into the buffer `idx`: the item for the queue, or the buffer given back.
abbrev pub read_into : Datagram → ℕ → ℕ → RxPool → Option ℕ → Option ℕ × RxPool
read_into d mlen idx p none = given_back idx p
read_into d mlen idx p (some n) =
    if not (n == mlen)
    then given_back idx p
    else if not d.memory
    then given_back idx (filled mlen idx p)
    else (some idx, filled mlen idx p)

-- With a buffer, or none.
abbrev pub with_slot : Datagram → ℕ → Option ℕ × RxPool → Option ℕ × RxPool
with_slot d mlen (none, p) = (none, p)
with_slot d mlen (some idx, p) = read_into d mlen idx p d.received

abbrev pub sized : ℕ → Datagram → RxPool → Option ℕ → Option ℕ × RxPool
sized hdr_len d p none = (none, p)
sized hdr_len d p (some mlen) =
    if ltb mlen hdr_len || ltb slot_bytes mlen
    then (none, p)
    else with_slot d mlen (rx_pool_acquire p)

abbrev pub peeked_at : ℕ → Datagram → RxPool → Option ℕ → Option ℕ × RxPool
peeked_at hdr_len d p none = (none, p)
peeked_at hdr_len d p (some n) =
    if ltb n hdr_len then (none, p) else sized hdr_len d p d.message_length

-- A round of the listener up to the push: the buffer of the item that it made, if it made one.
unfoldable pub receive_round : ℕ → Datagram → RxPool → Option ℕ × RxPool
unfolding rx_pool_acquire rx_pool_release
receive_round hdr_len d p = if not d.readable then (none, p) else peeked_at hdr_len d p d.peeked

-- Both threads: `pending` is the item that the listener pushes, `working` the one that the task handles,
-- `popping` says that the task is in a pop, and `lost` has the items that a push on a queue that is not
-- active dropped. `is_live` says that the mutex of the queue is not destroyed; a thread that locks it
-- afterwards is undefined behaviour, `is_faulted`, behind which nothing is said.
pub record Receiver : Type 0 where
  pub pool : RxPool
  pub pending : Option ℕ
  pub queue : List ℕ
  pub popping : Bool
  pub working : Option ℕ
  pub lost : List ℕ
  pub is_active : Bool
  pub is_live : Bool
  pub is_running : Bool
  pub listener_ended : Bool
  pub task_ended : Bool
  pub is_faulted : Bool

-- A turn of the listener, with the datagram that it meets if it comes to the head of its loop, a turn of the
-- task, the two parts of the destroy of the queue, and the end of the VNF.
pub data Step : Type 0 where
  listener : Datagram → Step
  task : Step
  destroy : Step
  dispose : Step
  halt : Step

abbrev pub fault : Receiver → Receiver
fault s = record s { is_faulted = true }

abbrev pub handed : Receiver → Option ℕ × RxPool → Receiver
handed s (item, p) = record s { pool = p; pending = item }

-- The head of the loop.
abbrev pub listen : ℕ → Datagram → Receiver → Receiver
listen hdr_len d s =
    if s.is_running
    then handed s (receive_round hdr_len d s.pool)
    else record s { listener_ended = true }

-- `itc_queue_push`
abbrev pub push_item : Receiver → ℕ → Receiver
push_item s idx =
    if not s.is_live
    then fault s
    else if (length s.queue == capacity) && s.is_active
    then s
    else if not s.is_active
    then record s { pending = none; lost = s.lost ++ (idx ∷ []) }
    else record s { pending = none; queue = s.queue ++ (idx ∷ []) }

-- What the listener does next: it is in a push, or at the head of its loop.
abbrev pub listener_at : ℕ → Datagram → Receiver → Option ℕ → Receiver
listener_at hdr_len d s none = listen hdr_len d s
listener_at hdr_len d s (some idx) = push_item s idx

-- `itc_queue_pop` under its mutex; without an item the task ends.
abbrev pub take_item : Receiver → List ℕ → Receiver
take_item s [] = if s.is_active then s else record s { popping = false; task_ended = true }
take_item s (idx ∷ more) = record s { popping = false; queue = more; working = some idx }

abbrev pub pop_item : Receiver → Receiver
pop_item s = if not s.is_live then fault s else take_item s s.queue

abbrev pub finish_item : Receiver → ℕ → Receiver
finish_item s idx = record s { pool = rx_pool_release s.pool (some idx); working = none }

-- The head of the loop of the task.
abbrev pub look : Receiver → Receiver
look s = if s.is_running then record s { popping = true } else record s { task_ended = true }

-- What the task does next: it ends its round, or it is in a pop, or at the head of its loop.
abbrev pub task_at : Receiver → Option ℕ → Receiver
task_at s (some idx) = finish_item s idx
task_at s none = if s.popping then pop_item s else look s

-- `itc_queue_destroy` up to its unlock, and the rest of it.
abbrev pub destroy_queue : Receiver → Receiver
destroy_queue s = if not s.is_live then fault s else record s { is_active = false }

abbrev pub dispose_queue : Receiver → Receiver
dispose_queue s =
    if not s.is_live then fault s else (if s.is_active then s else record s { is_live = false })

unfoldable pub act : ℕ → Step → Receiver → Receiver
unfolding receive_round
act hdr_len (listener d) s = if s.listener_ended then s else listener_at hdr_len d s s.pending
act hdr_len task s = if s.task_ended then s else task_at s s.working
act hdr_len destroy s = destroy_queue s
act hdr_len dispose s = dispose_queue s
act hdr_len halt s = record s { is_running = false }

unfoldable pub step : ℕ → Step → Receiver → Receiver
unfolding act
step hdr_len a s = if s.is_faulted then s else act hdr_len a s

-- The steps in any order.
unfoldable pub run : ℕ → List Step → Receiver → Receiver
unfolding step
run hdr_len [] s = s
run hdr_len (a ∷ more) s = run hdr_len more (step hdr_len a s)

-- `itc_queue_init`: items that are still there are dropped.
abbrev pub fresh_queue : Receiver → Receiver
fresh_queue s = record s { queue = []; lost = s.lost ++ s.queue; is_active = true; is_live = true }

-- How `oai_p7_threads_start` goes on: without a thread; with the listener alone, as the task could not be
-- created, where the two parts of a destroy and a join of the listener follow; or with both threads.
pub data Start : Type 0 where
  without_threads : Receiver → Start
  listener_alone : Receiver → Start
  with_threads : Receiver → Start

-- A new thread is at the head of its loop.
abbrev pub at_heads : Bool → Receiver → Receiver
at_heads no_task s = record (fresh_queue s) {
  pending = none;
  popping = false;
  working = none;
  listener_ended = false;
  task_ended = no_task;
}

-- The two flags say whether the listener and the task can be created.
unfoldable pub threads_start : Bool → Bool → Receiver → Start
threads_start first second s =
    if not first
    then without_threads (fresh_queue s)
    else if not second
    then listener_alone (at_heads true s)
    else with_threads (at_heads false s)

-- `oai_p7_threads_stop` returns once it has joined both threads.
abbrev pub joined : Receiver → Bool
joined s = s.listener_ended && s.task_ended
