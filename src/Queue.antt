-- ===== src/Queue.antt =====
-- utils/task_mngr/itc_queue.c: the bounded queue between tasks. Each operation is the section that runs
-- under the mutex; one that finds its condition not met waits, changes nothing, and is tried again, under
-- the mutex once more. A destroy is two operations, its section and the end of the mutex and the conditions,
-- and other tasks may come between them. A lock of a mutex that is destroyed is undefined behaviour.
pub mod Ring
pub mod Laws
mod Tests
use x_fapi.Prelude.{
  ℕ, suc, ◌+◌, ◌-◌, ◌%◌, Bool, true, false, not, ◌&&◌, List, [], ◌∷◌, Option, none, some,
}
use x_fapi.Prelude.{◌==◌, if◌then◌else◌, get_or, set}

-- ITC_QUEUE_CAPACITY
abbrev pub capacity : ℕ
capacity = 50

-- `ITC_Queue_t`; an item is a pointer, as a number. `is_live` says that the mutex and the conditions are
-- initialised and not destroyed.
pub record Queue : Type 0 where
  pub buffer : List ℕ
  pub head : ℕ
  pub tail : ℕ
  pub count : ℕ
  pub is_active : Bool
  pub is_live : Bool

unfoldable pub queue_init : List ℕ → Queue
queue_init buffer = record {
  buffer = buffer;
  head = 0;
  tail = 0;
  count = 0;
  is_active = true;
  is_live = true;
}

pub data Op : Type 0 where
  push : ℕ → Op
  pop : Op
  destroy : Op
  dispose : Op

-- What an operation answers: it waits, it is done, it returns an item (none for NULL), or its behaviour is
-- undefined.
pub data Answer : Type 0 where
  waits : Answer
  done : Answer
  popped : Option ℕ → Answer
  undefined : Answer

unfoldable pub queue_push : ℕ → Queue → Answer × Queue
queue_push item q =
    if not q.is_live
    then (undefined, q)
    else if (q.count == capacity) && q.is_active
    then (waits, q)
    else if not q.is_active
    then (done, q)
    else (
      done,
      record q {
        buffer = set q.buffer q.tail item;
        tail = (q.tail + 1) % capacity;
        count = q.count + 1;
      },
    )

unfoldable pub queue_pop : Queue → Answer × Queue
queue_pop q =
    if not q.is_live
    then (undefined, q)
    else if (q.count == 0) && q.is_active
    then (waits, q)
    else if not q.is_active && (q.count == 0)
    then (popped none, q)
    else (
      popped (some (get_or q.buffer q.head 0)),
      record q { head = (q.head + 1) % capacity; count = q.count - 1 },
    )

-- `itc_queue_destroy` up to the unlock.
unfoldable pub queue_destroy : Queue → Answer × Queue
queue_destroy q = if not q.is_live then (undefined, q) else (done, record q { is_active = false })

-- The rest of it, which no task comes to while the queue is active.
unfoldable pub queue_dispose : Queue → Answer × Queue
queue_dispose q =
    if not q.is_live
    then (undefined, q)
    else if q.is_active
    then (waits, q)
    else (done, record q { is_live = false })

unfoldable pub step : Op → Queue → Answer × Queue
unfolding queue_push queue_pop queue_destroy queue_dispose
step (push item) q = queue_push item q
step pop q = queue_pop q
step destroy q = queue_destroy q
step dispose q = queue_dispose q

-- Any order in which tasks get hold of the mutex.
unfoldable pub run : List Op → Queue → List Answer
unfolding step
run [] q = []
run (op ∷ ops) q = let (a, q') = step op q in a ∷ run ops q'
