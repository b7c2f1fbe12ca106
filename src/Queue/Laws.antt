-- ===== src/Queue/Laws.antt =====
-- The ring is a bounded queue: a list of at most 50 items, first in, first out.
use x_fapi.Prelude.{
  ℕ, zero, suc, ◌+◌, ◌-◌, ◌%◌, ◌<◌, ◌≡◌, refl, sym, ap, ap₂, subst, ◌∙◌, Bool, true, false, List,
  [], ◌∷◌, ◌++◌, none, some, arith,
}
use x_fapi.Prelude.{◌==◌, ltb, if◌then◌else◌, get_or, set, length, length-set}
use x_fapi.Queue.{
  capacity, Queue, queue_init, Op, push, pop, destroy, dispose, Answer, waits, done, popped,
  undefined, queue_push, queue_pop, queue_destroy, queue_dispose, step, run,
}
use x_fapi.Queue.Ring.{window, length-window, get-set, window-set, window-suc, IsRing, items}

-- The life of the queue: tasks use it, it is being drained, and it is no more.
pub data Phase : Type 0 where
  open_queue draining gone : Phase

-- The promise: items in order, and the phase.
unfoldable pub fifo_step : Op → List ℕ → Phase → Answer × (List ℕ × Phase)
fifo_step op items gone = (undefined, (items, gone))
fifo_step (push item) items draining = (done, (items, draining))
fifo_step (push item) items open_queue =
    if ltb (length items) capacity
    then (done, (items ++ (item ∷ []), open_queue))
    else (waits, (items, open_queue))
fifo_step pop [] open_queue = (waits, ([], open_queue))
fifo_step pop [] draining = (popped none, ([], draining))
fifo_step pop (i ∷ items) open_queue = (popped (some i), (items, open_queue))
fifo_step pop (i ∷ items) draining = (popped (some i), (items, draining))
fifo_step destroy items open_queue = (done, (items, draining))
fifo_step destroy items draining = (done, (items, draining))
fifo_step dispose items open_queue = (waits, (items, open_queue))
fifo_step dispose items draining = (done, (items, gone))

unfoldable pub fifo : List Op → List ℕ → Phase → List Answer
fifo [] items phase = []
fifo (op ∷ ops) items phase =
    let (a, (items', phase')) = fifo_step op items phase in a ∷ fifo ops items' phase'

abbrev pub active_in : Phase → Bool
active_in open_queue = true
active_in _ = false

abbrev pub live_in : Phase → Bool
live_in gone = false
live_in _ = true

abbrev ring : List ℕ → ℕ → ℕ → ℕ → Phase → Queue
ring b h t c p = record {
  buffer = b;
  head = h;
  tail = t;
  count = c;
  is_active = active_in p;
  is_live = live_in p;
}

-- A queue in a phase. One that is no more is not active.
pub record InPhase (q : Queue) (p : Phase) : Type 0 where
  pub active : q.is_active ≡ active_in p
  pub live : q.is_live ≡ live_in p

-- One step of the ring against one step of the promise.
abbrev Refines : Answer × Queue → Answer × (List ℕ × Phase) → Type 0
Refines (a, q) (b, (l, p)) = (a ≡ b) × IsRing q × (items q ≡ l) × InPhase q p

window-push :
    (b : List ℕ) (h t c item : ℕ)
    → length b ≡ 50
    → h < 50
    → c < 50
    → t ≡ (h + c) % 50
    → window (set b t item) h (c + 1) ≡ window b h c ++ (item ∷ [])
window-push b h t c item full hl cl e =
    let inside : t < length b = omega arith in
    window-suc (set b t item) h c hl
    ∙ ap₂ (λ l x. l ++ (x ∷ [])) (window-set b h c c t item hl (omega arith) cl e)
        (ap (λ i. get_or (set b t item) i 0) (sym e) ∙ get-set b t item inside)

here : {q : Queue} {p : Phase} → q.is_active ≡ active_in p → q.is_live ≡ live_in p → InPhase q p
here a l = record { active = a; live = l }

module _ (b : List ℕ) (h t : ℕ) where
  push-Refines :
      (item c : ℕ) (p : Phase) (full : Bool)
      → (c == 50) ≡ full
      → IsRing (ring b h t c p)
      → Refines (queue_push item (ring b h t c p)) (fifo_step (push item) (window b h c) p)
  unfolding queue_push fifo_step
  push-Refines item c gone full e v = (refl, v, refl, here refl refl)
  push-Refines item c open_queue true e v =
      let n : length (window b h c) ≡ c = length-window b h c in
      let no_room : ltb (length (window b h c)) 50 ≡ false = ground (arith, e, n) in
      rw (e, no_room) (refl, v, refl, here refl refl)
  push-Refines item c open_queue false e v =
      let n : length (window b h c) ≡ c = length-window b h c in
      let below : c < 50 = ground (arith, e, v.bounded) in
      let room : ltb (length (window b h c)) 50 ≡ true = ground (arith, n) in
      rw (e, room)
        (
          refl,
          record {
            full_buffer = length-set b t item ∙ v.full_buffer;
            head_in = v.head_in;
            bounded = omega arith;
            tail_at = omega (arith, v.tail_at);
          },
          window-push b h t c item v.full_buffer v.head_in below v.tail_at,
          here refl refl,
        )
  push-Refines item c draining true e v = rw e (refl, v, refl, here refl refl)
  push-Refines item c draining false e v = rw e (refl, v, refl, here refl refl)

  -- The ring behind a pop.
  popped-IsRing :
      (c : ℕ) (p : Phase) → IsRing (ring b h t (suc c) p) → IsRing (ring b ((h + 1) % 50) t c p)
  popped-IsRing c p v = record {
    full_buffer = v.full_buffer;
    head_in = omega arith;
    bounded = omega (arith, v.bounded);
    tail_at = omega (arith, v.tail_at);
  }

  pop-Refines :
      (c : ℕ) (p : Phase)
      → IsRing (ring b h t c p)
      → Refines (queue_pop (ring b h t c p)) (fifo_step pop (window b h c) p)
  unfolding queue_pop fifo_step window
  pop-Refines c gone v = (refl, v, refl, here refl refl)
  pop-Refines zero open_queue v = (refl, v, refl, here refl refl)
  pop-Refines zero draining v = (refl, v, refl, here refl refl)
  pop-Refines (suc c) open_queue v =
      let left : suc c - 1 ≡ c = omega arith in
      let some_left : (suc c == 0) ≡ false = ground arith in
      rw (some_left, left) (refl, popped-IsRing c open_queue v, refl, here refl refl)
  pop-Refines (suc c) draining v =
      let left : suc c - 1 ≡ c = omega arith in
      let some_left : (suc c == 0) ≡ false = ground arith in
      rw (some_left, left) (refl, popped-IsRing c draining v, refl, here refl refl)

  moved : (c : ℕ) (p p' : Phase) → IsRing (ring b h t c p) → IsRing (ring b h t c p')
  moved c p p' v = record {
    full_buffer = v.full_buffer;
    head_in = v.head_in;
    bounded = v.bounded;
    tail_at = v.tail_at;
  }

  ring-Refines :
      (op : Op) (c : ℕ) (p : Phase)
      → IsRing (ring b h t c p)
      → Refines (step op (ring b h t c p)) (fifo_step op (window b h c) p)
  unfolding step queue_destroy queue_dispose fifo_step
  ring-Refines (push item) c p v = push-Refines item c p (c == 50) refl v
  ring-Refines pop c p v = pop-Refines c p v
  ring-Refines destroy c open_queue v = (refl, moved c open_queue draining v, refl, here refl refl)
  ring-Refines destroy c draining v = (refl, v, refl, here refl refl)
  ring-Refines destroy c gone v = (refl, v, refl, here refl refl)
  ring-Refines dispose c open_queue v = (refl, v, refl, here refl refl)
  ring-Refines dispose c draining v = (refl, moved c draining gone v, refl, here refl refl)
  ring-Refines dispose c gone v = (refl, v, refl, here refl refl)

step-Refines :
    (op : Op) (q : Queue) (p : Phase)
    → IsRing q
    → InPhase q p
    → Refines (step op q) (fifo_step op (items q) p)
step-Refines op q p v i =
    subst (λ w. Refines (step op w) (fifo_step op (items q) p)) (sym same)
      (ring-Refines q.buffer q.head q.tail op q.count p (record {
        full_buffer = v.full_buffer;
        head_in = v.head_in;
        bounded = v.bounded;
        tail_at = v.tail_at;
      }))
  where
    same : q ≡ ring q.buffer q.head q.tail q.count p
    same =
        ap₂
          (λ a l. record {
            buffer = q.buffer;
            head = q.head;
            tail = q.tail;
            count = q.count;
            is_active = a;
            is_live = l;
          })
          i.active i.live

run_lem :
    (ops : List Op) (q : Queue) (p : Phase)
    → IsRing q
    → InPhase q p
    → run ops q ≡ fifo ops (items q) p
unfolding run fifo
run_lem [] q p v i = refl
run_lem (op ∷ ops) q p v i =
    let (e, v', same, i') = step-Refines op q p v i in
    ap₂ (λ a answers. a ∷ answers) e
      (run_lem ops (step op q).1 _ v' i' ∙ ap (λ l. fifo ops l (fifo_step op (items q) p).1.1) same)

-- Every sequence of pushes, pops and the two parts of a destroy, in the order in which tasks get hold of the
-- mutex, is answered by a fresh queue over a buffer of 50 places as by a list of at most 50 items, first in,
-- first out: a push waits at 50 items and a pop at none while the queue is active; behind the first part of
-- a destroy pushes do nothing and pops drain the rest and then return NULL; and behind the second, which
-- ends the mutex and for which the queue must not be active, the behaviour of every operation is undefined.
pub queue_lem :
    (buffer : List ℕ) (ops : List Op)
    → length buffer ≡ 50
    → run ops (queue_init buffer) ≡ fifo ops [] open_queue
unfolding queue_init window
queue_lem buffer ops full =
    run_lem ops (queue_init buffer) open_queue
      (record { full_buffer = full; head_in = omega arith; bounded = omega arith; tail_at = refl })
      (here refl refl)
