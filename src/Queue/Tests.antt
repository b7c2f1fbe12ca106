-- ===== src/Queue/Tests.antt =====
-- A run of the queue.
use x_fapi.Prelude.{ℕ, ◌≡◌, [], ◌∷◌, none, some, replicate, length-replicate}
use x_fapi.Queue.{queue_init, push, pop, destroy, dispose, waits, done, popped, undefined, run}
use x_fapi.Queue.Laws.{fifo, fifo_step, queue_lem}

queue_lem_example :
    run
      (pop ∷ push 5 ∷ push 6 ∷ pop ∷ destroy ∷ push 7 ∷ pop ∷ pop ∷ dispose ∷ pop ∷ [])
      (queue_init (replicate 50 0))
    ≡ waits
      ∷ done
      ∷ done
      ∷ popped (some 5)
      ∷ done
      ∷ done
      ∷ popped (some 6)
      ∷ popped none
      ∷ done
      ∷ undefined
      ∷ []
unfolding fifo fifo_step
queue_lem_example =
    queue_lem (replicate 50 0)
      (pop ∷ push 5 ∷ push 6 ∷ pop ∷ destroy ∷ push 7 ∷ pop ∷ pop ∷ dispose ∷ pop ∷ [])
      (length-replicate {A = ℕ} 50 0)
