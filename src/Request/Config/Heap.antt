-- ===== src/Request/Config/Heap.antt =====
-- The heap of `ocudu_l2l1_config_request`: each block that is allocated is freed, once.
pub mod Track
use x_fapi.Prelude.{
  ℕ, zero, suc, ◌+◌, ◌<◌, ◌≡◌, refl, ap, ◌∙◌, Bool, true, false, List, [], ◌∷◌, ◌++◌, ◌&&◌, Option,
  none, some, ℤ, ◌==◌, ltb, leb, if◌then◌else◌, arith, inl, inr, Bool-cases, length, some_value,
}
use x_fapi.Request.Config.Message.{ConfigReq}
use x_fapi.Request.Config.{
  HeapOp, alloc, release, request, prach_list, tdd_list, slot_list, alloc_slots, free_slots,
  config_req_free, send_and_free, after_slots, fill_tdd, build,
}
pub use x_fapi.Request.Config.Heap.Track.{touch, track}
use x_fapi.Request.Config.Heap.Track.{
  alloc_elsewhere, free_elsewhere, in_range, track-append, track-alloc_slots, track-free_slots,
  stopped, done, track-cons, track-two,
}

-- The state of block `b` behind each part of a run: the slots, their release, and the lists' releases.
module _ (b : ℕ) (slots freed : List HeapOp) (l m x y z : Bool) where
  sent_balanced :
      track b l slots ≡ some m
      → touch b m (release prach_list) ≡ some x
      → track b x freed ≡ some y
      → touch b y (release tdd_list) ≡ some z
      → touch b z (release request) ≡ some false
      → track b l (slots ++ (release prach_list ∷ ((freed ++ (release tdd_list ∷ [])) ++ done)))
        ≡ some false
  unfolding track
  sent_balanced s p f t q =
      track-append b l m slots _ s
      ∙ track-cons b m x (release prach_list) ((freed ++ (release tdd_list ∷ [])) ++ done) p
      ∙ track-append b x z (freed ++ (release tdd_list ∷ [])) done (
          track-append b x y freed (release tdd_list ∷ []) f
          ∙ track-cons b y z (release tdd_list) [] t)
      ∙ track-cons b z false (release request) [] q

  failed_balanced :
      track b l slots ≡ some m
      → track b m freed ≡ some x
      → touch b x (release tdd_list) ≡ some y
      → touch b y (release prach_list) ≡ some z
      → touch b z (release request) ≡ some false
      → track b l (slots ++ (freed ++ (release tdd_list ∷ release prach_list ∷ done))) ≡ some false
  unfolding track
  failed_balanced s f t p q =
      track-append b l m slots _ s
      ∙ track-append b m x freed _ f
      ∙ track-two b x y z (release tdd_list) (release prach_list) done t p
      ∙ track-cons b z false (release request) [] q

-- The three lists are allocated.
abbrev lists : List HeapOp → List HeapOp
lists ops = alloc request ∷ alloc prach_list ∷ alloc tdd_list ∷ ops

alloc_other : (b a : ℕ) (live : Bool) → a < b → touch b live (alloc a) ≡ some live
unfolding touch
alloc_other b a live h = ground arith

release_other : (b a : ℕ) (live : Bool) → a < b → touch b live (release a) ≡ some live
unfolding touch
release_other b a live h = ground arith

module _ (mem : ℕ → Bool) (n k : ℕ) (e : length (alloc_slots mem 0 n).0 ≡ k) where
  abbrev taken : List HeapOp
  taken = (alloc_slots mem 0 n).0

  -- The calls of a run that gets to the end, and of one that a slot stops.
  abbrev whole_run : List HeapOp
  whole_run =
      lists (taken ++ (release prach_list ∷ ((free_slots 0 k ++ (release tdd_list ∷ [])) ++ done)))

  abbrev broken_run : List HeapOp
  broken_run = lists (taken ++ (free_slots 0 k ++ (release tdd_list ∷ release prach_list ∷ done)))

  three_skipped :
      (b : ℕ) (ops : List HeapOp)
      → 2 < b
      → track b false ops ≡ some false
      → track b false (lists ops) ≡ some false
  three_skipped b ops h t =
      track-two b false false false (alloc request) (alloc prach_list) (alloc tdd_list ∷ ops)
        (alloc_other b request false (omega arith)) (alloc_other b prach_list false (omega arith))
      ∙ track-cons b false false (alloc tdd_list) ops (alloc_other b tdd_list false h)
      ∙ t

  slot_freed :
      (b : ℕ)
      → 2 < b
      → (track b false whole_run ≡ some false) × (track b false broken_run ≡ some false)
  slot_freed b h =
      let live : Bool = in_range b 0 k in
      let s : track b false taken ≡ some live =
        track-alloc_slots b mem 0 n ∙ ap (λ j. some (in_range b 0 j)) e in
      let f : track b live (free_slots 0 k) ≡ some false = track-free_slots b 0 k in
      let p : (x : Bool) → touch b x (release prach_list) ≡ some x =
        λ x. release_other b prach_list x (omega arith) in
      let t : touch b false (release tdd_list) ≡ some false = release_other b tdd_list false h in
      let q : touch b false (release request) ≡ some false =
        release_other b request false (omega arith) in
      (
        three_skipped b _ h
            (sent_balanced b taken (free_slots 0 k) false live live false false s (p live) f t q),
        three_skipped b _ h (
            failed_balanced b taken (free_slots 0 k) false live false false false s f t (p false)
              q),
      )

  all_freed :
      (b : ℕ) → (track b false whole_run ≡ some false) × (track b false broken_run ≡ some false)
  unfolding track touch
  all_freed zero =
      let s : _ ≡ _ = alloc_elsewhere 0 true mem 0 n (omega arith) in
      let f : _ ≡ _ = free_elsewhere 0 true 0 k (omega arith) in
      (
        sent_balanced 0 taken (free_slots 0 k) true true true true true s refl f refl refl,
        failed_balanced 0 taken (free_slots 0 k) true true true true true s f refl refl refl,
      )
  all_freed (suc zero) =
      let s : _ ≡ _ = alloc_elsewhere 1 true mem 0 n (omega arith) in
      let f : (x : Bool) → track 1 x (free_slots 0 k) ≡ some x =
        λ x. free_elsewhere 1 x 0 k (omega arith) in
      (
        sent_balanced 1 taken (free_slots 0 k) true true false false false s refl (f false) refl
            refl,
        failed_balanced 1 taken (free_slots 0 k) true true true true false s (f true) refl refl
            refl,
      )
  all_freed (suc (suc zero)) =
      let s : _ ≡ _ = alloc_elsewhere 2 true mem 0 n (omega arith) in
      let f : _ ≡ _ = free_elsewhere 2 true 0 k (omega arith) in
      (
        sent_balanced 2 taken (free_slots 0 k) true true true true false s refl f refl refl,
        failed_balanced 2 taken (free_slots 0 k) true true true false false s f refl refl refl,
      )
  all_freed (suc (suc (suc c))) = slot_freed (suc (suc (suc c))) (omega arith)

module _ (mem : ℕ → Bool) (send : ConfigReq → ℤ) (m : ConfigReq) (b : ℕ) where
  after_slots_lem :
      (n : ℕ) (failed : Option ℕ)
      → 0 + length (alloc_slots mem 0 n).0 ≡ elim failed [ none ↦ 0 + n | some q ↦ q ]
      → track b false (after_slots send m (lists (alloc_slots mem 0 n).0) n failed).0 ≡ some false
  unfolding config_req_free
  after_slots_lem n none e = (all_freed mem n n (omega (arith, e)) b).0
  after_slots_lem n (some s) e = (all_freed mem n s (omega (arith, e)) b).1

  three_calls :
      track b false (alloc request ∷ alloc prach_list ∷ release prach_list ∷ done) ≡ some false
  unfolding track touch
  three_calls = ground arith

  two_calls : track b false (alloc request ∷ done) ≡ some false
  unfolding track touch
  two_calls = ground arith

  with_table :
      (n : ℕ)
      → track b false (fill_tdd mem send m (alloc request ∷ alloc prach_list ∷ []) n).0 ≡ some false
  unfolding fill_tdd
  with_table n = elim (Bool-cases (mem tdd_list)) [
    | inl got ↦ rw got (after_slots_lem n (alloc_slots mem 0 n).1 (stopped mem 0 n))
    | inr failed ↦ rw failed three_calls
  ]

  by_table :
      (tdd : Bool) (n : ℕ)
      → track b false
          (if◌then◌else◌ {A = List HeapOp × Option ConfigReq × ℤ} tdd
            (fill_tdd mem send m (alloc request ∷ alloc prach_list ∷ []) n)
            (send_and_free send m (alloc request ∷ alloc prach_list ∷ []) false n)).0
        ≡ some false
  unfolding config_req_free
  by_table true n = with_table n
  by_table false n = three_calls

  -- Whatever allocations succeed, and whether or not there is a TDD table, each block on the heap is
  -- free at the end of the function, and on the way it is never allocated while it is allocated nor
  -- freed while it is free.
  pub build_balanced : (tdd : Bool) (n : ℕ) → track b false (build mem send m tdd n).0 ≡ some false
  unfolding build track
  build_balanced tdd n = elim (Bool-cases (mem request)) [
    | inr failed ↦ rw failed refl
    | inl got ↦ elim (Bool-cases (mem prach_list)) [
      | inr failed ↦ rw (got, failed) two_calls
      | inl also ↦ rw (got, also) (by_table tdd n)
    ]
  ]
