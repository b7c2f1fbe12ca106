-- ===== src/Indication/Xsm.antt =====
-- L1_to_L2/oai_l1_to_l2_p5.c, `ocudu_l2_xsm_put`: hand a body to the L2 over the xSM shared memory.
-- The library's answers are inputs; the calls made, and what is written to memory, are outputs.
use x_fapi.Prelude.{ℕ, ◌+◌, ◌%◌, ◌^◌, ◌≡◌, refl, Bool, true, false, List, [], ◌∷◌, ◌++◌}
use x_fapi.Prelude.{
  Option, none, some, ℤ, pos, negsuc, ltb, ◌==◌, ap, ◌∙◌, if_yes, if◌then◌else◌, length, arith,
}
use x_fapi.Wire.Bytes.{write_at}
use x_fapi.Wire.Header.{header_size, hdr_build}

-- What XSM answers: the buffer of XSM_AcquireBuffer (none for a failure), its address of
-- XSM_PhysToVirt as the memory found there (none for NULL), and whether XSM_Put succeeds.
pub record XsmAnswers : Type 0 where
  pub acquired : Option ℕ
  pub memory : Option (List ℕ)
  pub accepted : Bool

-- `xsm_msg_t`
pub record XsmMsg : Type 0 where
  pub payload_pa : ℕ
  pub payload_size : ℕ
  pub type_id : ℕ
  pub flags : ℕ

pub data XsmCall : Type 0 where
  acquire : XsmCall
  phys_to_virt : ℕ → XsmCall
  fill : ℕ → List ℕ → XsmCall
  send : XsmMsg → XsmCall
  notify : XsmCall
  return_buffer : ℕ → XsmCall

-- The memory of the buffer behind the header and the body.
abbrev pub filled : List ℕ → ℕ → List ℕ → ℕ → List ℕ
filled memory msg_type body now_ns =
    let m = hdr_build memory msg_type (length body) now_ns in
    if ltb 0 (length body) then write_at m header_size body else m

abbrev pub descriptor : ℕ → ℕ → List ℕ → XsmMsg
descriptor pa msg_type body = record {
  payload_pa = pa;
  payload_size = (header_size + length body) % 2 ^ 32;
  type_id = msg_type;
  flags = 0;
}

-- `ready` says that the context and the L2 handle are not null.
unfoldable pub l2_xsm_put : Bool → XsmAnswers → ℕ → ℕ → List ℕ → ℤ × List XsmCall
l2_xsm_put false x now_ns msg_type body = (negsuc 0, [])
l2_xsm_put true x now_ns msg_type body = elim x.acquired [
  | none ↦ (negsuc 0, acquire ∷ [])
  | some pa ↦ elim x.memory [
    | none ↦ (negsuc 0, acquire ∷ phys_to_virt pa ∷ return_buffer pa ∷ [])
    | some memory ↦
        let prefix =
          acquire
          ∷ phys_to_virt pa
          ∷ fill pa (filled memory msg_type body now_ns)
          ∷ send (descriptor pa msg_type body)
          ∷ [] in
        if x.accepted
        then (pos 0, prefix ++ (notify ∷ []))
        else (negsuc 0, prefix ++ (return_buffer pa ∷ []))
  ]
]

-- Whose the buffer is: the library's; the caller's, by its address and with the memory that it was filled
-- with; with a message accepted but not announced; the peer's, with the message and the memory that it
-- finds; or the library's again, by the address that was given back.
pub data Owner : Type 0 where
  of_library : Owner
  of_caller : ℕ → Option (List ℕ) → Owner
  accepted_as : XsmMsg → Option (List ℕ) → Owner
  of_peer : XsmMsg → Option (List ℕ) → Owner
  handed_back : ℕ → Owner

-- What the library makes of a call: none for a call that its caller may not make. A buffer is acquired from
-- the library, and its caller alone translates, fills, sends and returns it, by its address; a message
-- that was accepted is announced once.
unfoldable pub owner_after : XsmAnswers → XsmCall → Owner → Option Owner
owner_after x acquire of_library = elim x.acquired [
  | none ↦ some of_library
  | some pa ↦ some (of_caller pa none)
]
owner_after x (phys_to_virt a) (of_caller pa m) = if a == pa then some (of_caller pa m) else none
owner_after x (fill a memory) (of_caller pa m) =
    if a == pa then some (of_caller pa (some memory)) else none
owner_after x (send msg) (of_caller pa m) =
    if msg.payload_pa == pa
    then some (if x.accepted then accepted_as msg m else of_caller pa m)
    else none
owner_after x notify (accepted_as msg m) = some (of_peer msg m)
owner_after x (return_buffer a) (of_caller pa m) = if a == pa then some (handed_back a) else none
owner_after x call owner = none

unfoldable pub owner_of : XsmAnswers → List XsmCall → Owner → Option Owner
owner_of x [] owner = some owner
owner_of x (call ∷ calls) owner = elim (owner_after x call owner) [
  | none ↦ none
  | some next ↦ owner_of x calls next
]

-- The code, and whose the buffer is in the end.
unfoldable pub put_ends : Bool → XsmAnswers → ℕ → ℕ → List ℕ → ℤ × Option Owner
put_ends false x now_ns msg_type body = (negsuc 0, some of_library)
put_ends true x now_ns msg_type body = elim x.acquired [
  | none ↦ (negsuc 0, some of_library)
  | some pa ↦ elim x.memory [
    | none ↦ (negsuc 0, some (handed_back pa))
    | some memory ↦
        if x.accepted
        then (
          pos 0,
          some (
              of_peer
                (record {
                  payload_pa = pa;
                  payload_size = (header_size + length body) % 2 ^ 32;
                  type_id = msg_type;
                  flags = 0;
                })
                (some (filled memory msg_type body now_ns))),
        )
        else (negsuc 0, some (handed_back pa))
  ]
]

same : (pa : ℕ) → (pa == pa) ≡ true
same pa = ground arith

owner-cons :
    (x : XsmAnswers) (call : XsmCall) (calls : List XsmCall) (o next : Owner)
    → owner_after x call o ≡ some next
    → owner_of x (call ∷ calls) o ≡ owner_of x calls next
unfolding owner_of
owner-cons x call calls o next e =
    ap (λ (r : Option Owner). elim r [ none ↦ none | some o' ↦ owner_of x calls o' ]) e

module _ (now_ns msg_type : ℕ) (body : List ℕ) where
  -- Up to the send.
  mapped_and_sent :
      (x : XsmAnswers) (pa : ℕ) (memory : List ℕ) (last : List XsmCall)
      → owner_of x
          (phys_to_virt pa
            ∷ fill pa (filled memory msg_type body now_ns)
            ∷ send (descriptor pa msg_type body)
            ∷ last)
          (of_caller pa none)
        ≡ owner_of x
            (send (descriptor pa msg_type body) ∷ last)
            (of_caller pa (some (filled memory msg_type body now_ns)))
  unfolding owner_after
  mapped_and_sent x pa memory last =
      owner-cons x (phys_to_virt pa) _ (of_caller pa none) (of_caller pa none)
        (if_yes _ _ (same pa))
      ∙ owner-cons x (fill pa (filled memory msg_type body now_ns)) _ (of_caller pa none) _
          (if_yes _ _ (same pa))

  by_answers :
      (acquired : Option ℕ) (memory : Option (List ℕ)) (accepted : Bool)
      → let x : XsmAnswers = record { acquired = acquired; memory = memory; accepted = accepted } in
        let (rc, calls) = l2_xsm_put true x now_ns msg_type body in
        ◌≡◌ {A = ℤ × Option Owner}
          (rc, owner_of x calls of_library)
          (put_ends true x now_ns msg_type body)
  unfolding l2_xsm_put owner_of owner_after put_ends
  by_answers none memory accepted = refl
  by_answers (some pa) none accepted =
      let x : XsmAnswers = record { acquired = some pa; memory = none; accepted = accepted } in
      ap (λ (r : Option Owner). (negsuc 0, r))
        (owner-cons x (phys_to_virt pa) (return_buffer pa ∷ []) (of_caller pa none)
            (of_caller pa none) (if_yes _ _ (same pa))
          ∙ owner-cons x (return_buffer pa) [] (of_caller pa none) (handed_back pa)
              (if_yes _ _ (same pa)))
  by_answers (some pa) (some memory) true =
      let x : XsmAnswers = record { acquired = some pa; memory = some memory; accepted = true } in
      ap (λ (r : Option Owner). (pos 0, r))
        (mapped_and_sent x pa memory (notify ∷ [])
          ∙ owner-cons x (send (descriptor pa msg_type body)) (notify ∷ [])
              (of_caller pa (some (filled memory msg_type body now_ns))) _ (if_yes _ _ (same pa))
          ∙ refl)
  by_answers (some pa) (some memory) false =
      let x : XsmAnswers = record { acquired = some pa; memory = some memory; accepted = false } in
      ap (λ (r : Option Owner). (negsuc 0, r))
        (mapped_and_sent x pa memory (return_buffer pa ∷ [])
          ∙ owner-cons x (send (descriptor pa msg_type body)) (return_buffer pa ∷ [])
              (of_caller pa (some (filled memory msg_type body now_ns))) _ (if_yes _ _ (same pa))
          ∙ owner-cons x (return_buffer pa) []
              (of_caller pa (some (filled memory msg_type body now_ns))) (handed_back pa)
              (if_yes _ _ (same pa)))

-- For every answer of the xSM library, ocudu_l2_xsm_put makes only calls that its caller may make, and in the
-- end the buffer that it acquired, by its address, is the peer's, announced once, with the type, the size of
-- header and body, and the memory that holds both, and the code is 0; or, if it has no memory or is not
-- accepted, it was given back once and the code is -1; without a buffer, or without the L2, the code
-- is -1 and there is nothing to give back.
pub one_owner :
    (ready : Bool) (x : XsmAnswers) (now_ns msg_type : ℕ) (body : List ℕ)
    → let (rc, calls) = l2_xsm_put ready x now_ns msg_type body in
      (rc, owner_of x calls of_library) ≡ put_ends ready x now_ns msg_type body
unfolding l2_xsm_put owner_of owner_after put_ends
one_owner false x now_ns msg_type body = refl
one_owner true x now_ns msg_type body =
    by_answers now_ns msg_type body x.acquired x.memory x.accepted
