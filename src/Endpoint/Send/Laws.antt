-- ===== src/Endpoint/Send/Laws.antt =====
-- What is sent in segments comes back as the message.
use x_fapi.Prelude.{
  ℕ, zero, suc, ◌+◌, ◌-◌, ◌*◌, ◌%◌, ◌≤◌, ◌<◌, ◌≡◌, refl, sym, ap, ap₂, ◌∙◌, List, [], ◌∷◌, ◌++◌,
}
use x_fapi.Prelude.{
  ◌==◌, if◌then◌else◌, if_yes, if_no, length, get_or, take, drop, arith, length-set, length-take,
  length-append, drop-append_self, take-append-drop, drop-drop, Bool-cases, inl, inr,
}
use native.Mathlib.Nat.{mul-div-le, lt-mul-div-succ}
use x_fapi.Endpoint.Segments.Laws.{bodies, whole}
use x_fapi.Endpoint.Send.{
  Packer, Vnf, stamped, checked, segment, body_len, seg_body, seg_count, size_of,
}

length-stamped : (hdr : List ℕ) (total mss : ℕ) → length (stamped hdr total mss) ≡ length hdr
unfolding stamped
length-stamped hdr total mss =
    length-set _ 9 _
    ∙ length-set _ 8 _
    ∙ length-set _ 7 _
    ∙ length-set _ 6 _
    ∙ length-set _ 5 _
    ∙ length-set hdr 4 _

factor_pos : (a b c : ℕ) → 0 < c → c ≤ a * b → 0 < b
factor_pos a zero c h le = absurd (omega (arith, h, le))
factor_pos a (suc b) c h le = omega arith

drop-all : (k : ℕ) (xs : List ℕ) → length xs ≤ k → drop k xs ≡ []
drop-all zero [] h = refl
drop-all zero (x ∷ xs) h = absurd (omega (arith, h))
drop-all (suc k) [] h = refl
drop-all (suc k) (x ∷ xs) h = drop-all k xs (omega (arith, h))

drop-append_le :
    {A : Type 0} (k : ℕ) (xs ys : List A) → k ≤ length xs → drop k (xs ++ ys) ≡ drop k xs ++ ys
drop-append_le zero xs ys h = refl
drop-append_le (suc k) [] ys h = absurd (omega (arith, h))
drop-append_le (suc k) (x ∷ xs) ys h = drop-append_le k xs ys (omega (arith, h))

-- What the library promises of a packed message that is longer than one datagram: the header fits a
-- datagram with a byte to spare, and the checksum changes bytes of the header only,
-- and not those of the segment field.
pub record IsPacker (p : Packer) : Type 0 where
  pub header_fits : p.header_length < 1400
  pub same_length : (buf : List ℕ) → length (p.update_checksum buf) ≡ length buf
  pub same_body :
      (buf : List ℕ) → drop p.header_length (p.update_checksum buf) ≡ drop p.header_length buf
  pub same_segment :
      (buf : List ℕ)
      → (get_or (p.update_checksum buf) 8 0 ≡ get_or buf 8 0)
        × (get_or (p.update_checksum buf) 9 0 ≡ get_or buf 9 0)

module _ (p : Packer) (v : Vnf) (buf : List ℕ) (ok : IsPacker p) (long : 1400 < length buf) where
  -- The datagram with segment `i`.
  unfoldable pub part : ℕ → List ℕ
  part i = segment p v buf (seg_count p buf) i (size_of p buf i) (p.header_length + seg_body p * i)

  -- The header and the bytes of a segment, before the checksum.
  abbrev pub hdr : ℕ → List ℕ
  hdr i =
      stamped (take p.header_length buf) (size_of p buf i + p.header_length)
        (p.set_mss (if i + 1 == seg_count p buf then 0 else 1) (i % 256) (v.p7_sequence % 256))

  abbrev pub body : ℕ → List ℕ
  body i = take (size_of p buf i) (drop (p.header_length + seg_body p * i) buf)

  pub header_lem :
      (total mss : ℕ) → length (stamped (take p.header_length buf) total mss) ≡ p.header_length
  header_lem total mss =
      length-stamped (take p.header_length buf) total mss
      ∙ length-take p.header_length buf
      ∙ omega (arith, ok.header_fits, long)

  checked_lem :
      (d : List ℕ)
      → (length (checked p v d) ≡ length d)
        × (drop p.header_length (checked p v d) ≡ drop p.header_length d)
  checked_lem d = elim (Bool-cases v.checksum_enabled) [
    | inl on ↦ (
      ap length (if_yes _ _ on) ∙ ok.same_length d,
      ap (drop p.header_length) (if_yes _ _ on) ∙ ok.same_body d,
    )
    | inr off ↦ (ap length (if_no _ _ off), ap (drop p.header_length) (if_no _ _ off))
  ]

  drop-part : (i : ℕ) → drop p.header_length (part i) ≡ body i
  unfolding part segment
  drop-part i =
      (checked_lem (hdr i ++ body i)).1
      ∙ ap (λ k. drop k (hdr i ++ body i)) (sym (header_lem _ _))
      ∙ drop-append_self (hdr i) (body i)

  pub length-part : (i : ℕ) → length (part i) ≡ p.header_length + length (body i)
  unfolding part segment
  length-part i =
      (checked_lem (hdr i ++ body i)).0
      ∙ length-append (hdr i) (body i)
      ∙ ap (λ k. k + length (body i)) (header_lem _ _)

  -- All segments but the last are full, and the last has what is left.
  abbrev pub n : ℕ
  n = seg_count p buf

  count_lem : (body_len p buf ≤ seg_body p * n) × (seg_body p * n < body_len p buf + seg_body p)
  count_lem =
      let pos_body : 0 < seg_body p = omega (arith, ok.header_fits) in
      let low : seg_body p * n ≤ body_len p buf + seg_body p - 1 =
        mul-div-le (body_len p buf + seg_body p - 1) (seg_body p) in
      let high : body_len p buf + seg_body p - 1 < seg_body p * (n + 1) =
        lt-mul-div-succ (body_len p buf + seg_body p - 1) pos_body in
      (omega (arith, low, high, pos_body), omega (arith, low, high, pos_body))

  pub some_segment : 0 < n
  some_segment =
      factor_pos (seg_body p) n (body_len p buf) (omega (arith, ok.header_fits, long)) count_lem.0

  before : (i m : ℕ) → i + suc m ≡ n → seg_body p * i + seg_body p ≤ seg_body p * n
  before i m e =
      let split : seg_body p * n ≡ seg_body p * i + seg_body p + seg_body p * m =
        ap (λ k. seg_body p * k) (sym e) ∙ omega arith in
      omega (arith, split)

  -- What is left behind segment `i`.
  left_over :
      (i : ℕ)
      → drop (p.header_length + seg_body p * (i + 1)) buf
        ≡ drop (size_of p buf i) (drop (p.header_length + seg_body p * i) buf)
  left_over i = elim (Bool-cases (i + 1 == n)) [
    | inl final ↦
        let at_end : i + 1 ≡ n = ground (arith, final) in
        let end : seg_body p * (i + 1) ≡ seg_body p * n = ap (λ k. seg_body p * k) at_end in
        let size : size_of p buf i ≡ body_len p buf - seg_body p * i = if_yes _ _ final in
        drop-all (p.header_length + seg_body p * (i + 1)) buf (omega (arith, end, count_lem))
        ∙ sym (
            drop-drop (size_of p buf i) (p.header_length + seg_body p * i) buf
            ∙ drop-all (p.header_length + seg_body p * i + size_of p buf i) buf
                (omega (arith, size)))
    | inr inner ↦
        let size : size_of p buf i ≡ seg_body p = if_no _ _ inner in
        let next : p.header_length + seg_body p * i + size_of p buf i
            ≡ p.header_length + seg_body p * (i + 1) =
          omega (arith, size) in
        sym (
          drop-drop (size_of p buf i) (p.header_length + seg_body p * i) buf
          ∙ ap (λ k. drop k buf) next)
  ]

  bodies_lem :
      (i m : ℕ)
      → i + m ≡ n
      → bodies p.header_length part i m ≡ drop (p.header_length + seg_body p * i) buf
  unfolding bodies
  bodies_lem i zero e =
      let done : i ≡ n = omega (arith, e) in
      let end : seg_body p * i ≡ seg_body p * n = ap (λ k. seg_body p * k) done in
      sym (drop-all (p.header_length + seg_body p * i) buf (omega (arith, end, count_lem)))
  bodies_lem i (suc m) e =
      ap₂ (λ a b. a ++ b) (drop-part i) (bodies_lem (i + 1) m (omega (arith, e)) ∙ left_over i)
      ∙ take-append-drop (size_of p buf i) (drop (p.header_length + seg_body p * i) buf)

  -- The reassembled message has the bytes of the message behind the header.
  pub drop-whole : drop p.header_length (whole p.header_length part n) ≡ drop p.header_length buf
  unfolding bodies
  drop-whole =
      let fits : p.header_length ≤ length (part 0) = omega (arith, length-part 0) in
      let rest : 1 + (n - 1) ≡ n = omega (arith, some_segment) in
      let start : p.header_length + seg_body p * 0 ≡ p.header_length = omega arith in
      drop-append_le p.header_length (part 0) (bodies p.header_length part 1 (n - 1)) fits
      ∙ ap₂ (λ a b. a ++ b) (drop-part 0) (bodies_lem 1 (n - 1) rest ∙ left_over 0)
      ∙ take-append-drop (size_of p buf 0) (drop (p.header_length + seg_body p * 0) buf)
      ∙ ap (λ k. drop k buf) start

  size_bound : (i : ℕ) → i < n → size_of p buf i ≤ seg_body p
  size_bound i low = elim (Bool-cases (i + 1 == n)) [
    | inl final ↦
        let at_end : i + 1 ≡ n = ground (arith, final) in
        let end : seg_body p * i + seg_body p ≡ seg_body p * n =
          omega arith ∙ ap (λ k. seg_body p * k) at_end in
        let size : size_of p buf i ≡ body_len p buf - seg_body p * i = if_yes _ _ final in
        omega (arith, size, end, count_lem)
    | inr inner ↦ let size : size_of p buf i ≡ seg_body p = if_no _ _ inner in omega (arith, size)
  ]

  -- No datagram is larger than a segment.
  pub part_bound : (i : ℕ) → i < n → length (part i) ≤ 1400
  part_bound i low =
      let size : size_of p buf i ≤ seg_body p = size_bound i low in
      omega (
        arith,
        length-part i,
        length-take (size_of p buf i) (drop (p.header_length + seg_body p * i) buf),
        size,
        ok.header_fits,
      )
