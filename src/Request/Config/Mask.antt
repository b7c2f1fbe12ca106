-- ===== src/Request/Config/Mask.antt =====
-- The SSB masks: the bits of the L2's bitmap, with the first SSB on top.
use x_fapi.Prelude.{
  ℕ, zero, suc, ◌+◌, ◌-◌, ◌*◌, ◌^◌, ◌<◌, ◌≡◌, refl, sym, ap, ap₂, ◌∙◌, Bool, true, false, [], ◌∷◌,
  ◌==◌, ltb, if◌then◌else◌, lt→ltb, ge→ltb, arith,
}
use native.Mathlib.Nat.{pow-suc}
use x_fapi.Request.Dl.Parts.{or_bit}
use x_fapi.Request.Dl.Pdcch.Bits.{step}
use x_fapi.Request.Config.Values.{bitmap_bit, ssb_loop, ssb_masks}

-- The `n` SSBs from `first` on as a number, the first on top.
unfoldable pub ssbs : ℕ → ℕ → ℕ → ℕ
ssbs bitmap first zero = 0
ssbs bitmap first (suc n) = ssbs bitmap first n * 2 + bitmap_bit bitmap (first + n)

ssbs-suc :
    (bitmap first n : ℕ)
    → ssbs bitmap first (suc n) ≡ ssbs bitmap first n * 2 + bitmap_bit bitmap (first + n)
unfolding ssbs
ssbs-suc bitmap first n = refl

-- One SSB into its mask, which has the bits before it on top, and no effect on the other.
taken :
    (b h n : ℕ) (mine : Bool) (place : ℕ)
    → b < 2
    → mine ≡ true
    → place ≡ n
    → (if b == 1
        then (if mine then or_bit (h * 2 ^ suc n) place else h * 2 ^ suc n)
        else h * 2 ^ suc n)
      ≡ (h * 2 + b) * 2 ^ n
taken b h n mine place lt e p =
    let scaled : h * 2 ^ suc n ≡ h * 2 * 2 ^ n = ap (λ t. h * t) (pow-suc 2 n) ∙ omega arith in
    ap
      (λ (m : Bool).
        if b == 1
        then (if m then or_bit (h * 2 ^ suc n) place else h * 2 ^ suc n)
        else h * 2 ^ suc n)
      e
    ∙ ap (λ k. if b == 1 then or_bit (h * 2 ^ suc n) k else h * 2 ^ suc n) p
    ∙ ap (λ m. if b == 1 then or_bit m n else m) scaled
    ∙ step h b n lt

passed :
    (b : Bool) (mine : Bool) (m other : ℕ)
    → mine ≡ false
    → (if b then (if mine then other else m) else m) ≡ m
passed b mine m other e = ground arith

ssb_loop-suc :
    (bitmap n i m0 m1 x y : ℕ)
    → (if bitmap_bit bitmap i == 1 then (if ltb i 32 then or_bit m0 (31 - i) else m0) else m0) ≡ x
    → (if bitmap_bit bitmap i == 1 then (if ltb i 32 then m1 else or_bit m1 (63 - i)) else m1) ≡ y
    → ssb_loop bitmap (suc n) i m0 m1 ≡ ssb_loop bitmap n (i + 1) x y
unfolding ssb_loop
ssb_loop-suc bitmap n i m0 m1 x y ex ey = ap₂ (λ a b. ssb_loop bitmap n (i + 1) a b) ex ey

first_half :
    (bitmap n i : ℕ)
    → i + n ≡ 32
    → ssb_loop bitmap (n + 32) i (ssbs bitmap 0 i * 2 ^ n) 0
      ≡ ssb_loop bitmap 32 32 (ssbs bitmap 0 32) 0
first_half bitmap zero i e =
    let all : i ≡ 32 = omega (arith, e) in
    let one : ssbs bitmap 0 i * 1 ≡ ssbs bitmap 0 i = omega arith in
    ap₂ (λ j m. ssb_loop bitmap 32 j m 0) all (one ∙ ap (ssbs bitmap 0) all)
first_half bitmap (suc n) i e =
    let more : suc n + 32 ≡ suc (n + 32) = omega arith in
    let next : suc i ≡ i + 1 = omega arith in
    let here : 0 + i ≡ i = omega arith in
    let mine : ltb i 32 ≡ true = lt→ltb i 32 (omega (arith, e)) in
    ap (λ k. ssb_loop bitmap k i (ssbs bitmap 0 i * 2 ^ suc n) 0) more
    ∙ ssb_loop-suc bitmap (n + 32) i (ssbs bitmap 0 i * 2 ^ suc n) 0 _ 0
        (taken (bitmap_bit bitmap i) (ssbs bitmap 0 i) n (ltb i 32) (31 - i) (omega arith) mine
          (omega (arith, e)))
        (ground (arith, mine))
    ∙ ap
        (λ k.
          ssb_loop bitmap (n + 32) (i + 1) ((ssbs bitmap 0 i * 2 + bitmap_bit bitmap k) * 2 ^ n) 0)
        (sym here)
    ∙ ap (λ k. ssb_loop bitmap (n + 32) (i + 1) (k * 2 ^ n) 0)
        (sym (ssbs-suc bitmap 0 i) ∙ ap (ssbs bitmap 0) next)
    ∙ first_half bitmap n (i + 1) (omega (arith, e))

second_half :
    (bitmap n j m0 : ℕ)
    → j + n ≡ 32
    → ssb_loop bitmap n (32 + j) m0 (ssbs bitmap 32 j * 2 ^ n) ≡ m0 ∷ ssbs bitmap 32 32 ∷ []
unfolding ssb_loop
second_half bitmap zero j m0 e =
    let all : j ≡ 32 = omega (arith, e) in
    let one : ssbs bitmap 32 j * 1 ≡ ssbs bitmap 32 j = omega arith in
    ap (λ m. m0 ∷ m ∷ []) (one ∙ ap (ssbs bitmap 32) all)
second_half bitmap (suc n) j m0 e =
    let next : suc j ≡ j + 1 = omega arith in
    let there : 32 + j + 1 ≡ 32 + (j + 1) = omega arith in
    let mine : ltb (32 + j) 32 ≡ false = ge→ltb (32 + j) 32 (omega arith) in
    ssb_loop-suc bitmap n (32 + j) m0 (ssbs bitmap 32 j * 2 ^ suc n) m0 _
      (passed (bitmap_bit bitmap (32 + j) == 1) (ltb (32 + j) 32) m0 _ mine)
      (ap
          (λ (c : Bool).
            if bitmap_bit bitmap (32 + j) == 1
            then (if c
                then ssbs bitmap 32 j * 2 ^ suc n
                else or_bit (ssbs bitmap 32 j * 2 ^ suc n) (63 - (32 + j)))
            else ssbs bitmap 32 j * 2 ^ suc n)
          mine
        ∙ taken (bitmap_bit bitmap (32 + j)) (ssbs bitmap 32 j) n true (63 - (32 + j)) (omega arith)
            refl (omega (arith, e)))
    ∙ ap (λ k. ssb_loop bitmap n (32 + j + 1) m0 (k * 2 ^ n))
        (sym (ssbs-suc bitmap 32 j) ∙ ap (ssbs bitmap 32) next)
    ∙ ap (λ k. ssb_loop bitmap n k m0 (ssbs bitmap 32 (j + 1) * 2 ^ n)) there
    ∙ second_half bitmap n (j + 1) m0 (omega (arith, e))

-- The two masks that are sent are the first and the second 32 SSBs of the bitmap, each with its first SSB
-- as the highest of its 32 bits.
pub ssb_masks_lem : (bitmap : ℕ) → ssb_masks bitmap ≡ ssbs bitmap 0 32 ∷ ssbs bitmap 32 32 ∷ []
unfolding ssb_masks ssbs
ssb_masks_lem bitmap = first_half bitmap 32 0 refl ∙ second_half bitmap 32 0 (ssbs bitmap 0 32) refl
