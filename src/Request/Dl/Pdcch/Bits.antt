-- ===== src/Request/Dl/Pdcch/Bits.antt =====
-- The bits of a DCI payload, against a number that is read with its first bit on top.
use x_fapi.Prelude.{subst}
use x_fapi.Prelude.{
  ℕ, zero, suc, ◌+◌, ◌-◌, ◌*◌, ◌/◌, ◌%◌, ◌^◌, ◌≤◌, ◌<◌, ◌≡◌, refl, sym, ap, ◌∙◌, false, List, ◌∷◌,
  ◌==◌, if◌then◌else◌, if_no, min, arith,
}
use native.Mathlib.Nat.{mul-div_left, pow-suc, div-div-eq-div-mul}
use x_fapi.Request.Dl.Parts.{or_bit}
use x_fapi.Request.Dl.Pdcch.{Dci}
use x_fapi.Request.Dl.Pdcch.Mapper.{dci_bit, dci_word, word_bytes, dci_bits_sent, dci_payload}
use x_fapi.Wire.Bytes.{le, le_bytes, le-le_bytes}

-- The first `n` bits of a payload as a number, the first transmitted bit on top.
unfoldable pub first_bits : List ℕ → ℕ → ℕ
first_bits payload zero = 0
first_bits payload (suc n) = first_bits payload n * 2 + dci_bit payload n

two_pow_pos : (n : ℕ) → 0 < 2 ^ n
two_pow_pos zero = omega arith
two_pow_pos (suc n) = let e : 2 ^ suc n ≡ 2 ^ n * 2 = pow-suc 2 n in omega (arith, e, two_pow_pos n)

eight_more : (n : ℕ) → 2 ^ suc (suc (suc (suc (suc (suc (suc (suc n))))))) ≡ 2 ^ n * 256
eight_more n = simp (pow-suc) (omega arith)

-- A multiple of 2^(n + 1) has no bit `n`.
or_bit_lem : (h n : ℕ) → or_bit (h * 2 * 2 ^ n) n ≡ (h * 2 + 1) * 2 ^ n
or_bit_lem h n =
    let clear : h * 2 * 2 ^ n / 2 ^ n ≡ h * 2 = mul-div_left (h * 2) (two_pow_pos n) in
    let off : (h * 2 * 2 ^ n / 2 ^ n % 2 == 1) ≡ false = ground (arith, clear) in
    if_no _ _ off ∙ omega arith

pub step :
    (h b n : ℕ)
    → b < 2
    → (if b == 1 then or_bit (h * 2 * 2 ^ n) n else h * 2 * 2 ^ n) ≡ (h * 2 + b) * 2 ^ n
step h zero n lt = omega arith
step h (suc zero) n lt = or_bit_lem h n
step h (suc (suc b)) n lt = omega (arith, lt)

-- The word of the bits up to `k`, and `n` more.
dci_word_from :
    (payload : List ℕ) (n k : ℕ)
    → dci_word payload (k + n) n k (first_bits payload k * 2 ^ n) ≡ first_bits payload (k + n)
unfolding dci_word first_bits
dci_word_from payload zero k = let same : k + 0 ≡ k = omega arith in rw same (omega arith)
dci_word_from payload (suc n) k =
    let place : k + suc n - 1 - k ≡ n = omega arith in
    let scaled : first_bits payload k * 2 ^ suc n ≡ first_bits payload k * 2 * 2 ^ n =
      ap (λ t. first_bits payload k * t) (pow-suc 2 n) ∙ omega arith in
    let next : suc k ≡ k + 1 = omega arith in
    let more : k + suc n ≡ k + 1 + n = omega arith in
    let bit : dci_bit payload k < 2 = omega arith in
    ap
      (λ e. dci_word payload (k + suc n) n (k + 1) (
        if dci_bit payload k == 1
        then or_bit (first_bits payload k * 2 ^ suc n) e
        else first_bits payload k * 2 ^ suc n))
      place
    ∙ ap
        (λ u.
          dci_word payload (k + suc n) n (k + 1) (if dci_bit payload k == 1 then or_bit u n else u))
        scaled
    ∙ ap (dci_word payload (k + suc n) n (k + 1))
        (step (first_bits payload k) (dci_bit payload k) n bit)
    ∙ ap
        (λ m. dci_word payload m n (k + 1) ((first_bits payload k * 2 + dci_bit payload k) * 2 ^ n))
        more
    ∙ ap (λ m. dci_word payload (k + 1 + n) n (k + 1) (first_bits payload m * 2 ^ n)) next
    ∙ dci_word_from payload n (k + 1)
    ∙ ap (first_bits payload) (sym more)

-- The whole word.
dci_word_lem : (payload : List ℕ) (n : ℕ) → dci_word payload n n 0 0 ≡ first_bits payload n
unfolding first_bits
dci_word_lem payload n =
    let all : 0 + n ≡ n = omega arith in
    let none_yet : 0 * 2 ^ n ≡ 0 = omega arith in
    ap (λ u. dci_word payload n n 0 u) (sym none_yet)
    ∙ ap (λ m. dci_word payload m n 0 (0 * 2 ^ n)) (sym all)
    ∙ dci_word_from payload n 0
    ∙ ap (first_bits payload) all

word_bytes-le_bytes : (u n b : ℕ) → word_bytes u n b ≡ le_bytes n (u / 2 ^ (8 * b))
unfolding word_bytes le_bytes
word_bytes-le_bytes u zero b = refl
word_bytes-le_bytes u (suc n) b =
    let place : 8 * (b + 1) ≡ suc (suc (suc (suc (suc (suc (suc (suc (8 * b)))))))) = omega arith in
    let later : u / 2 ^ (8 * (b + 1)) ≡ u / 2 ^ (8 * b) / 256 =
      ap (λ e. u / 2 ^ e) place
      ∙ ap (λ e. u / e) (eight_more (8 * b))
      ∙ sym (div-div-eq-div-mul u (2 ^ (8 * b)) 256) in
    ap (λ l. u / 2 ^ (8 * b) % 2 ^ 8 ∷ l) (word_bytes-le_bytes u n (b + 1) ∙ ap (le_bytes n) later)

first_bits_bound : (payload : List ℕ) (n : ℕ) → first_bits payload n < 2 ^ n
unfolding first_bits
first_bits_bound payload zero = omega arith
first_bits_bound payload (suc n) = omega (arith, pow-suc 2 n, first_bits_bound payload n)

two_pow_le : (n m : ℕ) → 2 ^ n ≤ 2 ^ (n + m)
two_pow_le n zero = let e : n + 0 ≡ n = omega arith in rw e (omega arith)
two_pow_le n (suc m) =
    let e : n + suc m ≡ suc (n + m) = omega arith in
    rw e (omega (arith, pow-suc 2 (n + m), two_pow_le n m))

-- The DCI payload that is sent, read as a little-endian number, is the number whose bits are the
-- first 64 transmitted bits at most, the first transmitted bit on top, for a payload array of at
-- least 8 bytes.
pub dci_payload_lem :
    (dci_len : ℕ) (d : Dci)
    → 8 ≤ dci_len
    → le (dci_payload dci_len d) ≡ first_bits d.payload (min d.nbits 64)
unfolding dci_payload
dci_payload_lem dci_len d room =
    let n : dci_bits_sent d ≡ min d.nbits 64 = ground arith in
    let eight : min 8 dci_len ≡ 8 = omega (arith, room) in
    let short : min d.nbits 64 + (64 - min d.nbits 64) ≡ 64 = omega arith in
    let small : first_bits d.payload (min d.nbits 64) < 256 ^ 8 =
      bounded (first_bits_bound d.payload (min d.nbits 64)) (
        subst (λ m. 2 ^ min d.nbits 64 ≤ 2 ^ m) short
          (two_pow_le (min d.nbits 64) (64 - min d.nbits 64))) in
    ap (λ m. le (word_bytes (dci_word d.payload m m 0 0) (min 8 dci_len) 0)) n
    ∙ ap (λ u. le (word_bytes u (min 8 dci_len) 0)) (dci_word_lem d.payload (min d.nbits 64))
    ∙ ap (λ m. le (word_bytes (first_bits d.payload (min d.nbits 64)) m 0)) eight
    ∙ ap le (word_bytes-le_bytes (first_bits d.payload (min d.nbits 64)) 8 0)
    ∙ ap (λ u. le (le_bytes 8 u)) (whole (first_bits d.payload (min d.nbits 64)))
    ∙ le-le_bytes 8 (first_bits d.payload (min d.nbits 64)) small
  where
    bounded : {a b : ℕ} → a < b → b ≤ 2 ^ 64 → a < 256 ^ 8
    bounded lt le64 = omega (arith, lt, le64)

    whole : (u : ℕ) → u / 2 ^ (8 * 0) ≡ u
    whole u = omega arith
