-- ===== src/Wire/Writer/Emits.antt =====
-- What a sequence of writes leaves behind: the bytes it stands for, or a latched error.
use x_fapi.Prelude.{ℕ, ◌+◌, ◌%◌, ◌^◌, ◌≤◌, ◌<◌, ◌≡◌, refl, sym, ap, ◌∙◌, Bool, true, false}
use x_fapi.Prelude.{List, [], ◌∷◌, ◌++◌, append-nil, append_assoc, if◌then◌else◌}
use x_fapi.Prelude.{arith, length, length-append}
use x_fapi.Wire.Bytes.{length-write_at, take-write_at}
use x_fapi.Wire.Writer.{Writer, written, store, ◌⨾◌, write_none, write_all}
use native.Mathlib.Decide.{dec_lt}

pub record IsOpen (w : Writer) : Type 0 where
  pub fine : w.error ≡ false
  pub inside : w.off ≤ w.cap
  pub whole : length w.buf ≡ w.cap
  pub short : w.cap < 2 ^ 32

-- `w'` is `w` with `bs` written behind what was there.
pub record Appended (w w' : Writer) (bs : List ℕ) : Type 0 where
  pub still_open : IsOpen w'
  pub same_cap : w'.cap ≡ w.cap
  pub longer : w'.off ≡ w.off + length bs
  pub content : written w' ≡ written w ++ bs

pub record Emits (m : Writer → Writer) (bs : List ℕ) : Type 0 where
  pub sticky : (w : Writer) → w.error ≡ true → m w ≡ w
  pub fits : (w : Writer) → IsOpen w → w.off + length bs ≤ w.cap → Appended w (m w) bs
  pub over : (w : Writer) → IsOpen w → w.cap < w.off + length bs → (m w).error ≡ true

pub Emits_store :
    (w : Writer) (bs : List ℕ) → IsOpen w → w.off + length bs ≤ w.cap → Appended w (store w bs) bs
Emits_store w bs o h = record {
  still_open = record {
    fine = o.fine;
    inside = omega (arith, o.short);
    whole = length-write_at w.buf w.off bs (omega (arith, o.whole)) ∙ o.whole;
    short = o.short;
  };
  same_cap = refl;
  longer = no_wrap;
  content = rw no_wrap (take-write_at w.buf w.off bs (omega (arith, o.whole)));
}
  where
    no_wrap : (w.off + length bs) % 2 ^ 32 ≡ w.off + length bs
    no_wrap = omega (arith, o.short)

pub Emits-none : Emits write_none []
unfolding write_none
Emits-none = record {
  sticky = λ w e. refl;
  fits = λ w o h. record {
    still_open = o;
    same_cap = refl;
    longer = omega arith;
    content = sym (append-nil (written w));
  };
  over = λ w o h. absurd (omega (arith, o.inside));
}

Appended-trans :
    {w w' w'' : Writer} (bs cs : List ℕ)
    → Appended w w' bs
    → Appended w' w'' cs
    → Appended w w'' (bs ++ cs)
Appended-trans {w} bs cs a b = record {
  still_open = b.still_open;
  same_cap = b.same_cap ∙ a.same_cap;
  longer = omega (arith, a.longer, b.longer, length-append bs cs);
  content = b.content ∙ ap (λ l. l ++ cs) a.content ∙ append_assoc (written w) bs cs;
}

module _ {m n : Writer → Writer} {bs cs : List ℕ} (em : Emits m bs) (en : Emits n cs) where
  seq_over : (w : Writer) → IsOpen w → w.cap < w.off + length (bs ++ cs) → (n (m w)).error ≡ true
  seq_over w o h = elim (dec_lt w.cap (w.off + length bs)) [
    | yes p ↦ ap (λ v. v.error) (en.sticky (m w) (em.over w o p)) ∙ em.over w o p
    | no p ↦
        let a : Appended w (m w) bs = em.fits w o (omega arith) in
        en.over (m w) a.still_open (omega (arith, a.same_cap, a.longer, length-append bs cs))
  ]

  pub seq : Emits (m ⨾ n) (bs ++ cs)
  unfolding ◌⨾◌
  seq = record {
    sticky = λ w e. ap n (em.sticky w e) ∙ en.sticky w e;
    fits = λ w o h.
        let a : Appended w (m w) bs = em.fits w o (omega (arith, length-append bs cs)) in
        Appended-trans bs cs a
          (en.fits (m w) a.still_open (omega (arith, a.same_cap, a.longer, length-append bs cs)));
    over = seq_over;
  }

pub choose :
    (b : Bool) {m n : Writer → Writer} {bs cs : List ℕ}
    → Emits m bs
    → Emits n cs
    → Emits (if b then m else n) (if b then bs else cs)
choose true em en = em
choose false em en = en

-- The bytes of a list of items, one item after another.
abbrev pub all_bytes {ℓ} : {A : Type ℓ} → (A → List ℕ) → List A → List ℕ
all_bytes f [] = []
all_bytes f (a ∷ rest) = f a ++ all_bytes f rest

pub every :
    {A : Type 0} {enc : A → Writer → Writer} {f : A → List ℕ}
    → ((a : A) → Emits (enc a) (f a))
    → (items : List A) → Emits (write_all enc items) (all_bytes f items)
unfolding write_all ◌⨾◌ write_none
every ee [] = Emits-none
every ee (a ∷ rest) = seq (ee a) (every ee rest)
