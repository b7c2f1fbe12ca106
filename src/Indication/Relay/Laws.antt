-- ===== src/Indication/Relay/Laws.antt =====
-- A relayed indication does what its specification says: the rounds parse and write PDU by PDU, the
-- head is read and written, and the body goes out only when everything fits.
use x_fapi.Prelude.{
  ℕ, zero, suc, ◌+◌, ◌%◌, ◌^◌, ◌≤◌, ◌<◌, ◌≡◌, refl, sym, ap, ◌∙◌, subst, true, ◌||◌,
}
use x_fapi.Prelude.{
  Option, none, some, List, leb, ltb, if◌then◌else◌, arith, length, take, drop, length-drop, if_yes,
  if_no, Bool-cases, inl, inr, ltb→ge,
}
use x_fapi.Wire.Bytes.{be}
use x_fapi.Wire.Cursor.{Cursor, Rd}
use x_fapi.Wire.Cursor.Parser as P
use x_fapi.Wire.Cursor.Parser.{Parser}
use x_fapi.Wire.Cursor.Laws.{IsLive, view, length-view}
use x_fapi.Wire.Cursor.Faithful.{Agrees, Faithful, bind, ret}
use x_fapi.Wire.Cursor.Reads.{be_u16_lem}
use x_fapi.Wire.Writer.{Writer, written, wr_init, write_all, ◌⨾◌}
use x_fapi.Wire.Writer.Emits.{IsOpen, Emits, Appended, seq, every}
use x_fapi.Wire.Writer.Writes.{wr_u8_lem, wr_u16_lem, wr_u32_lem}
use x_fapi.Indication.Relay.{Delivery, dropped, put, Head, read_head, write_head}
use x_fapi.Indication.Relay.{Round, read_write, pdu_loop, relay, body_cursor}
use x_fapi.Indication.Relay.Spec.{parse_head, head_bytes, message, deliver, relayed}

pub read_head_lem : {m : Rd ℕ} {p : Parser ℕ} → Faithful m p → Faithful (read_head m) (parse_head p)
unfolding read_head parse_head
read_head_lem fm = bind be_u16_lem λ sfn. bind be_u16_lem λ slot. bind fm λ n. ret _

pub write_head_lem : (mu : ℕ) (h : Head) → Emits (write_head mu h) (head_bytes mu h)
unfolding write_head
write_head_lem mu h =
    seq (wr_u8_lem 1) (seq (wr_u8_lem mu) (seq (wr_u32_lem _) (wr_u16_lem h.pdus)))

-- One round, or a loop of rounds, against a parser and the writes for what it parsed.
abbrev pub Relays :
    {A : Type 0} → (A → Writer → Writer) → Writer → Cursor × Writer → Option (A × List ℕ) → Type 0
Relays enc w out none = out.0.error ≡ true
Relays enc w out (some (a, rest)) = IsLive out.0 × (view out.0 ≡ rest) × (out.1 ≡ enc a w)

abbrev pub RoundRelays : {A : Type 0} → Round → Parser A → (A → Writer → Writer) → Type 0
RoundRelays round p enc =
    (r : Cursor) (w : Writer) → IsLive r → Relays enc w (round r w) (p (view r))

module _ {A : Type 0} (enc : A → Writer → Writer) where
  read_write-Agrees :
      (r : Cursor) (w : Writer) (out : A × Cursor) (o : Option (A × List ℕ))
      → Agrees r out o
      → Relays enc w (if out.1.error then (out.1, w) else (out.1, enc out.0 w)) o
  read_write-Agrees r w out none (e, u) =
      ap (λ (o : Cursor × Writer). o.0.error) (if_yes (out.1, w) (out.1, enc out.0 w) e) ∙ e
  read_write-Agrees r w out (some (a, rest)) (e, live, ve, u) =
      subst (λ (o : Cursor × Writer). Relays enc w o (some (a, rest)))
        (sym (if_no (out.1, w) (out.1, enc out.0 w) live.fine)) (live, ve, ap (λ b. enc b w) e)

  pub read_write_lem :
      {m : Rd A} {p : Parser A} → Faithful m p → RoundRelays (read_write m enc) p enc
  unfolding read_write
  read_write_lem {m} {p} fm r w v = read_write-Agrees r w (m r) (p (view r)) (fm.agrees r v)

module _ {A : Type 0} (round : Round) (p : Parser A) (enc : A → Writer → Writer)
    (rr : RoundRelays round p enc) where
  pub pdu_loop_lem : (n : ℕ) → RoundRelays (pdu_loop n round) (P.times n p) (write_all enc)
  unfolding pdu_loop P.times write_all
  pdu_loop_lem zero r w v = (v, refl, refl)
  pdu_loop_lem (suc n) r w v = step (pdu_loop_lem n) (round r w) (p (view r)) (rr r w v)
    where
      later :
          (a : A) (w' : Writer) (out : Cursor × Writer) (o : Option (List A × List ℕ))
          → w' ≡ enc a w
          → Relays (write_all enc) w' out o
          → Relays (write_all enc) w out (P.prepend a o)
      later a w' out none e h = h
      later a w' out (some (more, ds)) e (live, ve, we) = (live, ve, we ∙ ap (write_all enc more) e)

      step :
          RoundRelays (pdu_loop n round) (P.times n p) (write_all enc)
          → (out : Cursor × Writer) (o : Option (A × List ℕ)) → Relays enc w out o
          → Relays
              (write_all enc)
              w
              (if out.0.error then (out.0, out.1) else pdu_loop n round out.0 out.1)
              (elim o [ none ↦ none | some (a, rest) ↦ P.prepend a (P.times n p rest) ])
      step ih out none e =
          ap (λ (o : Cursor × Writer). o.0.error) (if_yes _ (pdu_loop n round out.0 out.1) e) ∙ e
      step ih out (some (a, rest)) (live, ve, we) =
          subst
            (λ (o : Cursor × Writer). Relays (write_all enc) w o (P.prepend a (P.times n p rest)))
            (sym (if_no (out.0, out.1) (pdu_loop n round out.0 out.1) live.fine))
            (subst
              (λ (l : List ℕ).
                Relays (write_all enc) w (pdu_loop n round out.0 out.1)
                  (P.prepend a (P.times n p l)))
              ve
              (later a out.1 (pdu_loop n round out.0 out.1) (P.times n p (view out.0)) we
                (ih out.0 out.1 live)))

fresh_IsOpen :
    (scratch : List ℕ) (cap : ℕ)
    → length scratch ≡ cap
    → cap < 2 ^ 32
    → IsOpen (wr_init scratch cap)
unfolding wr_init
fresh_IsOpen scratch cap room small = record {
  fine = refl;
  inside = omega arith;
  whole = room;
  short = small;
}

-- What the writer holds after a sequence of writes into a fresh buffer goes out exactly if it fits.
pub delivered :
    {m : Writer → Writer} {bs : List ℕ} (msg_type cap : ℕ) (scratch : List ℕ)
    → Emits m bs
    → length scratch ≡ cap
    → cap < 2 ^ 32
    → (if (m (wr_init scratch cap)).error
        then dropped
        else put msg_type (written (m (wr_init scratch cap))))
      ≡ deliver cap msg_type bs
unfolding wr_init
delivered {m} {bs} msg_type cap scratch em room small = elim (Bool-cases (leb (length bs) cap)) [
  | inl fits ↦
      let a : Appended w (m w) bs = em.fits w fresh (ground arith) in
      if_no _ _ a.still_open.fine ∙ ap (put msg_type) a.content ∙ sym (if_yes _ _ fits)
  | inr over ↦ if_yes _ _ (em.over w fresh (ground arith)) ∙ sym (if_no _ _ over)
]
  where
    w : Writer
    w = wr_init scratch cap

    fresh : IsOpen w
    fresh = fresh_IsOpen scratch cap room small

module _ {A : Type 0} {read_count : Rd ℕ} {count : Parser ℕ} (round : Round) (p : Parser A)
    {enc : A → Writer → Writer} {f : A → List ℕ} (fc : Faithful read_count count)
    (rr : RoundRelays round p enc) (emits : (a : A) → Emits (enc a) (f a)) (msg_type mu cap : ℕ)
    (scratch : List ℕ) (room : length scratch ≡ cap) (small : cap < 2 ^ 32) where
  loop_relayed :
      (h : Head) (out : Cursor × Writer) (o : Option (List A × List ℕ))
      → Relays (write_all enc) (write_head mu h (wr_init scratch cap)) out o
      → (if out.0.error || out.1.error then dropped else put msg_type (written out.1))
        ≡ elim o [ none ↦ dropped | some (pdus, more) ↦ deliver cap msg_type (message f mu h pdus) ]
  unfolding ◌⨾◌
  loop_relayed h out none e = if_yes _ _ (ap (λ b. b || out.1.error) e)
  loop_relayed h out (some (pdus, more)) (live, ve, we) =
      ap (λ b. if b || out.1.error then dropped else put msg_type (written out.1)) live.fine
      ∙ ap (λ (w : Writer). if w.error then dropped else put msg_type (written w)) we
      ∙ delivered msg_type cap scratch (seq (write_head_lem mu h) (every emits pdus)) room small

  abbrev finish : Head → Cursor × Writer → Delivery
  finish h (r, w) = if r.error || w.error then dropped else put msg_type (written w)

  abbrev parsed : Head × List ℕ → Delivery
  parsed (h, rest) = elim (P.times h.pdus p rest) [
    | none ↦ dropped
    | some (pdus, more) ↦ deliver cap msg_type (message f mu h pdus)
  ]

  head_relayed :
      (r : Cursor) (out : Head × Cursor) (h : Head) (rest : List ℕ)
      → Agrees r out (some (h, rest))
      → finish out.0 (pdu_loop out.0.pdus round out.1 (write_head mu out.0 (wr_init scratch cap)))
        ≡ parsed (h, rest)
  head_relayed r out h rest (e, live, ve, u) =
      ap
        (λ (g : Head).
          finish g (pdu_loop g.pdus round out.1 (write_head mu g (wr_init scratch cap))))
        e
      ∙ loop_relayed h (pdu_loop h.pdus round out.1 (write_head mu h (wr_init scratch cap)))
          (P.times h.pdus p rest)
          (subst
            (λ (l : List ℕ).
              Relays (write_all enc) (write_head mu h (wr_init scratch cap))
                (pdu_loop h.pdus round out.1 (write_head mu h (wr_init scratch cap)))
                (P.times h.pdus p l))
            ve
            (pdu_loop_lem round p enc rr h.pdus out.1 (write_head mu h (wr_init scratch cap)) live))

  -- The relay is its specification, whatever the body buffer held before.
  pub relay_lem :
      (r : Cursor) {h : Head} {rest : List ℕ}
      → IsLive r
      → parse_head count (view r) ≡ some (h, rest)
      → relay read_count round msg_type mu scratch cap r
        ≡ relayed count p f msg_type mu cap (view r)
  unfolding relay relayed
  relay_lem r {h} {rest} v e =
      head_relayed r (read_head read_count r) h rest
        (subst (λ o. Agrees r (read_head read_count r) o) e ((read_head_lem fc).agrees r v))
      ∙ sym (ap (λ (o : Option (Head × List ℕ)). elim o [ none ↦ dropped | some x ↦ parsed x ]) e)

-- The cursor over a body, and the head that a body of enough bytes has.
pub body_cursor-IsLive :
    (header : ℕ) (msg : List ℕ) (len : ℕ)
    → header ≤ len
    → len ≤ length msg
    → len < 2 ^ 31
    → IsLive (body_cursor header msg len)
body_cursor-IsLive header msg len h k s = record {
  fine = refl;
  inside = omega arith;
  backed = omega (arith, length-drop header msg);
  short = omega arith;
}

pub parse_head_lem :
    (n : ℕ) (f : List ℕ → ℕ) (bs : List ℕ)
    → 4 + n ≤ length bs
    → parse_head (P.field n f) bs
      ≡ some (
        record {
          sfn = be 0 (take 2 bs) % 2 ^ 16;
          slot = be 0 (take 2 (drop 2 bs)) % 2 ^ 16;
          pdus = f (take n (drop 2 (drop 2 bs)));
        },
        drop n (drop 2 (drop 2 bs)),
      )
unfolding parse_head
parse_head_lem n f bs h = ground (
  arith,
  P.field_lem 2 (λ l. be 0 l % 2 ^ 16) bs,
  P.field_lem 2 (λ l. be 0 l % 2 ^ 16) (drop 2 bs),
  P.field_lem n f (drop 2 (drop 2 bs)),
  length-drop 2 bs,
  length-drop 2 (drop 2 bs),
)

-- A translator: its length check, then the relay of the body.
module _ {A : Type 0} {read_count : Rd ℕ} (n : ℕ) (g : List ℕ → ℕ) (round : Round) (p : Parser A)
    {enc : A → Writer → Writer} {f : A → List ℕ} (fc : Faithful read_count (P.field n g))
    (rr : RoundRelays round p enc) (emits : (a : A) → Emits (enc a) (f a)) (msg_type mu cap : ℕ)
    (scratch : List ℕ) (room : length scratch ≡ cap) (small : cap < 2 ^ 32) where
  pub framed_lem :
      (header : ℕ) (msg : List ℕ) (len : ℕ)
      → len ≤ length msg
      → len < 2 ^ 31
      → (if ltb len (header + (4 + n))
          then dropped
          else relay read_count round msg_type mu scratch cap (body_cursor header msg len))
        ≡ (if ltb len (header + (4 + n))
            then dropped
            else relayed (P.field n g) p f msg_type mu cap (view (body_cursor header msg len)))
  framed_lem header msg len backed short = elim (Bool-cases (ltb len (header + (4 + n)))) [
    | inl few ↦ rw few
    | inr many ↦
        let enough : header + (4 + n) ≤ len = ltb→ge len (header + (4 + n)) many in
        let live : IsLive (body_cursor header msg len) =
          body_cursor-IsLive header msg len (omega arith) backed short in
        rw many (
          relay_lem round p fc rr emits msg_type mu cap scratch room small
            (body_cursor header msg len) live
            (parse_head_lem n g (view (body_cursor header msg len))
              (omega (arith, length-view live))))
  ]
