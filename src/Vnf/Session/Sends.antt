-- ===== src/Vnf/Session/Sends.antt =====
-- The invariant of a session under a request that is sent.
use x_fapi.Prelude.{
  ℕ, ◌≡◌, refl, false, Option, none, some, ℤ, pos, negsuc, inl, inr, Bool-cases, ◌==◌,
}
use x_fapi.Vnf.{
  PnfState, P5Request, sendmsg, Vnf, emit, Answers, send_p5, moved, is_running, all_sent,
  send_packed, send_to,
}
use x_fapi.Vnf.Session.{is_disconnected, IsSession, emit-IsSession}

-- What came of a request: nothing was sent, or all of it or a part went to the PNF that is attached.
pub data Sending (m : P5Request) (v : Vnf) : ℤ × Vnf → Type 0 where
  unsent : Sending m v (negsuc 0, v)
  partly : (fd : ℕ) → v.p5_sock ≡ some fd → Sending m v (negsuc 0, emit (sendmsg fd m) v)
  wholly : (fd : ℕ) → v.p5_sock ≡ some fd → Sending m v (pos 0, emit (sendmsg fd m) v)

module _ (a : Answers) (m : P5Request) (v : Vnf) where
  by_amount :
      (fd n : ℕ) (o : Option ℕ)
      → v.p5_sock ≡ some fd
      → Sending m v (all_sent o n, emit (sendmsg fd m) v)
  by_amount fd n none e = partly fd e
  by_amount fd n (some k) e = elim (Bool-cases (k == n)) [
    | inl all ↦ rw all (wholly fd e)
    | inr less ↦ rw less (partly fd e)
  ]

  by_packing : (fd : ℕ) (o : Option ℕ) → v.p5_sock ≡ some fd → Sending m v (send_packed a m fd v o)
  by_packing fd none e = unsent
  by_packing fd (some n) e = by_amount fd n (a.sent n) e

  by_socket : (o : Option ℕ) → v.p5_sock ≡ o → Sending m v (send_to a m v o)
  by_socket none e = unsent
  by_socket (some fd) e = by_packing fd (a.packed m) e

  pub send_p5-Sending : Sending m v (send_p5 a m v)
  unfolding send_p5
  send_p5-Sending = by_socket v.p5_sock refl

-- A state other than DISCONNECTED and RUNNING, with a PNF attached.
pub set_state :
    (v : Vnf) (fd : ℕ) (s : PnfState)
    → v.p5_sock ≡ some fd
    → is_disconnected s ≡ false
    → is_running s ≡ false
    → IsSession v
    → IsSession (record v { pnf_state = s })
set_state v fd s e d r i = record {
  shape = rw (e, d, r) refl;
  threads = i.threads;
  sockets = i.sockets;
}

pub moved-IsSession :
    (m : P5Request) (v : Vnf) (s : PnfState) (r : ℤ × Vnf)
    → Sending m v r
    → is_disconnected s ≡ false
    → is_running s ≡ false
    → IsSession v
    → IsSession (moved s r).1
moved-IsSession m v s r unsent d n i = i
moved-IsSession m v s r (partly fd e) d n i = emit-IsSession (sendmsg fd m) v refl refl i
moved-IsSession m v s r (wholly fd e) d n i =
    set_state (emit (sendmsg fd m) v) fd s e d n (emit-IsSession (sendmsg fd m) v refl refl i)
