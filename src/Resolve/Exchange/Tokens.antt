-- ===== src/Resolve/Exchange/Tokens.antt =====
-- internal/resolve/pool.go: in how many places the channel of a call is still to be answered or read.
use www_scanner.Prelude.{
  ℕ, zero, suc, ◌+◌, ◌≤◌, ◌≡◌, List, [], ◌∷◌, Option, none, some, Option-cases, ◌==◌, if◌then◌else◌,
  inl, inr, arith,
}
use www_scanner.Resolve.Messages.{Msg}
use www_scanner.Resolve.Sockets.{Waiter, Conn, find, remove, register, register_in, deliver}
use www_scanner.Resolve.Exchange.{Reader, handing, reading, stopped, Socket, reader_after}

-- how many entries of `inflight` answer on a channel
abbrev pub entries : ℕ → List (ℕ × Waiter) → ℕ
entries ch [] = 0
entries ch ((i, w) ∷ ws) = (if w.ch == ch then 1 else 0) + entries ch ws

abbrev pub in_hand : ℕ → Reader → ℕ
in_hand ch reading = 0
in_hand ch (handing c m) = if c == ch then 1 else 0
in_hand ch stopped = 0

abbrev pub buffered : Option Msg → ℕ
buffered none = 0
buffered (some m) = 1

abbrev pub tokens : Socket → ℕ → ℕ
tokens s ch = entries ch s.conn.inflight + in_hand ch s.reader + buffered (s.channels ch)

pub entries-remove-le :
    (ch id : ℕ) (ws : List (ℕ × Waiter)) → entries ch (remove id ws) ≤ entries ch ws
entries-remove-le ch id [] = omega arith
entries-remove-le ch id ((i, w) ∷ ws) = ground (arith, entries-remove-le ch id ws)

pub entries-remove :
    (ch id : ℕ) (ws : List (ℕ × Waiter)) (w : Waiter)
    → find id ws ≡ some w
    → entries ch (remove id ws) + (if w.ch == ch then 1 else 0) ≤ entries ch ws
entries-remove ch id [] w h = absurd cc
entries-remove ch id ((i, v) ∷ ws) w h =
    ground (arith, entries-remove ch id ws w, entries-remove-le ch id ws)

register_in-entries :
    (draw : ℕ → ℕ) (rounds k : ℕ) (c : Conn) (w : Waiter) (ch : ℕ)
    → entries ch (register_in draw rounds k c w).0.inflight
      ≤ entries ch c.inflight + (if w.ch == ch then 1 else 0)
unfolding register_in
register_in-entries draw zero k c w ch = omega arith
register_in-entries draw (suc rounds) k c w ch = elim (Option-cases (find (draw k) c.inflight)) [
  | inl free ↦ rw (free, register_in) (omega arith)
  | inr (taken, e) ↦ rw (e, register_in) (register_in-entries draw rounds (k + 1) c w ch)
]

-- `register` adds one entry at most, of the waiter.
pub register-entries :
    (draw : ℕ → ℕ) (c : Conn) (w : Waiter) (ch : ℕ)
    → entries ch (register draw c w).0.inflight
      ≤ entries ch c.inflight + (if w.ch == ch then 1 else 0)
unfolding register
register-entries draw c w ch = ground (arith, register_in-entries draw 64 0 c w ch)

-- `readLoop` moves an entry at most, from `inflight` into its hand.
pub deliver-tokens :
    (c : Conn) (m : Msg) (ch : ℕ)
    → entries ch (deliver c m).0.inflight + in_hand ch (reader_after m (deliver c m).1)
      ≤ entries ch c.inflight
unfolding deliver
deliver-tokens c m ch = elim (Option-cases (find m.id c.inflight)) [
  | inl e ↦ rw (e, deliver) (omega arith)
  | inr (w, e) ↦ ground (arith, e, entries-remove ch m.id c.inflight w)
]
