-- ===== src/Resolve/Sockets.antt =====
-- internal/resolve/pool.go: one UDP socket that carries many queries at once: `register`, `unregister`,
-- `close`, what `readLoop` does with a message, and `equalName`. Each holds the lock, so it is one step.
use www_scanner.Prelude.{
  ℕ, zero, suc, ◌+◌, List, [], ◌∷◌, Option, none, some, Bool, true, false, not, ◌&&◌, if◌then◌else◌,
  ◌==◌, leb, length, Text,
}
use www_scanner.Resolve.Messages.{Msg, Question}

-- the loop of `equalName` on one byte
abbrev pub lower_byte : ℕ → ℕ
lower_byte c = if leb 65 c && leb c 90 then c + 32 else c

unfoldable pub equal_bytes : Text → Text → Bool
equal_bytes [] b = true
equal_bytes (x ∷ a) [] = true
equal_bytes (x ∷ a) (y ∷ b) = if lower_byte x == lower_byte y then equal_bytes a b else false

-- `equalName`
unfoldable pub equal_name : Text → Text → Bool
unfolding equal_bytes
equal_name a b = if not (length a == length b) then false else equal_bytes a b

-- `waiter`; a channel is a number
pub record Waiter : Type 0 where
  pub ch : ℕ
  pub qname : Text
  pub qtype : ℕ

-- `conn` without its socket and its server
pub record Conn : Type 0 where
  pub inflight : List (ℕ × Waiter)
  pub closed : Bool

-- the map `inflight`
abbrev pub find : ℕ → List (ℕ × Waiter) → Option Waiter
find id [] = none
find id ((i, w) ∷ ws) = if id == i then some w else find id ws

abbrev pub remove : ℕ → List (ℕ × Waiter) → List (ℕ × Waiter)
remove id [] = []
remove id ((i, w) ∷ ws) = let rest = remove id ws in if id == i then rest else (i, w) ∷ rest

abbrev pub max_id_attempts : ℕ
max_id_attempts = 64

-- the loop of `register`, with the rounds left; `draw k` is the ID drawn in round k
unfoldable pub register_in : (ℕ → ℕ) → ℕ → ℕ → Conn → Waiter → Conn × Option ℕ
register_in draw zero k c w = (c, none)
register_in draw (suc rounds) k c w =
    let rest = register_in draw rounds (k + 1) c w in
    elim (find (draw k) c.inflight) [
      | some _ ↦ rest
      | none ↦ (record c { inflight = (draw k, w) ∷ c.inflight }, some (draw k))
    ]

-- `register`
unfoldable pub register : (ℕ → ℕ) → Conn → Waiter → Conn × Option ℕ
unfolding register_in
register draw c w = if c.closed then (c, none) else register_in draw max_id_attempts 0 c w

-- `unregister`
unfoldable pub unregister : Conn → ℕ → Conn
unregister c id = record c { inflight = remove id c.inflight }

-- `close`
unfoldable pub close : Conn → Conn
close c = record c { closed = true }

-- whether the question section is the question of the waiter
unfoldable pub answers_question : Waiter → List Question → Bool
unfolding equal_name
answers_question w [] = false
answers_question w (q ∷ []) = equal_name q.q_name w.qname && q.q_type == w.qtype
answers_question w (q ∷ q' ∷ qs) = false

-- what `readLoop` does with a message: the connection afterwards and the channel that it goes to
unfoldable pub deliver : Conn → Msg → Conn × Option ℕ
unfolding answers_question
deliver c msg = elim (find msg.id c.inflight) [
  | none ↦ (c, none)
  | some w ↦
      if not (answers_question w msg.questions)
      then (c, none)
      else (record c { inflight = remove msg.id c.inflight }, some w.ch)
]
