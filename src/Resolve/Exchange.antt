-- ===== src/Resolve/Exchange.antt =====
-- internal/resolve/pool.go: `dialConn`, and the calls of `exchange` on one socket with its `readLoop`, as their moves in
-- any order. A call is numbered by the channel that it makes; `asks` gives the questions of its message.
mod Tokens
pub mod Invariant
pub mod Starved
pub mod Delivered
mod Examples
use www_scanner.Prelude.{
  ℕ, ◌≡◌, ◌≢◌, Bool, false, true, List, [], ◌∷◌, Option, none, some, Result, ok, err, length, ◌==◌,
  if◌then◌else◌,
}
use www_scanner.Resolve.Messages.{Msg, Question, QueryError}
use www_scanner.Resolve.Sockets.{Waiter, Conn, register, unregister, close, deliver}

-- the errors of `exchange`
pub data ExchangeError : Type 0 where
  not_one_question : ExchangeError
  socket_full : ExchangeError
  pack_failed : ExchangeError
  write_failed : ExchangeError
  timed_out : ExchangeError
  deadline_exceeded : ExchangeError
  canceled : ExchangeError

-- What an error says to `classifyNetErr`: `timeoutError` is a `net.Error` that timed out. The error of a write to a
-- connected UDP socket is taken not to be a timeout, since no write deadline is set.
unfoldable pub query_error : ExchangeError → QueryError
query_error e = elim e [
  | timed_out ↦ record { timed_out = true; deadline_exceeded = false; canceled = false }
  | deadline_exceeded ↦ record { timed_out = true; deadline_exceeded = true; canceled = false }
  | canceled ↦ record { timed_out = false; deadline_exceeded = false; canceled = true }
  | _ ↦ record { timed_out = false; deadline_exceeded = false; canceled = false }
]

-- `dialConn`, of whether the address resolves and the socket opens: the new connection
unfoldable pub dial_conn : Bool → Bool → Option Conn
dial_conn resolves dials =
    if resolves
    then if dials then some (record { inflight = []; closed = false }) else none
    else none

-- A call of `exchange`: before `register`, before the write, in the `select`, with its result before the deferred
-- `unregister`, and after it.
pub data Caller : Type 0 where
  idle : Caller
  sending : ℕ → Caller
  waiting : ℕ → Caller
  leaving : ℕ → Result ExchangeError Msg → Caller
  returned : Result ExchangeError Msg → Caller

-- `readLoop`: in `Read`, with a message for a channel after `Unlock`, and past the loop
pub data Reader : Type 0 where
  reading : Reader
  handing : ℕ → Msg → Reader
  stopped : Reader

-- A channel holds one message at most.
pub record Socket : Type 0 where
  pub conn : Conn
  pub channels : ℕ → Option Msg
  pub callers : ℕ → Caller
  pub reader : Reader

-- one value of a function replaced
abbrev pub update {ℓ} : {A : Type ℓ} → (ℕ → A) → ℕ → A → ℕ → A
update f i v j = if j == i then v else f j

-- the waiter of a call that asks one question
abbrev pub waiter_of : ℕ → Question → Waiter
waiter_of k q = record { ch = k; qname = q.q_name; qtype = q.q_type }

-- what `readLoop` goes on with after `deliver`
abbrev pub reader_after : Msg → Option ℕ → Reader
reader_after m none = reading
reader_after m (some ch) = handing ch m

-- The last `select` of `readLoop`: the buffer takes the message if it is empty, otherwise the message is dropped.
abbrev pub offer : Option Msg → Msg → Option Msg
offer none m = some m
offer (some old) m = some old

-- A move of call `k`. The system picks the IDs that `register` draws, whether packing and writing fail, and when the
-- timer or the context ends the `select`, which is free to choose that also if a response is there.
pub data CallMove (asks : ℕ → List Question) (k : ℕ) (s : Socket) : Caller → Socket → Type 0 where
  refuses :
      length (asks k) ≢ 1
      → CallMove asks k s idle
          (record s { callers = update s.callers k (returned (err not_one_question)) })
  registers :
      (draw : ℕ → ℕ) {q : Question} {id : ℕ}
      → asks k ≡ q ∷ []
      → (register draw s.conn (waiter_of k q)).1 ≡ some id
      → CallMove asks k s idle (record s {
        conn = (register draw s.conn (waiter_of k q)).0;
        callers = update s.callers k (sending id);
      })
  finds_full :
      (draw : ℕ → ℕ) {q : Question}
      → asks k ≡ q ∷ []
      → (register draw s.conn (waiter_of k q)).1 ≡ none
      → CallMove asks k s idle (record s {
        conn = (register draw s.conn (waiter_of k q)).0;
        callers = update s.callers k (returned (err socket_full));
      })
  packs_badly :
      {id : ℕ}
      → CallMove asks k s
          (sending id)
          (record s { callers = update s.callers k (leaving id (err pack_failed)) })
  writes_badly :
      {id : ℕ}
      → CallMove asks k s
          (sending id)
          (record s { callers = update s.callers k (leaving id (err write_failed)) })
  sends :
      {id : ℕ}
      → CallMove asks k s (sending id) (record s { callers = update s.callers k (waiting id) })
  receives :
      {id : ℕ} {m : Msg}
      → s.channels k ≡ some m
      → CallMove asks k s (waiting id) (record s {
        channels = update s.channels k none;
        callers = update s.callers k (leaving id (ok m));
      })
  gives_up :
      {id : ℕ} (e : ExchangeError)
      → CallMove asks k s
          (waiting id)
          (record s { callers = update s.callers k (leaving id (err e)) })
  unregisters :
      {id : ℕ} {r : Result ExchangeError Msg}
      → CallMove asks k s
          (leaving id r)
          (record s { conn = unregister s.conn id; callers = update s.callers k (returned r) })

-- A move of `readLoop`. A message that does not unpack changes nothing.
pub data ReadMove (s : Socket) : Reader → Socket → Type 0 where
  reads :
      (m : Msg)
      → ReadMove s reading
          (record s { conn = (deliver s.conn m).0; reader = reader_after m (deliver s.conn m).1 })
  hands :
      {ch : ℕ} {m : Msg}
      → ReadMove s
          (handing ch m)
          (record s { channels = update s.channels ch (offer (s.channels ch) m); reader = reading })
  stops : ReadMove s reading (record s { reader = stopped })

pub data Step (asks : ℕ → List Question) (s : Socket) : Socket → Type 0 where
  call : (k : ℕ) {t : Socket} → CallMove asks k s (s.callers k) t → Step asks s t
  read : {t : Socket} → ReadMove s s.reader t → Step asks s t
  shut : Step asks s (record s { conn = close s.conn })

-- the socket that `dialConn` leaves
abbrev pub fresh : Socket
fresh = record {
  conn = record { inflight = []; closed = false };
  channels = λ _. none;
  callers = λ _. idle;
  reader = reading;
}

pub data Run (asks : ℕ → List Question) (s : Socket) : Socket → Type 0 where
  here : Run asks s s
  later : {t u : Socket} → Run asks s t → Step asks t u → Run asks s u
