-- ===== src/Resolve/Client.antt =====
-- internal/resolve/resolve.go: `query` and `exchange`, the attempts at one message. What comes back
-- from the network is a parameter.
use www_scanner.Prelude.{
  ℕ, zero, suc, ◌+◌, List, [], Option, none, some, Bool, not, ◌&&◌, ◌||◌, if◌then◌else◌, ◌==◌, Text,
  eq_text,
}
use www_scanner.Record.Resolve
use www_scanner.Resolve.Messages.{Msg, QueryError}
use www_scanner.Resolve.Answers.{Answer, with_status, from_msg}
use www_scanner.Resolve.Pool.{pick, pick_other}

-- the part of `Resolver` that the attempts read: the server of each pooled socket, if there is a pool
pub record Resolver : Type 0 where
  pub servers : List Text
  pub pool : Option (List Text)
  pub attempts : ℕ

pub data Outcome : Type 0 where
  received : Msg → Outcome
  errored : QueryError → Outcome

-- What happens at each attempt: whether the context has ended, what the exchange over UDP with a server returns, and
-- what the exchange over TCP returns; and how the draws of other calls come in between (Resolve.Pool).
pub record Upstream : Type 0 where
  pub cancelled : ℕ → Bool
  pub udp : ℕ → Text → Outcome
  pub tcp : ℕ → Text → Outcome
  pub others : ℕ → ℕ

-- `classifyNetErr`
unfoldable pub classify_net_err : QueryError → ℕ
classify_net_err err =
    if err.timed_out
    then Resolve.timeout
    else if err.deadline_exceeded || err.canceled
    then Resolve.timeout
    else Resolve.error

-- the server of an attempt and the counter afterwards; `last` is empty at the first attempt
unfoldable pub choose : (ℕ → ℕ) → Resolver → Text → ℕ → Option (Text × ℕ)
unfolding eq_text
choose others r last next = elim r.pool [
  | none ↦ pick others r.servers next
  | some conns ↦ elim (pick others conns next) [
    | none ↦ none
    | some (server, n) ↦
        if eq_text last [] then some (server, n) else pick_other others conns last n
  ]
]

-- what a server comes back with: a truncated response is asked for again over TCP
unfoldable pub answer_of : Upstream → ℕ → Text → Outcome
answer_of up k server = elim (up.udp k server) [
  | received m ↦ if m.truncated then up.tcp k server else received m
  | errored e ↦ errored e
]

module _ (r : Resolver) (up : Upstream) where
  -- the loop of `query`, with the rounds left, the number of the attempt, the last answer and the last
  -- server: the answer and the counter afterwards. `none` is a panic.
  unfoldable pub query_in : ℕ → ℕ → Answer → Text → ℕ → Option (Answer × ℕ)
  query_in zero k last last_server next = some (last, next)
  query_in (suc rounds) k last last_server next =
      if up.cancelled k
      then some (with_status Resolve.timeout, next)
      else elim (choose up.others r last_server next) [
        | none ↦ none
        | some (server, n) ↦ elim (answer_of up k server) [
          | received m ↦ some (from_msg m, n)
          | errored e ↦
              let now = with_status (classify_net_err e) in
              let rest = query_in rounds (k + 1) now server n in
              if not (now.status == Resolve.timeout) && not (now.status == Resolve.error)
              then some (now, n)
              else rest
        ]
      ]

  -- `query`
  unfoldable pub query : ℕ → Option (Answer × ℕ)
  unfolding query_in
  query next = query_in r.attempts 0 (with_status Resolve.unattempted) [] next

  -- the error of `exchange` when no attempt left one
  abbrev err_timeout : QueryError
  err_timeout = record {
    timed_out = Bool.true;
    deadline_exceeded = Bool.false;
    canceled = Bool.false;
  }

  -- `ctx.Err()`
  abbrev ctx_err : QueryError
  ctx_err = record { timed_out = Bool.false; deadline_exceeded = Bool.false; canceled = Bool.true }

  -- the loop of `exchange`, with the last error and the last server
  unfoldable pub exchange_in : ℕ → ℕ → Option QueryError → Text → ℕ → Option (Outcome × ℕ)
  exchange_in zero k last last_server next =
      some (elim last [ none ↦ errored err_timeout | some e ↦ errored e ], next)
  exchange_in (suc rounds) k last last_server next =
      if up.cancelled k
      then some (errored ctx_err, next)
      else elim (choose up.others r last_server next) [
        | none ↦ none
        | some (server, n) ↦ elim (answer_of up k server) [
          | received m ↦ some (received m, n)
          | errored e ↦ exchange_in rounds (k + 1) (some e) server n
        ]
      ]

  -- `exchange`
  unfoldable pub exchange : ℕ → Option (Outcome × ℕ)
  unfolding exchange_in
  exchange next = exchange_in r.attempts 0 none [] next
