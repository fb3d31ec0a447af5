-- ===== src/Resolve/Pool.antt =====
-- internal/resolve/pool.go: `pick` and `pickOther`, which spread the queries over the sockets. A socket
-- is given by its upstream server. The counter is a uint64, which the code converts to an int. All calls draw from it: what
-- `others` gives for a value of the counter is how many numbers other calls draw before this one draws its next.
use www_scanner.Prelude.{
  ℕ, zero, suc, ◌+◌, ◌-◌, ◌%◌, List, Option, none, some, not, if◌then◌else◌, ◌==◌, ltb, length,
  get_elem?, Text, eq_text,
}

-- one more than the largest int
abbrev pub int_bound : ℕ
int_bound = 9223372036854775808

abbrev pub uint64_bound : ℕ
uint64_bound = 18446744073709551616

-- `int(n) % len` as an index; `none` is the panic of a division by zero or of a negative index
unfoldable pub index : ℕ → ℕ → Option ℕ
index n len =
    if len == 0
    then none
    else if ltb n int_bound
    then some (n % len)
    else if (uint64_bound - n) % len == 0
    then some 0
    else none

-- `pick`: the socket and the counter afterwards
unfoldable pub pick : (ℕ → ℕ) → List Text → ℕ → Option (Text × ℕ)
pick others conns next =
    let n = (next + others next + 1) % uint64_bound in
    elim (index n (length conns)) [
      | none ↦ none
      | some i ↦ elim (get_elem? conns i) [ none ↦ none | some server ↦ some (server, n) ]
    ]

-- the loop of `pickOther`, with the rounds left
unfoldable pub pick_other_in : (ℕ → ℕ) → ℕ → List Text → Text → ℕ → Option (Text × ℕ)
pick_other_in others zero conns avoid next = pick others conns next
pick_other_in others (suc rounds) conns avoid next = elim (pick others conns next) [
  | none ↦ none
  | some (server, n) ↦
      if not (eq_text server avoid)
      then some (server, n)
      else pick_other_in others rounds conns avoid n
]

-- `pickOther`
unfoldable pub pick_other : (ℕ → ℕ) → List Text → Text → ℕ → Option (Text × ℕ)
unfolding pick_other_in
pick_other others conns avoid next = pick_other_in others (length conns) conns avoid next
