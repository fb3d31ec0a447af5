-- ===== src/Benchmark/Serve.antt =====
-- benchmarks/dns-sink/main.go: `main`, as its listeners and its log of rates, and the loop of `serve`.
use www_scanner.Prelude.{
  ℕ, zero, suc, ◌+◌, ◌-◌, ◌%◌, ◌<◌, ◌≡◌, Bool, true, false, List, [], ◌∷◌, Option, none, some,
  Option-cases, inl, inr, if◌then◌else◌, take, length, All, arith,
}
use www_scanner.Benchmark.DnsSink.{build_response}

-- One round of `serve`: the datagram and the peer that `ReadFromUDP` gives, none if it fails, and whether the reply can be
-- written.
pub record Round : Type 0 where
  pub datagram : Option (List ℕ × ℕ)
  pub writes : Bool

-- the room of the read buffer; the rest of a longer datagram is lost
abbrev pub buffer_size : ℕ
buffer_size = 512

abbrev pub uint64_bound : ℕ
uint64_bound = 18446744073709551616

-- the reply of a round and its peer
unfoldable pub reply : Round → Option (List ℕ × ℕ)
reply r = elim r.datagram [
  | none ↦ none
  | some (q, peer) ↦ elim (build_response (take buffer_size q)) [
    | none ↦ none
    | some resp ↦ if r.writes then some (resp, peer) else none
  ]
]

-- `serve`, of the counter before: what is sent, and the counter `answered` afterwards
unfoldable pub serve : ℕ → List Round → List (List ℕ × ℕ) × ℕ
unfolding reply
serve answered [] = ([], answered)
serve answered (r ∷ rs) =
    let rest = serve answered rs in
    let more = serve ((answered + 1) % uint64_bound) rs in
    elim (reply r) [ none ↦ rest | some sent ↦ (sent ∷ more.0, more.1) ]

-- the log of `main`, of the counter at the ticks and before: the rates and the totals that it prints
unfoldable pub log_rates : ℕ → List ℕ → List (ℕ × ℕ)
log_rates prev [] = []
log_rates prev (cur ∷ more) =
    ((cur + (uint64_bound - prev)) % uint64_bound, cur) ∷ log_rates cur more

-- The listeners of `main`, of which `listens` says whether the next one opens: how many serve, or the end of the program.
unfoldable pub start_listeners : (ℕ → Bool) → ℕ → ℕ → Option ℕ
start_listeners listens zero i = some i
start_listeners listens (suc left) i = elim (listens i) [
  | true ↦ start_listeners listens left (i + 1)
  | false ↦ none
]

abbrev pub sum_rates : List (ℕ × ℕ) → ℕ
sum_rates [] = 0
sum_rates ((rate, total) ∷ rest) = rate + sum_rates rest

abbrev pub last_of : ℕ → List ℕ → ℕ
last_of prev [] = prev
last_of prev (cur ∷ more) = last_of cur more

-- `serve` counts every reply that it sends, and nothing else, up to the size of the counter.
pub serve-counts :
    (answered : ℕ) (rs : List Round)
    → answered < uint64_bound
    → (serve answered rs).1 ≡ (answered + length (serve answered rs).0) % uint64_bound
unfolding serve
serve-counts answered [] h = omega arith
serve-counts answered (r ∷ rs) h = elim (Option-cases (reply r)) [
  | inl e ↦ rw (e, serve) (serve-counts answered rs h)
  | inr (sent, e) ↦
      rw (e, serve) (omega (arith, serve-counts ((answered + 1) % uint64_bound) rs (omega arith)))
]

-- The rates that are logged add up to the difference of the last total and the first counter, up to the size of the counter,
-- so no reply is missed between two lines of the log, also when the counter wraps.
pub log_rates-sum :
    (prev : ℕ) (curs : List ℕ)
    → prev < uint64_bound
    → All (λ c. c < uint64_bound) curs
    → (prev + sum_rates (log_rates prev curs)) % uint64_bound ≡ last_of prev curs
unfolding log_rates
log_rates-sum prev [] h a = omega arith
log_rates-sum prev (cur ∷ more) h (lt, a) = omega (arith, log_rates-sum cur more lt a)
