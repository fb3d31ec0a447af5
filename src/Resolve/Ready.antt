-- ===== src/Resolve/Ready.antt =====
-- internal/resolve/resolve.go: the queries of a `Resolver` that `New` built.
use www_scanner.Prelude.{Bool, ℕ, ◌+◌, ◌*◌, ◌≤◌, ◌<◌, ◌≡◌, List, Option, some, ok, Text}
use www_scanner.Prelude.Integers.{positive_part}
use www_scanner.Resolve.Answers.{Answer, IsBacked}
use www_scanner.Resolve.Pool.{int_bound}
use www_scanner.Resolve.Client.{Resolver, Upstream, query}
use www_scanner.Resolve.Setup.{Config, Built, new}
use www_scanner.Resolve.Sized.{new-IsReady}
use www_scanner.Resolve.Retry.{span, IsWitnessed, query_lem}

-- what `query` reads of the `Resolver`; `range` over the attempts makes none if the number is negative
abbrev pub resolver_of : Built → Resolver
resolver_of r = record {
  servers = r.cfg.servers;
  pool = r.pool;
  attempts = positive_part r.cfg.attempts;
}

module _ (has_port : Text → Bool) (join_host_port : Text → Text → Text)
    (resolv_conf : Option (List Text)) (dials : Text → ℕ → Bool) where
  -- A resolver that `New` returns, with or without a pool, answers every query without a panic while the counter is far
  -- from the largest int and the draws of other calls between two of its own are bounded, whatever the configuration said of servers, sockets and attempts: with what the response of
  -- some attempt says, or with a timeout or an error without an address; and the answer is ok exactly if it has an
  -- address.
  pub query-new :
      (cfg : Config) (r : Built) (up : Upstream) (busy next : ℕ)
      → new has_port join_host_port resolv_conf dials cfg ≡ ok r
      → ((n : ℕ) → up.others n ≤ busy)
      → next + positive_part r.cfg.attempts * span (resolver_of r) busy < int_bound
      → (ans : Answer) × (n : ℕ) × (query (resolver_of r) up next ≡ some (ans, n))
        × IsWitnessed (resolver_of r) up ans
        × IsBacked ans
  query-new cfg r up busy next built few room =
      let ready = new-IsReady has_port join_host_port resolv_conf dials cfg r built in
      query_lem (resolver_of r) up ready.some_rotation busy few next ready.some_attempt room
