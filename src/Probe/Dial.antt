-- ===== src/Probe/Dial.antt =====
-- internal/probe/probe.go: `DefaultConfig`, the defaults of `New`, and `dialThrough`, which connects to the addresses that
-- the resolver gives. `net.SplitHostPort`, `net.ParseIP` and the dialer are parameters; an error of the dialer is a number.
use www_scanner.Prelude.{
  ℕ, Bool, true, false, List, [], ◌∷◌, ◌++◌, ◌≡◌, refl, All, Option, none, some, Result, ok, err,
  panic, ◌==◌, if◌then◌else◌, Text,
}
use www_scanner.Resolve.Lookup.{DnsError}
use www_scanner.Probe.Ladder.{Config}

-- `DefaultConfig`
abbrev pub default_config : Config
default_config = record {
  max_hops = 10;
  http_fallback = true;
  check_delegation = false;
  wildcard_check = true;
}

-- `New`, of the configuration: the cap on hops has a default
unfoldable pub with_defaults : Config → Config
with_defaults cfg = record cfg { max_hops = if cfg.max_hops == 0 then 10 else cfg.max_hops }

-- Why no connection was made: the address did not split, the name did not resolve, or the first error of the dialer, which
-- is none if there was no address to try.
pub data DialError : Type 0 where
  no_port : DialError
  unresolved : DnsError → DialError
  undialed : Option ℕ → DialError

module _ (dial : List ℕ → Result ℕ ℕ) (cancelled_after : List ℕ → Bool) where
  -- The loop of `dialThrough` over the addresses, with the first error so far: the connection, or the error to report. The
  -- context is asked after each failure.
  unfoldable pub try_each : Option ℕ → List (List ℕ) → Result DialError ℕ
  try_each first [] = err (undialed first)
  try_each first (ip ∷ ips) = elim (dial ip) [
    | ok conn ↦ ok conn
    | panic ↦ panic
    | err e ↦
        let first' : Option ℕ = elim first [ none ↦ some e | some f ↦ some f ] in
        let rest = try_each first' ips in if cancelled_after ip then err (undialed first') else rest
  ]

  -- `dialThrough`, of an address with the host that `SplitHostPort` finds in it, the literal that `ParseIP` makes of the
  -- host, and the answer of `LookupAddrs`
  unfoldable pub dial_through :
      Option Text
      → (Text → Option (List ℕ))
      → (Text → Result DnsError (List (List ℕ)))
      → Result DialError ℕ
  unfolding try_each
  dial_through none parse_ip lookup_addrs = err no_port
  dial_through (some host) parse_ip lookup_addrs = elim (parse_ip host) [
    | some ip ↦ elim (dial ip) [
      | ok conn ↦ ok conn
      | err e ↦ err (undialed (some e))
      | panic ↦ panic
    ]
    | none ↦ elim (lookup_addrs host) [
      | ok ips ↦ try_each none ips
      | err e ↦ err (unresolved e)
      | panic ↦ panic
    ]
  ]

-- The first address that answers is the one connected to: if the dialer fails on every address before it and the context is
-- not cancelled meanwhile, then the connection is made, whatever errors came first.
pub try_each-connects :
    (dial : List ℕ → Result ℕ ℕ) (cancelled_after : List ℕ → Bool) (before after : List (List ℕ))
    (ip : List ℕ) (conn : ℕ) (first : Option ℕ)
    → All (λ a. ((e : ℕ) × (dial a ≡ err e)) × (cancelled_after a ≡ false)) before
    → dial ip ≡ ok conn
    → try_each dial cancelled_after first (before ++ (ip ∷ after)) ≡ ok conn
unfolding try_each
try_each-connects dial cancelled_after [] after ip conn first _ h = rw h refl
try_each-connects dial cancelled_after (a ∷ before) after ip conn first
      (((e, fails), goes_on), rest) h =
    rw (fails, goes_on) (try_each-connects dial cancelled_after before after ip conn _ rest h)
