-- ===== src/Probe/Invariant.antt =====
-- internal/probe/probe.go: what `probeName` guarantees of the side that it returns.
use www_scanner.Prelude.{
  ℕ, ◌≤◌, ◌≡◌, ◌≢◌, refl, ◌⊎◌, inl, inr, Bool, true, false, Text, text, arith,
}
use www_scanner.Prelude.Strings.{has_prefix}
use www_scanner.Record.{Side, zero_side}
use www_scanner.Record.Resolve
use www_scanner.Record.Tcp
use www_scanner.Record.Tls
use www_scanner.Record.Terminal
use www_scanner.Probe.Transport.{Reply}
use www_scanner.Probe.Classify.{is_tls_failure}
use www_scanner.Probe.Walk.{UrlLib, is_https, walk}
use www_scanner.Probe.Chain.{Reparses, follow-outcome}
use www_scanner.Probe.Ladder.{Config, Network, secure_url, plain_url, probe_name}

-- The ladder of one name: no rung is recorded above one that failed.
pub record IsLadder (max_hops : ℕ) (side : Side) (fell_back : Bool) : Type 0 where
  pub within_cap : side.hops ≤ max_hops
  -- without an address nothing else was tried
  pub dns_first :
      (side.resolve ≡ Resolve.ok)
      ⊎ ((side.tcp ≡ Tcp.unattempted)
          × (side.tls ≡ Tls.unattempted)
          × (side.http ≡ 0)
          × (side.hops ≡ 0)
          × (side.terminal ≡ Terminal.nowhere))
  -- a response came over a working transport; without one there is no terminal host
  pub tcp_before_http : ((side.http ≡ 0) × (side.terminal ≡ Terminal.nowhere)) ⊎ (side.tcp ≡ Tcp.ok)
  -- a response came over TLS, or from the fallback, which keeps why TLS failed
  pub tls_before_http :
      ((side.http ≡ 0) × (fell_back ≡ false))
      ⊎ ((fell_back ≡ false) × (side.tls ≡ Tls.ok))
      ⊎ ((fell_back ≡ true) × (side.http ≢ 0) × (is_tls_failure side.tls ≡ true))

-- what a walk from a fresh side leaves
record Walked (max_hops : ℕ) (secure : Bool) (origin s : Side) : Type 0 where
  w_capped : s.hops ≤ max_hops
  w_tcp : ((s.http ≡ 0) × (s.terminal ≡ Terminal.nowhere)) ⊎ (s.tcp ≡ Tcp.ok)
  w_tls : (s.http ≡ 0) ⊎ (secure ≡ false) ⊎ (s.tls ≡ Tls.ok)
  w_dns : s.resolve ≡ origin.resolve

module _ (urls : UrlLib) (reparses : Reparses urls) (fetch : ℕ → Text → Reply) where
  walk-Walked :
      (max_hops : ℕ) (s : Side) (start origin apex : Text)
      → s.http ≡ 0
      → s.hops ≡ 0
      → Walked max_hops (is_https start) s (walk urls fetch max_hops s start origin apex).0
        × ((walk urls fetch max_hops s start origin apex).2 ≡ false)
  unfolding walk
  walk-Walked max_hops s start origin apex h z =
      elim (follow-outcome urls reparses fetch max_hops start s) [
        | inl silent ↦ ground arith
        | inr answered ↦ ground arith
      ]

module _ (urls : UrlLib) (reparses : Reparses urls) (cfg : Config) (net : Network) where
  secure_url-is_https : (host : Text) → is_https (secure_url urls cfg net host) ≡ true
  unfolding has_prefix text
  secure_url-is_https host = refl

  -- `probeName` returns a ladder: the hops are within the cap, nothing is tried without an address, a
  -- response needs TCP, and needs TLS unless it came from the fallback, if the spelling of every URL
  -- parses again.
  pub probe_name-IsLadder :
      (host apex : Text)
      → IsLadder cfg.max_hops
          (probe_name urls cfg net host apex).0
          (probe_name urls cfg net host apex).2
  unfolding probe_name
  probe_name-IsLadder host apex =
      let ans = net.lookup host in
      let side = record zero_side { resolve = ans.status; rr_types = ans.rr_types } in
      let (s, sf) =
        walk-Walked urls reparses (net.fetch (secure_url urls cfg net host)) cfg.max_hops side
          (secure_url urls cfg net host) host apex refl refl in
      let (p, pf) =
        walk-Walked urls reparses (net.fetch (plain_url urls cfg net host)) cfg.max_hops side
          (plain_url urls cfg net host) host apex refl refl in
      record {
        within_cap = ground (arith, s.w_capped, p.w_capped);
        dns_first = ground (arith, s.w_dns, p.w_dns);
        tcp_before_http = ground (arith, s.w_tcp, p.w_tcp);
        tls_before_http = ground (arith, s.w_tls, sf, pf, secure_url-is_https host);
      }
