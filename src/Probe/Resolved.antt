-- ===== src/Probe/Resolved.antt =====
-- internal/probe/probe.go over internal/resolve: the record of a probe whose names are looked up by the resolver.
use www_scanner.Prelude.{ℕ, ◌≡◌, some, Text, arith}
use www_scanner.Record.{IsEncodable}
use www_scanner.Resolve.Answers.{Answer}
use www_scanner.Resolve.Client.{Resolver, Upstream, Outcome, query}
use www_scanner.Resolve.Lookup.{lookup, delegation}
use www_scanner.Resolve.Typed.{
  IsTypedAnswer, query-IsTypedAnswer, lookup-IsTypedAnswer, delegation-lt,
}
use www_scanner.Probe.Walk.{UrlLib}
use www_scanner.Probe.Ladder.{Config, Network, probe}
use www_scanner.Probe.Encodable.{probe-IsEncodable}

-- an answer that `query` returns, from some counter and with some upstreams
pub record IsQueried (ans : Answer) : Type 0 where
  pub resolver : Resolver
  pub upstream : Upstream
  pub next : ℕ
  pub next' : ℕ
  pub returned : query resolver upstream next ≡ some (ans, next')

-- what `Lookup` makes of the answers for A and AAAA
pub record IsLookedUp (ans : Answer) : Type 0 where
  pub first : Answer
  pub second : Answer
  pub first_queried : IsQueried first
  pub second_queried : IsQueried second
  pub merged : ans ≡ lookup first second

IsQueried-IsTypedAnswer : (ans : Answer) → IsQueried ans → IsTypedAnswer ans
IsQueried-IsTypedAnswer ans q =
    query-IsTypedAnswer q.resolver q.upstream q.next q.next' ans q.returned

IsLookedUp-IsTypedAnswer : (ans : Answer) → IsLookedUp ans → IsTypedAnswer ans
IsLookedUp-IsTypedAnswer ans l = rw l.merged (
    lookup-IsTypedAnswer l.first l.second (IsQueried-IsTypedAnswer l.first l.first_queried)
      (IsQueried-IsTypedAnswer l.second l.second_queried))

-- a network whose names are looked up, and whose delegations are checked, by a `Resolver`
pub record IsResolved (net : Network) : Type 0 where
  pub looked_up : (host : Text) → IsLookedUp (net.lookup host)
  pub checked : (domain : Text) → (o : Outcome) × (net.delegation domain ≡ delegation o)

pub probe_resolved-IsEncodable :
    (urls : UrlLib) (cfg : Config) (net : Network) (raw : Text)
    → IsResolved net
    → IsEncodable (probe urls cfg net raw)
probe_resolved-IsEncodable urls cfg net raw resolved =
    probe-IsEncodable urls cfg net
      (record {
        status_typed = λ host. omega (
          arith,
          (IsLookedUp-IsTypedAnswer (net.lookup host) (resolved.looked_up host)).status_typed,
        );
        rr_types_typed = λ host. omega (
          arith,
          (IsLookedUp-IsTypedAnswer (net.lookup host) (resolved.looked_up host)).rr_types_typed,
        );
        delegation_typed =
            λ domain. let (o, e) = resolved.checked domain in omega (arith, e, delegation-lt o);
      })
      raw
