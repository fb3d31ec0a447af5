-- ===== src/Scan/Probed.antt =====
-- internal/scan/scan.go over internal/probe: the records of `Probe` are those that the workers of a run expect.
use www_scanner.Prelude.{◌≢◌, Text, arith}
use www_scanner.Record.Status
use www_scanner.Probe.Walk.{UrlLib}
use www_scanner.Probe.Ladder.{Config, Network, probe}
use www_scanner.Probe.Resolved.{IsResolved, probe_resolved-IsEncodable}
use www_scanner.Scan.Pool.{IsProbed}

probe-attempted :
    (urls : UrlLib) (cfg : Config) (net : Network) (raw : Text)
    → (probe urls cfg net raw).status ≢ Status.unattempted
unfolding probe
probe-attempted urls cfg net raw = ground arith

-- Every record that `Probe` returns is one that a worker can write: it is encodable, and says that it was attempted, if
-- names are looked up by `Lookup` over the answers of two calls of `query` and delegations checked by `Delegation`: each
-- of its numbers is within the type that the record file keeps it in, whatever the DNS servers and the HTTP servers
-- answer, and on which attempt.
pub probe_resolved-IsProbed :
    (urls : UrlLib) (cfg : Config) (net : Network) (raw : Text)
    → IsResolved net
    → IsProbed (probe urls cfg net raw)
probe_resolved-IsProbed urls cfg net raw resolved = record {
  fits = probe_resolved-IsEncodable urls cfg net raw resolved;
  attempted = probe-attempted urls cfg net raw;
}
