-- ===== src/Command/Explain.antt =====
-- cmd/wwwscan/main.go: `explain`, which names the rung of the ladder that broke.
use www_scanner.Prelude.{
  ℕ, ◌<◌, ◌≡◌, ◌≢◌, ◌↔◌, ◌⊎◌, Bool, false, not, ◌&&◌, ◌++◌, leb, ◌==◌, if◌then◌else◌, Text, text,
  arith,
}
use www_scanner.Prelude.Decimal.{format_int}
use www_scanner.Record.{Record, www_supported}
use www_scanner.Probe.Classify.{is_tls_failure}
use www_scanner.Probe.Invariant.{IsLadder}
use www_scanner.Record.Status
use www_scanner.Record.Resolve
use www_scanner.Record.Tcp
use www_scanner.Record.Tls

-- `explain`
unfoldable pub explain : Record → Text
unfolding text
explain r =
    if r.www.resolve == Resolve.nxdomain
    then text "the name does not exist (no record at all)"
    else if r.www.resolve == Resolve.no_data
    then text "the name exists but has no address record"
    else if not (r.www.resolve == Resolve.ok)
    then text "dns " ++ Resolve.string r.www.resolve
    else if r.www.tcp == Tcp.refused
    then text "resolves, but nothing is listening"
    else if r.www.tcp == Tcp.timeout
    then text "resolves, but the connection hangs"
    else if r.www.tls == Tls.name_mismatch
    then text "the certificate has no SAN entry for this name"
    else if r.www.tls == Tls.expired
    then text "the certificate has expired"
    else if not (r.www.tls == Tls.ok) && not (r.www.tls == Tls.unattempted)
    then text "tls " ++ Tls.string r.www.tls
    else if leb 400 r.www.http
    then text "serves, but returns "
      ++ format_int r.www.http
      ++ text " (the vhost likely only knows the apex)"
    else text "unclassified"

-- For a complete record whose www does not work and whose www side is a ladder, `explain` has no words for exactly one
-- kind of failure: www has an address, the connection was neither refused nor did it time out, TLS worked or was not
-- reached, and no status of 200 or more came back.
pub explain_unclassified_iff :
    (r : Record) (max_hops : ℕ) (fell_back : Bool)
    → r.status ≡ Status.complete
    → www_supported r ≡ false
    → IsLadder max_hops r.www fell_back
    → (explain r ≡ text "unclassified") ↔ (
        (r.www.resolve ≡ Resolve.ok)
        × (r.www.tcp ≢ Tcp.refused)
        × (r.www.tcp ≢ Tcp.timeout)
        × ((r.www.tls ≡ Tls.ok) ⊎ (r.www.tls ≡ Tls.unattempted))
        × (r.www.http < 200))
unfolding explain text www_supported is_tls_failure
explain_unclassified_iff r max_hops fell_back complete broken ladder =
    ground (arith, ladder.tls_before_http)
