-- ===== src/Report/Summary.antt =====
-- internal/report/report.go: `apexServes`, `brokenReason` and `Build`, which walks the results and aggregates them.
use www_scanner.Prelude.{
  ℕ, suc, Bool, not, ◌&&◌, List, [], ◌∷◌, ◌++◌, range, min, ltb, leb, ◌==◌, if◌then◌else◌, Text,
  text, map,
}
use www_scanner.Prelude.Decimal.{format_int}
use www_scanner.Prelude.Counts.{Counts, number_key, text_key, inc}
use www_scanner.Record.{Record, conclusive, www_supported as supports, registration_state}
use www_scanner.Record.Status
use www_scanner.Record.Flags
use www_scanner.Record.Resolve
use www_scanner.Record.Tcp
use www_scanner.Record.Tls
use www_scanner.Sink.Results.{Results}

pub record Summary : Type 0 where
  pub total : ℕ
  pub attempted : ℕ
  pub unattempted : ℕ
  pub population : ℕ
  pub apex_serves : ℕ
  pub www_supported : ℕ
  pub www_supported_of_serving : ℕ
  pub www_broken : ℕ
  pub www_unknown : ℕ
  pub broken_reason : Counts Text
  pub www_wildcard_only : ℕ
  pub registration : Counts Text
  pub apex_resolve : Counts ℕ
  pub www_resolve : Counts ℕ
  pub www_tls : Counts ℕ
  pub www_http : Counts ℕ
  pub canonical : Counts ℕ
  pub rr_types : Counts ℕ

-- `apexServes`
unfoldable pub apex_serves : Record → Bool
apex_serves r = leb 200 r.apex.http && ltb r.apex.http 400 && r.apex.tls == Tls.ok

-- `brokenReason`
unfoldable pub broken_reason : Record → Text
unfolding text format_int
broken_reason r =
    if r.www.resolve == Resolve.nxdomain
    then text "no dns record at all (nxdomain)"
    else if r.www.resolve == Resolve.no_data
    then text "name exists, no address record"
    else if not (r.www.resolve == Resolve.ok)
    then text "dns " ++ Resolve.string r.www.resolve
    else if r.www.tcp == Tcp.refused
    then text "resolves, nothing listening"
    else if r.www.tcp == Tcp.timeout
    then text "resolves, connection hangs"
    else if not (r.www.tcp == Tcp.ok)
    then text "tcp " ++ Tcp.string r.www.tcp
    else if r.www.tls == Tls.name_mismatch
    then text "cert has no SAN for www"
    else if r.www.tls == Tls.expired
    then text "cert expired"
    else if not (r.www.tls == Tls.ok)
    then text "tls " ++ Tls.string r.www.tls
    else if leb 400 r.www.http
    then text "serves, returns " ++ format_int r.www.http
    else text "unclassified"

-- the counts of `Build` over an attempted record that do not depend on the apex
count_attempted : Record → Summary → Summary
count_attempted r s = record s {
  attempted = suc s.attempted;
  registration = inc (registration_state r) s.registration;
  apex_resolve = inc r.apex.resolve s.apex_resolve;
  www_resolve = inc r.www.resolve s.www_resolve;
  www_tls = inc r.www.tls s.www_tls;
  www_http = inc r.www.http s.www_http;
  canonical = inc r.canonical s.canonical;
  rr_types = inc r.www.rr_types s.rr_types;
}

-- `if supported { … } else if … { … }`
count_support : Record → Summary → Summary
count_support r s =
    if supports r
    then record s { www_supported = suc s.www_supported }
    else if r.www.resolve == Resolve.ok && Flags.has r.flags Flags.wildcard
    then record s { www_wildcard_only = suc s.www_wildcard_only }
    else s

-- `if apexServes(r) { … }`
count_serving : Record → Summary → Summary
unfolding apex_serves
count_serving r s =
    if not (apex_serves r)
    then s
    else if not (conclusive r)
    then record s { apex_serves = suc s.apex_serves; www_unknown = suc s.www_unknown }
    else if supports r
    then record s {
      apex_serves = suc s.apex_serves;
      www_supported_of_serving = suc s.www_supported_of_serving;
    }
    else record s {
      apex_serves = suc s.apex_serves;
      www_broken = suc s.www_broken;
      broken_reason = inc (broken_reason r) s.broken_reason;
    }

-- one round of the loop of `Build`
unfoldable pub tally : Summary → Record → Summary
unfolding count_attempted count_support count_serving
tally s r =
    if r.status == Status.unattempted
    then record s { unattempted = suc s.unattempted }
    else count_serving r (count_support r (count_attempted r s))

-- the rounds of the loop, in order
unfoldable pub tally_all : Summary → List Record → Summary
tally_all s [] = s
tally_all s (r ∷ rs) = tally_all (tally s r) rs

-- the summary before the first round
abbrev pub empty_summary : ℕ → ℕ → Summary
empty_summary total population = record {
  total = total;
  attempted = 0;
  unattempted = 0;
  population = population;
  apex_serves = 0;
  www_supported = 0;
  www_supported_of_serving = 0;
  www_broken = 0;
  www_unknown = 0;
  broken_reason = [];
  www_wildcard_only = 0;
  registration = [];
  apex_resolve = [];
  www_resolve = [];
  www_tls = [];
  www_http = [];
  canonical = [];
  rr_types = [];
}

-- `Build`, of a corpus with the given number of domains
unfoldable pub build : ℕ → Results → Summary
unfolding tally_all
build domains res =
    let n = min domains res.len in tally_all (empty_summary n domains) (map res.get (range n))
