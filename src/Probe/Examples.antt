-- ===== src/Probe/Examples.antt =====
-- Tests of internal/probe, and its theorems at concrete answers.
use www_scanner.Prelude.{ℕ, ◌≡◌, refl, true, false, [], none, some, Text, text, if◌then◌else◌}
use www_scanner.Record.{Side}
use www_scanner.Record.Canonical
use www_scanner.Record.Tls
use www_scanner.Probe.Transport.{NetError, failed, answered, classify_transport_err}
use www_scanner.Probe.Classify.{saturate_ms, www_of, serves_ok, classify_canonical}
use www_scanner.Prelude.Strings.{has_prefix}
use www_scanner.Probe.Walk.{UrlLib, is_https, next_url, host_of}
use www_scanner.Probe.Ladder.{Config, Network, probe_name, probe}
use www_scanner.Prelude.{List, ◌∷◌, Result, ok, err, ◌==◌}
use www_scanner.Probe.Resolved.{IsQueried, IsResolved}
use www_scanner.Resolve.Messages.{Msg, QueryError, a_record}
use www_scanner.Resolve.Answers.{Answer, from_msg}
use www_scanner.Resolve.Pool.{pick, index}
use www_scanner.Resolve.Client.{
  Resolver, Upstream, received, errored, query, choose, answer_of, classify_net_err,
}
use www_scanner.Resolve.Lookup.{lookup, delegation}
use www_scanner.Probe.Invariant.{IsLadder, probe_name-IsLadder}

abbrev serving_side : ℕ → Side
serving_side hops = record {
  resolve = 1;
  rr_types = 1;
  tcp = 1;
  tls = 1;
  http = 200;
  terminal = 1;
  hops = hops;
}

abbrev domain : Text
domain = text "a.com"

serving_side_serves : (hops : ℕ) → serves_ok (serving_side hops) ≡ true
unfolding serves_ok
serving_side_serves hops = refl

-- an error that says nothing
abbrev plain_error : NetError
plain_error = record {
  hostname_error = false;
  unknown_authority = false;
  certificate_invalid = none;
  record_header_error = false;
  alert_error = false;
  conn_refused = false;
  host_unreachable = false;
  net_unreachable = false;
  net_timeout = false;
  deadline_exceeded = false;
  conn_reset = false;
  end_of_file = false;
  unexpected_eof = false;
  says_handshake_timeout = false;
  says_tls = false;
}

abbrev expired_error : NetError
expired_error = record plain_error { certificate_invalid = some true }

-- every URL is read as one of the host a.com
abbrev one_host : UrlLib
one_host = record {
  parse = λ t. some (record { scheme = text "https"; hostname = domain; spelled = t });
  resolve_reference = λ b r. r;
}

-- the certificate has expired, and the plaintext site answers
abbrev expired_site : Network
expired_site = record {
  lookup = λ name. record { status = 1; rr_types = 1; addrs = [] };
  fetch = λ start hop url. if is_https url then failed expired_error else answered 200 [];
  delegation = λ name. 0;
  exists = λ name. (false, true);
  random_label = text "abcdefghijklmno";
  cancelled = false;
  elapsed_ms = 70000;
}

abbrev full_config : Config
full_config = record {
  max_hops = 5;
  http_fallback = true;
  check_delegation = false;
  wildcard_check = true;
}

fell_back :
    let r = probe one_host full_config expired_site (text " A.com.") in
    (r.flags ≡ 5)
    × (r.apex.tls ≡ Tls.expired)
    × (r.apex.http ≡ 200)
    × (r.canonical ≡ Canonical.www_to_apex)
    × (r.duration_m ≡ 65535)
unfolding probe text probe_name has_prefix classify_transport_err next_url classify_canonical
    host_of www_of saturate_ms
fell_back = (refl, refl, refl, refl, refl)

probe_name-IsLadder_example :
    IsLadder 5
      (probe_name one_host full_config expired_site domain domain).0
      (probe_name one_host full_config expired_site domain domain).2
probe_name-IsLadder_example =
    probe_name-IsLadder one_host (λ b r e. cc) full_config expired_site domain domain

abbrev unanswered : QueryError
unanswered = record { timed_out = true; deadline_exceeded = false; canceled = false }

-- a resolver of one server, which answers with an address at the second attempt
abbrev resolver : Resolver
resolver = record { servers = text "9.9.9.9:53" ∷ []; pool = none; attempts = 2 }

abbrev one_address : Msg
one_address = record {
  id = 7;
  rcode = 0;
  truncated = false;
  questions = [];
  answers = a_record (1 ∷ 2 ∷ 3 ∷ 4 ∷ []) ∷ [];
  authority = [];
}

abbrev slow_once : Upstream
slow_once = record {
  cancelled = λ k. false;
  udp = λ k server. if k == 0 then errored unanswered else received one_address;
  tcp = λ k server. errored unanswered;
  others = λ n. 0;
}

abbrev found : Answer
found = record { status = 1; rr_types = 1; addrs = (1 ∷ 2 ∷ 3 ∷ 4 ∷ []) ∷ [] }

found-IsQueried : IsQueried found
unfolding query choose answer_of pick index classify_net_err from_msg
found-IsQueried = record {
  resolver = resolver;
  upstream = slow_once;
  next = 0;
  next' = 2;
  returned = refl;
}

abbrev resolved_site : Network
resolved_site = record expired_site {
  lookup = λ host. lookup found found;
  delegation = λ d. delegation (received one_address);
}

resolved_site-IsResolved : IsResolved resolved_site
resolved_site-IsResolved = record {
  looked_up = λ host. record {
    first = found;
    second = found;
    first_queried = found-IsQueried;
    second_queried = found-IsQueried;
    merged = refl;
  };
  checked = λ d. (received one_address, refl);
}

-- the second address answers, the first is dead
abbrev dial_second : List ℕ → Result ℕ ℕ
dial_second [] = err 9
dial_second (n ∷ ns) = if n == 2 then ok 5 else err 111
