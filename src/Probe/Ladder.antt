-- ===== src/Probe/Ladder.antt =====
-- internal/probe/probe.go: `probeName`, the ladder of one name, and `Probe`, both names of a domain.
-- What the network answers is a parameter. Two goroutines probe the two names; they share nothing but
-- the answers, so the order in which they run does not matter here.
use Prim.Native.Nat.{bit_or}
use www_scanner.Prelude.{
  ℕ, Bool, true, false, not, ◌&&◌, ◌||◌, ◌++◌, [], ◌==◌, if◌then◌else◌, Text, text,
}
use www_scanner.Prelude.Strings.{trim_space, to_lower, trim_suffix}
use www_scanner.Record.{Side, Record, zero_side, zero_record}
use www_scanner.Record.Status
use www_scanner.Record.Flags
use www_scanner.Record.Resolve
use www_scanner.Resolve.Answers.{Answer}
use www_scanner.Probe.Transport.{Reply}
use www_scanner.Probe.Classify.{www_of, classify_canonical, is_tls_failure, saturate_ms}
use www_scanner.Probe.Walk.{UrlLib, walk}

-- `Config`, without the durations and the user agent, which only the network sees
pub record Config : Type 0 where
  pub max_hops : ℕ
  pub http_fallback : Bool
  pub check_delegation : Bool
  pub wildcard_check : Bool

-- What the resolver and the HTTP client come back with during one probe.
pub record Network : Type 0 where
  pub lookup : Text → Answer
  -- the request of a hop in the walk that begins at the first URL
  pub fetch : Text → ℕ → Text → Reply
  pub delegation : Text → ℕ
  pub exists : Text → Bool × Bool
  pub random_label : Text  -- the 15 characters that `WildcardLabel` draws
  pub cancelled : Bool  -- `ctx.Err() != nil` at the end
  pub elapsed_ms : ℕ

module _ (urls : UrlLib) (cfg : Config) (net : Network) where
  abbrev pub secure_url : Text → Text
  secure_url host = text "https://" ++ host ++ text "/"

  abbrev pub plain_url : Text → Text
  plain_url host = text "http://" ++ host ++ text "/"

  -- `probeName`: the side, the host that the chain came to rest on, and whether the outcome came from
  -- the plaintext fallback
  unfoldable pub probe_name : Text → Text → Side × Text × Bool
  unfolding is_tls_failure walk text
  probe_name host apex =
      let ans = net.lookup host in
      let side = record zero_side { resolve = ans.status; rr_types = ans.rr_types } in
      if not (ans.status == Resolve.ok)
      then (side, [], false)
      else let https =
          walk urls (net.fetch (secure_url host)) cfg.max_hops side (secure_url host) host apex in
        let http =
          walk urls (net.fetch (plain_url host)) cfg.max_hops side (plain_url host) host apex in
        if cfg.http_fallback
          && https.0.http == 0
          && is_tls_failure https.0.tls
          && not (http.0.http == 0)
        then (record (http.0) { tls = https.0.tls }, http.1, true)
        else https

  -- the flags that the wildcard probe adds
  abbrev pub wildcard_flags : Text → ℕ → ℕ → ℕ
  wildcard_flags domain www_resolve flags =
      if not (cfg.wildcard_check && www_resolve == Resolve.ok)
      then flags
      else let (exists, conclusive) = net.exists (net.random_label ++ text "." ++ domain) in
        if not conclusive
        then flags
        else let checked = bit_or flags Flags.wildcard_checked in
          if exists then bit_or checked Flags.wildcard else checked

  -- the domain as `Probe` spells it
  unfoldable pub normal_domain : Text → Text
  unfolding trim_space to_lower trim_suffix text
  normal_domain raw = trim_suffix (to_lower (trim_space raw)) (text ".")

  -- `Probe`
  unfoldable pub probe : Text → Record
  unfolding normal_domain
  probe raw =
      let domain = normal_domain raw in
      let apex = probe_name domain domain in
      let www = probe_name (www_of domain) domain in
      let fallback : ℕ = if apex.2 || www.2 then bit_or 0 Flags.http_fallback else 0 in
      record zero_record {
        status = if net.cancelled then Status.aborted else Status.complete;
        flags = wildcard_flags domain www.0.resolve fallback;
        canonical = classify_canonical apex.0 www.0 apex.1 www.1 domain;
        delegation = if cfg.check_delegation then net.delegation domain else 0;
        duration_m = saturate_ms net.elapsed_ms;
        apex = apex.0;
        www = www.0;
      }
