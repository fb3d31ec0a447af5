-- ===== src/Probe/Encodable.antt =====
-- internal/probe/probe.go: the record that `Probe` returns keeps to the types of its fields.
use www_scanner.Prelude.{[], ℕ, zero, suc, ◌+◌, ◌<◌, Bool, Text, arith}
use www_scanner.Record.{Side, zero_side, IsEncodable}
use www_scanner.Record.Tcp
use www_scanner.Record.Codec.{IsEncodableSide}
use www_scanner.Probe.Transport.{NetError, Reply, classify_transport_err}
use www_scanner.Probe.Classify.{saturate_ms, classify_terminal, classify_canonical}
use www_scanner.Probe.Walk.{UrlLib, is_https, host_of, note_answer, follow, walk}
use www_scanner.Probe.Rounds.{round_cases}
use www_scanner.Probe.Ladder.{
  Config, Network, secure_url, plain_url, probe_name, normal_domain, probe,
}

classify_transport_err-IsEncodableSide :
    (s : Side) (e : NetError) (b : Bool)
    → IsEncodableSide s
    → IsEncodableSide (classify_transport_err s e b)
unfolding classify_transport_err
classify_transport_err-IsEncodableSide s e b fits = ground (arith, fits)

note_answer-IsEncodableSide :
    (s : Side) (current : Text) (hop code : ℕ)
    → IsEncodableSide s
    → IsEncodableSide (note_answer s current hop code)
note_answer-IsEncodableSide s current hop code fits = record {
  resolve_fits = fits.resolve_fits;
  rr_types_fits = fits.rr_types_fits;
  tcp_fits = omega arith;
  tls_fits = ground (arith, fits.tls_fits);
  http_fits = omega arith;
  terminal_fits = fits.terminal_fits;
  hops_fits = omega arith;
}

unparsed-IsEncodableSide :
    (s : Side) → IsEncodableSide s → IsEncodableSide (record s { tcp = Tcp.error })
unparsed-IsEncodableSide s fits = record {
  resolve_fits = fits.resolve_fits;
  rr_types_fits = fits.rr_types_fits;
  tcp_fits = omega arith;
  tls_fits = fits.tls_fits;
  http_fits = fits.http_fits;
  terminal_fits = fits.terminal_fits;
  hops_fits = fits.hops_fits;
}

classify_terminal-lt : (terminal origin apex : Text) → classify_terminal terminal origin apex < 256
unfolding classify_terminal
classify_terminal-lt terminal origin apex = ground arith

classify_canonical-lt :
    (apex www : Side) (a w domain : Text) → classify_canonical apex www a w domain < 256
unfolding classify_canonical
classify_canonical-lt apex www a w domain = ground arith

module _ (urls : UrlLib) (fetch : ℕ → Text → Reply) where
  follow-IsEncodableSide :
      (rounds hop : ℕ) (current last : Text) (s : Side)
      → IsEncodableSide s
      → IsEncodableSide (follow urls fetch rounds hop current last s).side
  follow-IsEncodableSide zero hop current last s fits = unfold follow in fits
  follow-IsEncodableSide (suc rounds) hop current last s fits =
      round_cases urls fetch (λ stop. IsEncodableSide stop.side) rounds hop current last s
        (λ bad. unparsed-IsEncodableSide s fits)
        (λ err.
          ground
            (arith, fits, classify_transport_err-IsEncodableSide s err (is_https current) fits))
        (λ code. note_answer-IsEncodableSide s current hop code fits)
        (λ code loc next n.
          follow-IsEncodableSide rounds (hop + 1) next (host_of urls current)
            (note_answer s current hop code) (note_answer-IsEncodableSide s current hop code fits))

  walk-IsEncodableSide :
      (max_hops : ℕ) (s : Side) (start origin apex : Text)
      → IsEncodableSide s
      → IsEncodableSide (walk urls fetch max_hops s start origin apex).0
  unfolding walk
  walk-IsEncodableSide max_hops s start origin apex fits =
      let stop = follow urls fetch (max_hops + 1) 0 start [] s in
      ground (
        arith,
        follow-IsEncodableSide (max_hops + 1) 0 start [] s fits,
        classify_terminal-lt stop.last_host origin apex,
      )

-- The answers of the resolver and of the delegation check are values of their Go types.
pub record IsTyped (net : Network) : Type 0 where
  pub status_typed : (host : Text) → (net.lookup host).status < 256
  pub rr_types_typed : (host : Text) → (net.lookup host).rr_types < 256
  pub delegation_typed : (domain : Text) → net.delegation domain < 256

module _ (urls : UrlLib) (cfg : Config) (net : Network) (typed : IsTyped net) where
  probe_name-IsEncodableSide :
      (host apex : Text) → IsEncodableSide (probe_name urls cfg net host apex).0
  unfolding probe_name
  probe_name-IsEncodableSide host apex =
      let ans = net.lookup host in
      let side = record zero_side { resolve = ans.status; rr_types = ans.rr_types } in
      let fits : IsEncodableSide side = record {
        resolve_fits = typed.status_typed host;
        rr_types_fits = typed.rr_types_typed host;
        tcp_fits = omega arith;
        tls_fits = omega arith;
        http_fits = omega arith;
        terminal_fits = omega arith;
        hops_fits = omega arith;
      } in
      let secure =
        walk-IsEncodableSide urls (net.fetch (secure_url urls cfg net host)) cfg.max_hops side
          (secure_url urls cfg net host) host apex fits in
      let plain =
        walk-IsEncodableSide urls (net.fetch (plain_url urls cfg net host)) cfg.max_hops side
          (plain_url urls cfg net host) host apex fits in
      ground (arith, fits, secure, plain)

  -- Every record that `Probe` returns is encodable: each of its numbers is within the type that the record file keeps
  -- it in, whatever the network answers, if the resolver's and the delegation's answers are within theirs.
  pub probe-IsEncodable : (raw : Text) → IsEncodable (probe urls cfg net raw)
  unfolding probe saturate_ms
  probe-IsEncodable raw = record {
    status_fits = ground arith;
    flags_fits = ground arith;
    canonical_fits = classify_canonical-lt _ _ _ _ _;
    delegation_fits = ground (arith, typed.delegation_typed (normal_domain urls cfg net raw));
    duration_fits = ground arith;
    apex_fits = probe_name-IsEncodableSide _ _;
    www_fits = probe_name-IsEncodableSide _ _;
  }
