-- ===== src/Probe/Chain.antt =====
-- internal/probe/probe.go: what a walk leaves in the side of the name that it started from.
use native.Mathlib.Numerals.{add-one}
use www_scanner.Prelude.{
  [], ℕ, zero, suc, ◌+◌, ◌≤◌, ◌<◌, ◌≡◌, ◌≢◌, refl, ◌⊎◌, inl, inr, Bool, false, ◌==◌, none, some,
  Option-cases, if◌then◌else◌, Text, arith,
}
use www_scanner.Prelude.Strings.{has_prefix}
use www_scanner.Record.{Side}
use www_scanner.Record.Tcp
use www_scanner.Record.Tls
use www_scanner.Probe.Transport.{NetError, Reply, classify_transport_err}
use www_scanner.Probe.Rounds.{round_cases}
use www_scanner.Probe.Walk.{
  Url, UrlLib, Stop, is_https, host_of, resolve_ref, next_url, note_answer, follow,
}

-- An error says nothing of the response, and never leaves the transport field untouched.
pub classify_transport_err_lem :
    (s : Side) (e : NetError) (b : Bool)
    → let t = classify_transport_err s e b in
      (t.http ≡ s.http)
      × (t.hops ≡ s.hops)
      × (t.resolve ≡ s.resolve)
      × (t.rr_types ≡ s.rr_types)
      × (t.tcp ≢ Tcp.unattempted)
      × ((t.tls ≡ s.tls) ⊎ ((t.tcp ≡ Tcp.ok) × (t.tls ≢ Tls.ok) × (t.tls ≢ Tls.unattempted)))
unfolding classify_transport_err
classify_transport_err_lem s e b = ground arith

-- What `net/url` documents of `String`: the spelling of a URL can be parsed again.
abbrev pub Reparses : UrlLib → Type 0
Reparses urls = (b r : Url) → urls.parse (urls.resolve_reference b r).spelled ≢ none

-- After an answer: the transport worked, the hops are within the cap, and the TLS field is the given
-- one or ok.
pub record Answered (origin : Side) (max_hops tls : ℕ) (s : Side) : Type 0 where
  pub tcp_ok : s.tcp ≡ Tcp.ok
  pub capped : s.hops ≤ max_hops
  pub kept_tls : (s.tls ≡ tls) ⊎ (s.tls ≡ Tls.ok)
  pub kept_dns : (s.resolve ≡ origin.resolve) × (s.rr_types ≡ origin.rr_types)

module _ (origin : Side) (max_hops hop : ℕ) (capped : hop ≤ max_hops) (current : Text)
    (s : Side) where
  -- an answer at a later hop
  note_again :
      (tls code : ℕ)
      → Answered origin max_hops tls s
      → Answered origin max_hops tls (note_answer s current hop code)
  note_again tls code a = record {
    tcp_ok = refl;
    capped = omega arith;
    kept_tls = ground (arith, a.kept_tls);
    kept_dns = a.kept_dns;
  }

  -- the first answer
  note_first :
      (code : ℕ)
      → (s.resolve ≡ origin.resolve) × (s.rr_types ≡ origin.rr_types)
      → Answered origin max_hops
          (if is_https current then Tls.ok else s.tls)
          (note_answer s current hop code)
  note_first code dns = record {
    tcp_ok = refl;
    capped = omega arith;
    kept_tls = inl refl;
    kept_dns = dns;
  }

module _ (urls : UrlLib) (reparses : Reparses urls) (fetch : ℕ → Text → Reply) where
  next_url-parses :
      (current loc : Text) (code : ℕ) (next : Text)
      → next_url urls current code loc ≡ some next
      → urls.parse next ≢ none
  unfolding next_url resolve_ref
  next_url-parses current loc code next h = grind (arith, reparses)

  -- One round of the loop, for a property of the stop that every way out of the loop has.
  follow_cases {ℓ} :
      (P : Stop → Type ℓ) (rounds hop : ℕ) (current last : Text) (s : Side)
      → urls.parse current ≢ none
      → ((e : NetError)
          → P (record {
            side = if hop == 0 then classify_transport_err s e (is_https current) else s;
            last_host = last;
          }))
      → ((code : ℕ)
          → P (record { side = note_answer s current hop code; last_host = host_of urls current }))
      → ((code : ℕ) (next : Text)
          → urls.parse next ≢ none
          → P (
              follow urls fetch rounds
                (hop + 1)
                next
                (host_of urls current)
                (note_answer s current hop code)))
      → P (follow urls fetch (suc rounds) hop current last s)
  follow_cases P rounds hop current last s parses failing ending going =
      round_cases urls fetch P rounds hop current last s (λ bad. absurd (parses bad)) failing ending
        (λ code loc next n. going code next (next_url-parses current loc code next n))

  follow-Answered :
      (origin : Side) (max_hops rounds hop tls : ℕ) (current last : Text) (s : Side)
      → 0 < hop
      → hop + rounds ≡ max_hops + 1
      → urls.parse current ≢ none
      → Answered origin max_hops tls s
      → Answered origin max_hops tls (follow urls fetch rounds hop current last s).side
  follow-Answered origin max_hops zero hop tls current last s later e parses a = unfold follow in a
  follow-Answered origin max_hops (suc rounds) hop tls current last s later e parses a =
      let noted = note_again origin max_hops hop (omega arith) current s tls in
      follow_cases (λ stop. Answered origin max_hops tls stop.side) rounds hop current last s parses
        (λ err. let same : (hop == 0) ≡ false = ground arith in rw same a) (λ code. noted code a)
        (λ code next p.
          follow-Answered origin max_hops rounds (hop + 1) tls next (host_of urls current)
            (note_answer s current hop code) (omega arith) (omega arith) p (noted code a))

  -- The first request got no answer: the TCP and TLS fields say why.
  pub record Silent (origin s : Side) : Type 0 where
    pub no_response : s.http ≡ origin.http
    pub no_hops : s.hops ≡ origin.hops
    pub tcp_known : s.tcp ≢ Tcp.unattempted
    pub tls_failed :
        (s.tls ≡ origin.tls) ⊎ ((s.tcp ≡ Tcp.ok) × (s.tls ≢ Tls.ok) × (s.tls ≢ Tls.unattempted))
    pub same_dns : (s.resolve ≡ origin.resolve) × (s.rr_types ≡ origin.rr_types)

  -- A walk ends in one of two ways.
  pub follow-outcome :
      (max_hops : ℕ) (start : Text) (s : Side)
      → Silent s (follow urls fetch (max_hops + 1) 0 start [] s).side
        ⊎ Answered s max_hops
            (if is_https start then Tls.ok else s.tls)
            (follow urls fetch (max_hops + 1) 0 start [] s).side
  unfolding follow has_prefix
  follow-outcome max_hops start s = elim (Option-cases (urls.parse start)) [
    | inl bad ↦
        rw (add-one max_hops, bad, follow)
          (inl (record {
            no_response = refl;
            no_hops = refl;
            tcp_known = λ e. cc;
            tls_failed = inl refl;
            same_dns = (refl, refl);
          }))
    | inr (u, good) ↦ rw (add-one max_hops) (
        follow_cases
          (λ stop.
            Silent s stop.side
            ⊎ Answered s max_hops (if is_https start then Tls.ok else s.tls) stop.side)
          max_hops 0 start [] s (λ bad. cc) (λ err. inl (silent err))
          (λ code. inr (note_first s max_hops 0 (omega arith) start s code (refl, refl)))
          (λ code next p. inr (
            follow-Answered s max_hops max_hops 1 _ next (host_of urls start)
              (note_answer s start 0 code) (omega arith) (omega arith) p
              (note_first s max_hops 0 (omega arith) start s code (refl, refl)))))
  ]
    where
      silent : (err : NetError) → Silent s (classify_transport_err s err (is_https start))
      silent err =
          let l = classify_transport_err_lem s err (is_https start) in
          record {
            no_response = l.0;
            no_hops = l.1;
            tcp_known = l.4;
            tls_failed = l.5;
            same_dns = (l.2, l.3);
          }
