-- ===== src/Resolve/Exchange/Starved.antt =====
-- internal/resolve/pool.go: the deferred `unregister` of `exchange`, after `readLoop` has freed the ID and another call has
-- taken it.
use www_scanner.Prelude.{ℕ, ◌≡◌, ◌≢◌, refl, sym, subst, ap, List, none, some, Result, ok, arith}
use www_scanner.Resolve.Messages.{Msg, Question}
use www_scanner.Resolve.Sockets.{find, unregister, close}
use www_scanner.Resolve.Exchange.{
  ExchangeError, Caller, idle, waiting, leaving, returned, Reader, Socket, update, waiter_of,
  CallMove, receives, unregisters, ReadMove, reads, hands, stops, Step, call, read, shut, Run, here,
  later, fresh,
}
use www_scanner.Resolve.Exchange.Tokens.{in_hand, buffered, tokens, entries-remove, deliver-tokens}
use www_scanner.Resolve.Exchange.Invariant.{
  is_new, got, IsSound, CallMove-tokens, CallMove-starts, Step-IsSound, run-IsSound,
}

not_new : (c : Caller) → c ≢ idle → is_new c ≡ 0
not_new idle h = absurd (h refl)
not_new c h = refl

module _ (asks : ℕ → List Question) where
  -- a call that has started, that no message is on the way to, and that has received none
  pub record IsStarved (b : ℕ) (s : Socket) : Type 0 where
    pub started : s.callers b ≢ idle
    pub lost : tokens s b ≡ 0
    pub without : got asks (s.callers b) ≡ none

  CallMove-got :
      (s : Socket) (b : ℕ)
      → IsStarved b s
      → (k : ℕ) {c : Caller} {t : Socket} → CallMove asks k s c t
      → s.callers k ≡ c
      → got asks (t.callers b) ≡ none
  CallMove-got s b starved k (receives full) e =
      ground (arith, starved.lost, starved.without, ap buffered full)
  CallMove-got s b starved k (unregisters {r = ok m}) e = ground (arith, starved.without)
  CallMove-got s b starved k mv e = ground (arith, starved.without)

  ReadMove-IsStarved :
      (s : Socket) (b : ℕ)
      → IsStarved b s
      → {r : Reader} {t : Socket} → ReadMove s r t
      → s.reader ≡ r
      → IsStarved b t
  ReadMove-IsStarved s b starved (reads m) e = record {
    started = starved.started;
    lost = omega (arith, starved.lost, deliver-tokens s.conn m b);
    without = starved.without;
  }
  ReadMove-IsStarved s b starved (hands {ch = ch} {m = m}) e = record {
    started = starved.started;
    lost = ground (arith, starved.lost, ap (in_hand b) e);
    without = starved.without;
  }
  ReadMove-IsStarved s b starved stops e = record {
    started = starved.started;
    lost = omega (arith, starved.lost);
    without = starved.without;
  }

  Step-IsStarved :
      (b : ℕ) {s t : Socket} → Step asks s t → IsSound asks s → IsStarved b s → IsStarved b t
  unfolding close
  Step-IsStarved b {s} (call k mv) sound starved = record {
    started = λ h. starved.started (CallMove-starts asks s sound k mv b h).0;
    lost = ground (
      arith,
      CallMove-tokens asks s sound k mv refl b,
      ap buffered starved.without,
      not_new (s.callers b) starved.started,
      starved.lost,
    );
    without = CallMove-got s b starved k mv refl;
  }
  Step-IsStarved b {s} (read mv) sound starved = ReadMove-IsStarved s b starved mv refl
  Step-IsStarved b {s} shut sound starved = record {
    started = starved.started;
    lost = starved.lost;
    without = starved.without;
  }

  -- the state after the deferred `unregister` of a call
  abbrev pub after_unregister : Socket → ℕ → ℕ → Result ExchangeError Msg → Socket
  after_unregister s a id r = record s {
    conn = unregister s.conn id;
    callers = update s.callers a (returned r);
  }

  Run-IsStarved :
      (b : ℕ) {s t : Socket}
      → IsSound asks s
      → IsStarved b s
      → Run asks s t
      → IsSound asks t × IsStarved b t
  Run-IsStarved b sound starved here = (sound, starved)
  Run-IsStarved b sound starved (later run step) =
      let (sound', starved') = Run-IsStarved b sound starved run in
      (Step-IsSound asks step sound', Step-IsStarved b step sound' starved')

  after_unregister-Step :
      (s : Socket) (a id : ℕ) (r : Result ExchangeError Msg)
      → s.callers a ≡ leaving id r
      → Step asks s (after_unregister s a id r)
  after_unregister-Step s a id r e =
      call a (subst (λ c. CallMove asks a s c (after_unregister s a id r)) (sym e) unregisters)

  after_unregister-IsStarved :
      (s : Socket) (a b id : ℕ) (q : Question) (r : Result ExchangeError Msg)
      → IsSound asks s
      → s.callers a ≡ leaving id r
      → s.callers b ≡ waiting id
      → find id s.conn.inflight ≡ some (waiter_of b q)
      → IsStarved b (after_unregister s a id r)
  unfolding unregister
  after_unregister-IsStarved s a b id q r sound leaves waits_too taken = record {
    started = λ h. ground (arith, leaves, waits_too);
    lost = ground (arith, entries-remove b id s.conn.inflight (waiter_of b q) taken, sound.once b);
    without = ground (arith, leaves, waits_too);
  }

  -- An ID that `readLoop` has freed can be drawn by another call before the first has left `exchange`. The deferred
  -- `unregister` of the first then takes the entry of the second away: if call `a` is to leave with an ID under which
  -- call `b` waits, `b` never receives a response afterwards, whatever arrives, and can only fail.
  pub unregister-starves :
      {s u : Socket} (a b id : ℕ) (q : Question) (r : Result ExchangeError Msg) (m : Msg)
      → Run asks fresh s
      → s.callers a ≡ leaving id r
      → s.callers b ≡ waiting id
      → find id s.conn.inflight ≡ some (waiter_of b q)
      → Run asks (after_unregister s a id r) u
      → (u.callers b ≢ leaving id (ok m)) × (u.callers b ≢ returned (ok m))
  unregister-starves {s} a b id q r m run leaves waits_too taken rest =
      let sound = run-IsSound asks run in
      let starved = after_unregister-IsStarved s a b id q r sound leaves waits_too taken in
      let (_, later_starved) =
        Run-IsStarved b (Step-IsSound asks (after_unregister-Step s a id r leaves) sound) starved
          rest in
      (
        λ e. absurd (ground (arith, later_starved.without)),
        λ e. absurd (ground (arith, later_starved.without)),
      )
