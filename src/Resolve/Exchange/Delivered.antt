-- ===== src/Resolve/Exchange/Delivered.antt =====
-- internal/resolve/pool.go: a response that arrives in time reaches its call.
use www_scanner.Prelude.{
  ℕ, ◌≡◌, refl, sym, ap, ◌∙◌, subst, List, Option, none, some, ok, true, arith,
}
use www_scanner.Resolve.Messages.{Msg, Question}
use www_scanner.Resolve.Sockets.{find, remove, Conn, answers_question, deliver}
use www_scanner.Resolve.Exchange.{
  waiting, leaving, reading, handing, Socket, update, waiter_of, offer, reader_after, CallMove,
  receives, ReadMove, reads, hands, Step, call, read, Run, here, later, fresh,
}
use www_scanner.Resolve.Exchange.Invariant.{hands-buffered}

module _ (asks : ℕ → List Question) where
  -- the socket after the response has been read, handed over and received
  abbrev pub after_response : Socket → ℕ → ℕ → Msg → Socket
  after_response s k id m = record {
    conn = record (s.conn) { inflight = remove m.id s.conn.inflight };
    channels = update (update s.channels k (offer (s.channels k) m)) k none;
    callers = update s.callers k (leaving id (ok m));
    reader = reading;
  }

  -- In every state that a socket can be in, if a call waits with its entry in place and `readLoop` reads a response with
  -- its ID that repeats its question, then the message can be read, handed over and received, after which
  -- the call leaves with it: nothing that other calls have done stands in the way.
  pub response-arrives :
      {s : Socket} (k id : ℕ) (q : Question) (m : Msg)
      → Run asks fresh s
      → s.reader ≡ reading
      → s.callers k ≡ waiting id
      → m.id ≡ id
      → find id s.conn.inflight ≡ some (waiter_of k q)
      → answers_question (waiter_of k q) m.questions ≡ true
      → Run asks s (after_response s k id m)
  unfolding deliver
  response-arrives {s} k id q m run at_read waits same_id taken same =
      let found : find m.id s.conn.inflight ≡ some (waiter_of k q) =
        ap (λ i. find i s.conn.inflight) same_id ∙ taken in
      let e : deliver s.conn m
          ≡ (record (s.conn) { inflight = remove m.id s.conn.inflight }, some k) =
        rw (found, same, deliver) refl in
      let handed : Socket = record s {
        conn = record (s.conn) { inflight = remove m.id s.conn.inflight };
        reader = handing k m;
      } in
      let after : Socket = record s {
        conn = (deliver s.conn m).0;
        reader = reader_after m (deliver s.conn m).1;
      } in
      let reading_done : after ≡ handed =
        ap (λ (d : Conn × Option ℕ). record s { conn = d.0; reader = reader_after m d.1 }) e in
      let first : Step asks s handed =
        subst (λ t. Step asks s t) reading_done
          (read (subst (λ r. ReadMove s r after) (sym at_read) (reads m))) in
      let empty : s.channels k ≡ none =
        hands-buffered asks {s = handed} k m (later run first) refl in
      let buffered : Socket = record handed {
        channels = update s.channels k (offer (s.channels k) m);
        reader = reading;
      } in
      let second : Step asks handed buffered = read hands in
      let full : buffered.channels k ≡ some m = ground (arith, empty) in
      let third : Step asks buffered (after_response s k id m) = call k (
        subst (λ c. CallMove asks k buffered c (after_response s k id m)) (sym waits)
          (receives full)) in
      later (later (later here first) second) third
