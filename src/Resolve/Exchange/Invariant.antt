-- ===== src/Resolve/Exchange/Invariant.antt =====
-- internal/resolve/pool.go: what holds of a socket whatever the order of the moves.
use www_scanner.Prelude.{
  ℕ, ◌+◌, ◌≤◌, ◌≡◌, ◌≢◌, refl, ap, map, List, [], ◌∷◌, Option, none, some, subst, Option-cases, inl,
  inr, ◌==◌, if◌then◌else◌, ok, arith,
}
use www_scanner.Resolve.Messages.{Msg, Question}
use www_scanner.Resolve.Sockets.{lower_byte, Waiter, find, unregister, close, deliver}
use www_scanner.Resolve.Demux.{deliver_lem, find-remove, find-register, find-deliver}
use www_scanner.Resolve.Exchange.{
  Caller, idle, leaving, returned, Reader, handing, Socket, waiter_of, reader_after, CallMove,
  refuses, registers, finds_full, receives, unregisters, ReadMove, reads, hands, stops, Step, call,
  read, shut, Run, here, later, fresh,
}
use www_scanner.Resolve.Exchange.Tokens.{
  in_hand, buffered, tokens, entries-remove-le, register-entries, deliver-tokens,
}

reader_after-handing :
    (m : Msg) (to : Option ℕ) (ch : ℕ) (m' : Msg)
    → reader_after m to ≡ handing ch m'
    → (to ≡ some ch) × (m ≡ m')
reader_after-handing m none ch m' h = absurd cc
reader_after-handing m (some c) ch m' h = (cc, cc)

abbrev pub is_new : Caller → ℕ
is_new idle = 1
is_new _ = 0

module _ (asks : ℕ → List Question) where
  -- the one question of the message repeats the one question of the call
  pub record Answers (k : ℕ) (m : Msg) : Type 0 where
    pub asked : Question
    pub repeated : Question
    pub one_asked : asks k ≡ asked ∷ []
    pub one_repeated : m.questions ≡ repeated ∷ []
    pub same_name : map lower_byte repeated.q_name ≡ map lower_byte asked.q_name
    pub same_type : repeated.q_type ≡ asked.q_type

  abbrev pub question_of : Waiter → Question
  question_of w = record { q_name = w.qname; q_type = w.qtype }

  abbrev pub got : Caller → Option Msg
  got (leaving id (ok m)) = some m
  got (returned (ok m)) = some m
  got _ = none

  -- whether a call has received a message
  abbrev pub received : Caller → ℕ
  received c = buffered (got c)

  -- Every message on its way to a call answers it. Of the entry for a call, the message for it in the hand of `readLoop`,
  -- the one in the buffer of its channel and the one that it has received, there is one at most.
  pub record IsSound (s : Socket) : Type 0 where
    pub waits :
        (id : ℕ) (w : Waiter) → find id s.conn.inflight ≡ some w → asks w.ch ≡ question_of w ∷ []
    pub in_hand_ok : (ch : ℕ) (m : Msg) → s.reader ≡ handing ch m → Answers ch m
    pub buffer_ok : (ch : ℕ) (m : Msg) → s.channels ch ≡ some m → Answers ch m
    pub got_ok : (k : ℕ) (m : Msg) → got (s.callers k) ≡ some m → Answers k m
    pub once : (ch : ℕ) → tokens s ch + received (s.callers ch) ≤ 1
    pub unused : (k : ℕ) → s.callers k ≡ idle → tokens s k ≡ 0

  fresh-IsSound : IsSound fresh
  fresh-IsSound = record {
    waits = λ id w h. absurd cc;
    in_hand_ok = λ ch m h. absurd cc;
    buffer_ok = λ ch m h. absurd cc;
    got_ok = λ k m h. absurd cc;
    once = λ ch. omega arith;
    unused = λ k h. omega arith;
  }

  module _ (s : Socket) (sound : IsSound s) where
    open sound use {waits, in_hand_ok, buffer_ok, got_ok, once, unused}

    CallMove-waits :
        (k : ℕ) {c : Caller} {t : Socket}
        → CallMove asks k s c t
        → (id : ℕ) (w : Waiter) → find id t.conn.inflight ≡ some w
        → asks w.ch ≡ question_of w ∷ []
    unfolding unregister
    CallMove-waits k (registers draw {q = q} one given) id w h =
        ground (arith, waits id w, find-register draw s.conn (waiter_of k q) id w h)
    CallMove-waits k (finds_full draw {q = q} one given) id w h =
        ground (arith, waits id w, find-register draw s.conn (waiter_of k q) id w h)
    CallMove-waits k (unregisters {id = old}) id w h =
        ground (arith, waits id w, find-remove old id s.conn.inflight)
    CallMove-waits k mv id w h = waits id w h

    CallMove-buffer :
        (k : ℕ) {c : Caller} {t : Socket}
        → CallMove asks k s c t
        → (ch : ℕ) (m : Msg) → t.channels ch ≡ some m
        → Answers ch m
    CallMove-buffer k (receives given) ch m h = ground (arith, buffer_ok ch m)
    CallMove-buffer k mv ch m h = buffer_ok ch m h

    CallMove-hand :
        (k : ℕ) {c : Caller} {t : Socket}
        → CallMove asks k s c t
        → (ch : ℕ) (m : Msg) → t.reader ≡ handing ch m
        → Answers ch m
    CallMove-hand k (refuses many) ch m h = in_hand_ok ch m h
    CallMove-hand k mv ch m h = in_hand_ok ch m h

    CallMove-got :
        (k : ℕ) {c : Caller} {t : Socket}
        → CallMove asks k s c t
        → s.callers k ≡ c
        → (j : ℕ) (m : Msg) → got (t.callers j) ≡ some m
        → Answers j m
    CallMove-got k (receives {m = m'} given) e j m h = ground (arith, got_ok j m, buffer_ok k m')
    CallMove-got k (unregisters {r = ok m'}) e j m h = ground (arith, got_ok j m, got_ok k m')
    CallMove-got k mv e j m h = ground (arith, got_ok j m)

    -- The tokens of a channel and what its call has received grow only by the registration of the call.
    pub CallMove-tokens :
        (k : ℕ) {c : Caller} {t : Socket}
        → CallMove asks k s c t
        → s.callers k ≡ c
        → (j : ℕ)
        → tokens t j + received (t.callers j)
          ≤ tokens s j + received (s.callers j) + (if k == j then is_new c else 0)
    unfolding unregister
    CallMove-tokens k (registers draw {q = q} one given) e j =
        ground (arith, e, register-entries draw s.conn (waiter_of k q) j)
    CallMove-tokens k (finds_full draw {q = q} one given) e j =
        ground (arith, e, register-entries draw s.conn (waiter_of k q) j)
    CallMove-tokens k (receives given) e j = ground (arith, e)
    CallMove-tokens k (unregisters {id = id} {r = ok m}) e j =
        ground (arith, e, entries-remove-le j id s.conn.inflight)
    CallMove-tokens k (unregisters {id = id} {r = r}) e j =
        ground (arith, e, entries-remove-le j id s.conn.inflight)
    CallMove-tokens k mv e j = ground (arith, e)

    pub CallMove-starts :
        (k : ℕ) {c : Caller} {t : Socket}
        → CallMove asks k s c t
        → (j : ℕ) → t.callers j ≡ idle
        → (s.callers j ≡ idle) × (j ≢ k)
    CallMove-starts k (refuses many) j h = ground arith
    CallMove-starts k mv j h = ground arith

    room :
        (k : ℕ) (c : Caller)
        → s.callers k ≡ c
        → (j : ℕ) → tokens s j + received (s.callers j) + (if k == j then is_new c else 0) ≤ 1
    room k idle e j = ground (arith, once j, unused j)
    room k c e j = ground (arith, once j)

    reads-Answers :
        (m : Msg) (ch : ℕ) (m' : Msg)
        → reader_after m (deliver s.conn m).1 ≡ handing ch m'
        → Answers ch m'
    reads-Answers m ch m' h =
        let (to, same) = reader_after-handing m (deliver s.conn m).1 ch m' h in
        let ((w, q, waiting_one, at_ch, one, name, type), _) = deliver_lem s.conn m ch 0 to in
        subst (Answers ch) same (record {
          asked = question_of w;
          repeated = q;
          one_asked = ground (arith, waits m.id w waiting_one, at_ch);
          one_repeated = one;
          same_name = name;
          same_type = type;
        })

    CallMove-IsSound :
        (k : ℕ) {c : Caller} {t : Socket} → CallMove asks k s c t → s.callers k ≡ c → IsSound t
    CallMove-IsSound k {c} mv e = record {
      waits = CallMove-waits k mv;
      in_hand_ok = CallMove-hand k mv;
      buffer_ok = CallMove-buffer k mv;
      got_ok = CallMove-got k mv e;
      once = λ j. omega (arith, CallMove-tokens k mv e j, room k c e j);
      unused = λ j h. ground (arith, CallMove-starts k mv j h, CallMove-tokens k mv e j, unused j);
    }

    ReadMove-IsSound : {r : Reader} {t : Socket} → ReadMove s r t → s.reader ≡ r → IsSound t
    ReadMove-IsSound (reads m) e = record {
      waits = λ id w h. waits id w (find-deliver s.conn m id w h);
      in_hand_ok = λ ch m' h. reads-Answers m ch m' h;
      buffer_ok = buffer_ok;
      got_ok = got_ok;
      once = λ j. omega (arith, deliver-tokens s.conn m j, once j);
      unused = λ j h. omega (arith, deliver-tokens s.conn m j, unused j h);
    }
    ReadMove-IsSound (hands {ch = ch} {m = m}) e = record {
      waits = waits;
      in_hand_ok = λ c m h. absurd cc;
      buffer_ok = λ c m' h. ground (arith, buffer_ok c m', in_hand_ok ch m e);
      got_ok = got_ok;
      once = λ j. ground (arith, once j, ap (in_hand j) e);
      unused = λ j h. ground (arith, unused j h, ap (in_hand j) e);
    }
    ReadMove-IsSound stops e = record {
      waits = waits;
      in_hand_ok = λ c m h. absurd cc;
      buffer_ok = buffer_ok;
      got_ok = got_ok;
      once = λ j. omega (arith, once j);
      unused = λ j h. omega (arith, unused j h);
    }

  pub Step-IsSound : {s t : Socket} → Step asks s t → IsSound s → IsSound t
  unfolding close
  Step-IsSound {s} (call k mv) sound = CallMove-IsSound s sound k mv refl
  Step-IsSound {s} (read mv) sound = ReadMove-IsSound s sound mv refl
  Step-IsSound {s} shut sound = record {
    waits = sound.waits;
    in_hand_ok = sound.in_hand_ok;
    buffer_ok = sound.buffer_ok;
    got_ok = sound.got_ok;
    once = sound.once;
    unused = sound.unused;
  }

  -- Whatever the order in which the calls of `exchange` on a socket, its `readLoop` and `close` move, a message that a
  -- call has received, or that is on its way to it, has exactly one question, which is that of the call up to the case
  -- of its letters. In every state, of the entry that waits for a call, the message in the hand of `readLoop` for it, the
  -- one in the buffer of its channel, and the one that it has received, there is one at most.
  pub run-IsSound : {s : Socket} → Run asks fresh s → IsSound s
  run-IsSound here = fresh-IsSound
  run-IsSound (later run step) = Step-IsSound step (run-IsSound run)

  -- The last `select` of `readLoop` never drops a message: when it has one for a channel, the buffer is empty, also
  -- if the call has given up.
  pub hands-buffered :
      {s : Socket} (ch : ℕ) (m : Msg)
      → Run asks fresh s
      → s.reader ≡ handing ch m
      → s.channels ch ≡ none
  hands-buffered {s} ch m run e =
      let sound = run-IsSound run in
      elim (Option-cases (s.channels ch)) [
        | inl empty ↦ empty
        | inr (old, full) ↦
            absurd (ground (arith, sound.once ch, ap (in_hand ch) e, ap buffered full))
      ]
