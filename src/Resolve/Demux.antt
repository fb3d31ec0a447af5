-- ===== src/Resolve/Demux.antt =====
-- internal/resolve/pool.go: which query a message on a shared socket goes to.
use www_scanner.Prelude.{
  ℕ, zero, suc, ◌+◌, ◌<◌, ◌≤◌, ◌≡◌, ◌≢◌, ◌↔◌, refl, sym, ◌∙◌, ap, ◌⊎◌, inl, inr, List, [], ◌∷◌, map,
  Option, none, some, true, false, if◌then◌else◌, ◌==◌, length, Text, Option-cases, Bool-cases,
  arith,
}
use www_scanner.Resolve.Messages.{Msg, Question}
use www_scanner.Resolve.Sockets.{
  lower_byte, equal_bytes, equal_name, Waiter, Conn, find, remove, max_id_attempts, register_in,
  register, answers_question, deliver,
}

equal_bytes_iff :
    (a b : Text)
    → length a ≡ length b
    → (equal_bytes a b ≡ true) ↔ (map lower_byte a ≡ map lower_byte b)
unfolding equal_bytes
equal_bytes_iff [] [] h = (λ e. refl, λ e. refl)
equal_bytes_iff [] (y ∷ b) h = absurd (omega arith)
equal_bytes_iff (x ∷ a) [] h = absurd (omega arith)
equal_bytes_iff (x ∷ a) (y ∷ b) h = ground (arith, equal_bytes_iff a b (omega arith))

map-length : (a b : Text) → map lower_byte a ≡ map lower_byte b → length a ≡ length b
map-length [] [] e = refl
map-length [] (y ∷ b) e = absurd cc
map-length (x ∷ a) [] e = absurd cc
map-length (x ∷ a) (y ∷ b) e = ap suc (map-length a b cc)

-- `equalName` holds exactly for names that are the same after lowering the ASCII letters.
pub equal_name_iff : (a b : Text) → (equal_name a b ≡ true) ↔ (map lower_byte a ≡ map lower_byte b)
unfolding equal_name
equal_name_iff a b = ground (arith, equal_bytes_iff a b, map-length a b)

pub find-remove :
    (id j : ℕ) (ws : List (ℕ × Waiter))
    → find j (remove id ws) ≡ (if j == id then none else find j ws)
find-remove id j [] = ground arith
find-remove id j ((i, w) ∷ ws) = ground (arith, find-remove id j ws)

answers_question-one :
    (w : Waiter) (qs : List Question)
    → answers_question w qs ≡ true
    → (q : Question) × (qs ≡ q ∷ [])
      × (map lower_byte q.q_name ≡ map lower_byte w.qname)
      × (q.q_type ≡ w.qtype)
unfolding answers_question
answers_question-one w [] h = absurd cc
answers_question-one w (q ∷ []) h =
    (q, refl, ground (arith, equal_name_iff q.q_name w.qname), ground arith)
answers_question-one w (q ∷ q' ∷ qs) h = absurd cc

-- A message is delivered only to the query that holds its ID, whose question it repeats, and it frees that ID and no
-- other: a second message with the same ID goes nowhere.
pub deliver_lem :
    (c : Conn) (m : Msg) (ch j : ℕ)
    → (deliver c m).1 ≡ some ch
    → ((w : Waiter) × (q : Question) × (find m.id c.inflight ≡ some w)
        × (w.ch ≡ ch)
        × (m.questions ≡ q ∷ [])
        × (map lower_byte q.q_name ≡ map lower_byte w.qname)
        × (q.q_type ≡ w.qtype))
      × (find j (deliver c m).0.inflight ≡ (if j == m.id then none else find j c.inflight))
unfolding deliver
deliver_lem c m ch j h = elim (Option-cases (find m.id c.inflight)) [
  | inl none_waits ↦ absurd (ground (arith, none_waits))
  | inr (w, waits) ↦ elim (Bool-cases (answers_question w m.questions)) [
    | inl same ↦
        let (q, one, name, type) = answers_question-one w m.questions same in
        let e : deliver c m ≡ (record c { inflight = remove m.id c.inflight }, some w.ch) =
          rw (waits, same, deliver) refl in
        let to : w.ch ≡ ch = ground (arith, e, h) in
        rw e ((w, q, waits, to, one, name, type), find-remove m.id j c.inflight)
    | inr other ↦ absurd (ground (arith, waits, other))
  ]
]

-- A message takes no entry but its own away, and adds none.
pub find-deliver :
    (c : Conn) (m : Msg) (j : ℕ) (w : Waiter)
    → find j (deliver c m).0.inflight ≡ some w
    → find j c.inflight ≡ some w
unfolding deliver
find-deliver c m j w h = ground (arith, find-remove m.id j c.inflight)

-- what `register` does, as seen at an ID `j`: nothing, or a free ID for the waiter
abbrev pub IsRegistration : Conn → Waiter → ℕ → Conn × Option ℕ → Type 0
IsRegistration c w j r =
    ((r.1 ≡ none) × (r.0 ≡ c))
    ⊎ ((id : ℕ) × (r.1 ≡ some id)
        × (find id c.inflight ≡ none)
        × (find j r.0.inflight ≡ (if j == id then some w else find j c.inflight)))

find-added :
    (id j : ℕ) (w : Waiter) (ws : List (ℕ × Waiter))
    → find j ((id, w) ∷ ws) ≡ (if j == id then some w else find j ws)
find-added id j w ws = refl

register_in-IsRegistration :
    (draw : ℕ → ℕ) (rounds k : ℕ) (c : Conn) (w : Waiter) (j : ℕ)
    → IsRegistration c w j (register_in draw rounds k c w)
unfolding register_in
register_in-IsRegistration draw zero k c w j = inl (refl, refl)
register_in-IsRegistration draw (suc rounds) k c w j =
    elim (Option-cases (find (draw k) c.inflight)) [
      | inr (taken, e) ↦ rw (e, register_in) (register_in-IsRegistration draw rounds (k + 1) c w j)
      | inl free ↦
          let e : register_in draw (suc rounds) k c w
              ≡ (record c { inflight = (draw k, w) ∷ c.inflight }, some (draw k)) =
            rw (free, register_in) refl in
          rw e (inr (draw k, refl, free, find-added (draw k) j w c.inflight))
    ]

pub register-IsRegistration :
    (draw : ℕ → ℕ) (c : Conn) (w : Waiter) (j : ℕ) → IsRegistration c w j (register draw c w)
unfolding register
register-IsRegistration draw c w j =
    ground (arith, register_in-IsRegistration draw max_id_attempts 0 c w j)

-- After `register`, an entry is the new waiter's or was there before.
pub find-register :
    (draw : ℕ → ℕ) (c : Conn) (w : Waiter) (j : ℕ) (v : Waiter)
    → find j (register draw c w).0.inflight ≡ some v
    → (find j c.inflight ≡ some v) ⊎ (v ≡ w)
find-register draw c w j v h = elim (register-IsRegistration draw c w j) [
  | inl (_, same) ↦ inl (ap (λ (d : Conn). find j d.inflight) (sym same) ∙ h)
  | inr (id, _, _, e) ↦ ground (arith, e, h)
]

register_in-free :
    (draw : ℕ → ℕ) (rounds k n : ℕ) (c : Conn) (w : Waiter)
    → k ≤ n
    → n < k + rounds
    → find (draw n) c.inflight ≡ none
    → (id : ℕ) × ((register_in draw rounds k c w).1 ≡ some id)
unfolding register_in
register_in-free draw zero k n c w h b free = absurd (omega arith)
register_in-free draw (suc rounds) k n c w h b free =
    elim (Option-cases (find (draw k) c.inflight)) [
      | inl now ↦ (draw k, rw (now, register_in) refl)
      | inr (taken, e) ↦
          let later : k ≢ n = λ same. cc in
          let (id, f) =
            register_in-free draw rounds (k + 1) n c w (omega arith) (omega arith) free in
          (id, rw (e, register_in) f)
    ]

-- On a socket that is not closed, if one of the 64 IDs that `register` draws is free, it gives the waiter an ID that no
-- query holds, and leaves what every other ID `j` stands for as it was.
pub register_lem :
    (draw : ℕ → ℕ) (c : Conn) (w : Waiter) (n j : ℕ)
    → n < max_id_attempts
    → c.closed ≡ false
    → find (draw n) c.inflight ≡ none
    → (id : ℕ) × ((register draw c w).1 ≡ some id)
      × (find id c.inflight ≡ none)
      × (find j (register draw c w).0.inflight ≡ (if j == id then some w else find j c.inflight))
unfolding register
register_lem draw c w n j b open_socket free =
    let e : register draw c w ≡ register_in draw max_id_attempts 0 c w =
      ground (arith, open_socket) in
    let (id, f) = register_in-free draw max_id_attempts 0 n c w (omega arith) (omega arith) free in
    rw e (elim (register_in-IsRegistration draw max_id_attempts 0 c w j) [
      | inl (nothing, _) ↦ absurd (cc)
      | inr given ↦ given
    ])
