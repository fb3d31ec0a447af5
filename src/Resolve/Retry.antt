-- ===== src/Resolve/Retry.antt =====
-- internal/resolve/resolve.go: what `query` and `Lookup` return, over all attempts.
use www_scanner.Prelude.{
  ℕ, ap, ◌∙◌, if◌then◌else◌, zero, suc, ◌+◌, ◌*◌, ◌≤◌, ◌<◌, ◌≡◌, ◌↔◌, refl, ◌⊎◌, inl, inr, List, [],
  ◌∷◌, ◌++◌, none, some, false, not, ◌&&◌, ◌==◌, length, Text, eq_text, Bool-cases, Option-cases,
  arith,
}
use www_scanner.Prelude.Results.{ok}
use www_scanner.Record.Resolve
use www_scanner.Resolve.Messages.{Msg, QueryError}
use www_scanner.Resolve.Answers.{Answer, IsBacked, with_status, from_msg, from_msg_lem}
use www_scanner.Resolve.Merge.{merge_status_lem}
use www_scanner.Resolve.Pool.{int_bound, pick, pick_other}
use www_scanner.Resolve.Rotation.{pick_lem, pick_other-some}
use www_scanner.Resolve.Client.{
  Resolver, Upstream, Outcome, received, errored, classify_net_err, choose, answer_of, query_in,
  query,
}
use www_scanner.Resolve.Lookup.{lookup, lookup_addrs}

-- the sockets, or the servers without a pool
abbrev pub rotation : Resolver → List Text
rotation r = elim r.pool [ none ↦ r.servers | some conns ↦ conns ]

pub Outcome-cases :
    (o : Outcome) → ((m : Msg) × (o ≡ received m)) ⊎ ((e : QueryError) × (o ≡ errored e))
Outcome-cases (received m) = inl (m, refl)
Outcome-cases (errored e) = inr (e, refl)

pub classify_net_err-cases :
    (e : QueryError) → (classify_net_err e ≡ Resolve.timeout) ⊎ (classify_net_err e ≡ Resolve.error)
unfolding classify_net_err
classify_net_err-cases e = ground arith

-- every error of the network is worth another attempt
is_transient :
    (e : QueryError)
    → (not (classify_net_err e == Resolve.timeout) && not (classify_net_err e == Resolve.error))
      ≡ false
unfolding classify_net_err
is_transient e = ground arith

-- how far the counter gets by one attempt, if at most so many draws of others come before each of its own
abbrev pub span : Resolver → ℕ → ℕ
span r busy = (length (rotation r) + 2) * (busy + 1)

choose-pooled :
    (others : ℕ → ℕ) (r : Resolver) (last : Text) (next : ℕ) {conns : List Text} {s : Text} {n : ℕ}
    → r.pool ≡ some conns
    → pick others conns next ≡ some (s, n)
    → choose others r last next
      ≡ (if eq_text last [] then some (s, n) else pick_other others conns last n)
unfolding choose
choose-pooled others r last next pooled picked = rw (pooled, picked, choose) refl

choose-legacy :
    (others : ℕ → ℕ) (r : Resolver) (last : Text) (next : ℕ)
    → r.pool ≡ none
    → choose others r last next ≡ pick others r.servers next
unfolding choose
choose-legacy others r last next legacy = rw (legacy, choose) refl

choose-some :
    (others : ℕ → ℕ) (busy : ℕ) (r : Resolver) (last : Text) (next : ℕ)
    → ((n : ℕ) → others n ≤ busy)
    → 0 < length (rotation r)
    → next + span r busy < int_bound
    → (s : Text) × (n : ℕ) × (n ≤ next + span r busy) × (choose others r last next ≡ some (s, n))
choose-some others busy r last next few h b = elim (Option-cases r.pool) [
  | inl e ↦
      let len : length (rotation r) ≡ length r.servers = rw e refl in
      let (s, _, p) =
        pick_lem others r.servers next (omega (arith, len, h)) (omega (arith, few next, b)) in
      (s, next + others next + 1, omega (arith, few next), choose-legacy others r last next e ∙ p)
  | inr (conns, e) ↦
      let len : length (rotation r) ≡ length conns = rw e refl in
      let far : span r busy ≡ (length conns + 2) * (busy + 1) =
        ap (λ l. (l + 2) * (busy + 1)) len in
      let n₁ = next + others next + 1 in
      let some_conn : 0 < length conns = omega (arith, len, h) in
      let (s, _, p) = pick_lem others conns next some_conn (omega (arith, few next, b, far)) in
      let chosen = choose-pooled others r last next e p in
      let (t, n, le, q) =
        pick_other-some others conns some_conn busy n₁ last few (omega (arith, few next, b, far)) in
      elim (Bool-cases (eq_text last [])) [
        | inl first ↦ (s, n₁, omega (arith, few next, far), chosen ∙ rw first refl)
        | inr again ↦ (t, n, omega (arith, few next, le, far), chosen ∙ rw again q)
      ]
]

module _ (r : Resolver) (up : Upstream) where
  -- An answer is a response read by `from_msg`, or a timeout or an error without an address.
  abbrev pub IsWitnessed : Answer → Type 0
  IsWitnessed ans =
      ((k : ℕ) × (server : Text) × (m : Msg) × (answer_of up k server ≡ received m)
        × (ans ≡ from_msg m))
      ⊎ (((ans.status ≡ Resolve.timeout) ⊎ (ans.status ≡ Resolve.error)) × (ans.addrs ≡ []))

  IsWitnessed-IsBacked : (ans : Answer) → IsWitnessed ans → IsBacked ans
  IsWitnessed-IsBacked ans (inl (k, server, m, e, f)) = rw f (from_msg_lem m).0
  IsWitnessed-IsBacked ans (inr (s, e)) = ground arith

  module _ (nonempty : 0 < length (rotation r)) (busy : ℕ)
      (few : (n : ℕ) → up.others n ≤ busy) where
    query_in-IsWitnessed :
        (rounds k : ℕ) (last : Answer) (last_server : Text) (next : ℕ)
        → next + rounds * span r busy < int_bound
        → (0 < rounds) ⊎ IsWitnessed last
        → (ans : Answer) × (n : ℕ) × (query_in r up rounds k last last_server next ≡ some (ans, n))
          × IsWitnessed ans
    unfolding query_in
    query_in-IsWitnessed zero k last last_server next b (inl h) = absurd (omega arith)
    query_in-IsWitnessed zero k last last_server next b (inr w) = (last, next, refl, w)
    query_in-IsWitnessed (suc rounds) k last last_server next b w =
        elim (Bool-cases (up.cancelled k)) [
          | inl c ↦ (with_status Resolve.timeout, next, rw (c, query_in) refl, inr (inl refl, refl))
          | inr c ↦
              let (s, n, n_le, chosen) =
                choose-some up.others busy r last_server next few nonempty (omega arith) in
              elim (Outcome-cases (answer_of up k s)) [
                | inl (m, e) ↦
                    (from_msg m, n, rw (c, chosen, e, query_in) refl, inl (k, s, m, e, refl))
                | inr (x, e) ↦
                    let now = with_status (classify_net_err x) in
                    let (ans, n', f, g) =
                      query_in-IsWitnessed rounds (k + 1) now s n (omega arith)
                        (inr (inr (classify_net_err-cases x, refl))) in
                    (ans, n', rw (c, chosen, e, is_transient x, query_in) f, g)
              ]
        ]

    -- `query` returns an answer without a panic, if there is a server, at least one attempt, the counter is far from the
    -- largest int, and the draws of other calls between two of its own are bounded. The answer is ok exactly if it has an address, and it is either what some attempt's response
    -- says or a timeout or an error without an address.
    pub query_lem :
        (next : ℕ)
        → 0 < r.attempts
        → next + r.attempts * span r busy < int_bound
        → (ans : Answer) × (n : ℕ) × (query r up next ≡ some (ans, n))
          × IsWitnessed ans
          × IsBacked ans
    unfolding query
    query_lem next some_attempt room =
        let (ans, n, e, w) =
          query_in-IsWitnessed r.attempts 0 (with_status Resolve.unattempted) [] next room
            (inl some_attempt) in
        (ans, n, e, w, IsWitnessed-IsBacked ans w)

append-empty : (xs ys : List (List ℕ)) → (xs ++ ys ≡ []) ↔ ((xs ≡ []) × (ys ≡ []))
append-empty [] ys = (λ e. (refl, e), λ e. e.1)
append-empty (x ∷ xs) ys = (λ e. absurd (cc), λ e. absurd (cc))

length-empty : (xs : List (List ℕ)) → (length xs ≡ 0) ↔ (xs ≡ [])
length-empty [] = (λ e. refl, λ e. refl)
length-empty (x ∷ xs) = (λ e. absurd (omega arith), λ e. absurd (cc))

-- If both answers are ok exactly when they have an address, so is their merge, whichever came back first, and
-- `LookupAddrs` gives all the addresses exactly if one of the two is ok.
pub lookup_lem :
    (a b : Answer)
    → IsBacked a
    → IsBacked b
    → IsBacked (lookup a b)
      × ((lookup_addrs (lookup a b) ≡ ok (a.addrs ++ b.addrs))
          ↔ ((a.status ≡ Resolve.ok) ⊎ (b.status ≡ Resolve.ok)))
unfolding lookup lookup_addrs
lookup_lem a b ha hb =
    let m = merge_status_lem a.status b.status in
    let none_left = append-empty a.addrs b.addrs in
    let no_length = length-empty (a.addrs ++ b.addrs) in
    (ground (arith, m.1, none_left), ground (arith, m.1, none_left, no_length))
