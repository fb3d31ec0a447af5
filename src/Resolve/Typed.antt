-- ===== src/Resolve/Typed.antt =====
-- internal/resolve/resolve.go: what `query`, `Lookup` and `Delegation` return are values of the types of the record.
use Prim.Native.Nat.{bit_or}
use www_scanner.Prelude.{
  Bool, ℕ, zero, suc, ◌+◌, ◌<◌, ◌≡◌, refl, inl, inr, List, [], ◌∷◌, some, Bool-cases, Option-cases,
  ltb, ltb→lt, true, Text, arith,
}
use www_scanner.Prelude.Below.{passes, passes-at}
use www_scanner.Record.Resolve
use www_scanner.Resolve.Messages.{
  Rr, a_record, aaaa_record, cname_record, ns_record, other_record, Msg,
}
use www_scanner.Resolve.Answers.{Answer, with_status, note_rr, note_rrs, from_msg}
use www_scanner.Resolve.Merge.{merge_status_lem}
use www_scanner.Resolve.Client.{
  Resolver, Upstream, Outcome, received, errored, classify_net_err, choose, answer_of, query_in,
  query,
}
use www_scanner.Resolve.Lookup.{lookup, delegation, delegation_of}
use www_scanner.Resolve.Retry.{Outcome-cases, classify_net_err-cases}

-- the bits of `RRTypes` and the values of `Resolve`
pub record IsTypedAnswer (ans : Answer) : Type 0 where
  pub status_typed : ans.status < 8
  pub rr_types_typed : ans.rr_types < 8

-- one value against all
abbrev fits_with : ℕ → ℕ → Bool
fits_with x y = ltb (bit_or x y) 8

bit_or_runs : passes (λ x. passes (fits_with x) 8) 8 ≡ true
unfolding passes
bit_or_runs = refl

bit_or-lt : (x y : ℕ) → x < 8 → y < 8 → bit_or x y < 8
bit_or-lt x y hx hy =
    ltb→lt (bit_or x y) 8
      (passes-at (fits_with x) 8 y hy (passes-at (λ x. passes (fits_with x) 8) 8 x hx bit_or_runs))

note_rrs-lt : (rrs : List Rr) (ans : Answer) → ans.rr_types < 8 → (note_rrs ans rrs).rr_types < 8
unfolding note_rrs note_rr
note_rrs-lt [] ans h = h
note_rrs-lt (a_record ip ∷ rrs) ans h = note_rrs-lt rrs _ (bit_or-lt _ _ h (omega arith))
note_rrs-lt (aaaa_record ip ∷ rrs) ans h = note_rrs-lt rrs _ (bit_or-lt _ _ h (omega arith))
note_rrs-lt (cname_record t ∷ rrs) ans h = note_rrs-lt rrs _ (bit_or-lt _ _ h (omega arith))
note_rrs-lt (ns_record t ∷ rrs) ans h = note_rrs-lt rrs ans h
note_rrs-lt (other_record t ∷ rrs) ans h = note_rrs-lt rrs ans h

from_msg-IsTypedAnswer : (m : Msg) → IsTypedAnswer (from_msg m)
unfolding from_msg
from_msg-IsTypedAnswer m =
    ground (arith, note_rrs-lt m.answers (with_status Resolve.unattempted) (omega arith))

module _ (r : Resolver) (up : Upstream) where
  query_in-IsTypedAnswer :
      (rounds k : ℕ) (last : Answer) (last_server : Text) (next : ℕ) (ans : Answer) (n : ℕ)
      → IsTypedAnswer last
      → query_in r up rounds k last last_server next ≡ some (ans, n)
      → IsTypedAnswer ans
  unfolding query_in
  query_in-IsTypedAnswer zero k last last_server next ans n typed h = ground (arith, typed)
  query_in-IsTypedAnswer (suc rounds) k last last_server next ans n typed h =
      elim (Bool-cases (up.cancelled k)) [
        | inl c ↦ ground (arith, c)
        | inr c ↦ elim (Option-cases (choose up.others r last_server next)) [
          | inl e ↦ absurd (ground (arith, c, e))
          | inr ((s, n'), chosen) ↦ elim (Outcome-cases (answer_of up k s)) [
            | inl (m, e) ↦ ground (arith, c, chosen, e, from_msg-IsTypedAnswer m)
            | inr (x, e) ↦ ground (
              arith,
              c,
              chosen,
              e,
              classify_net_err-cases x,
              query_in-IsTypedAnswer rounds (k + 1) (with_status (classify_net_err x)) s n' ans n,
            )
          ]
        ]
      ]

  pub query-IsTypedAnswer :
      (next n : ℕ) (ans : Answer) → query r up next ≡ some (ans, n) → IsTypedAnswer ans
  unfolding query
  query-IsTypedAnswer next n ans h =
      query_in-IsTypedAnswer r.attempts 0 (with_status Resolve.unattempted) [] next ans n
        (record { status_typed = omega arith; rr_types_typed = omega arith }) h

pub lookup-IsTypedAnswer :
    (a b : Answer) → IsTypedAnswer a → IsTypedAnswer b → IsTypedAnswer (lookup a b)
unfolding lookup
lookup-IsTypedAnswer a b ha hb = record {
  status_typed =
      ground (arith, (merge_status_lem a.status b.status).0, ha.status_typed, hb.status_typed);
  rr_types_typed = bit_or-lt a.rr_types b.rr_types ha.rr_types_typed hb.rr_types_typed;
}

pub delegation-lt : (o : Outcome) → delegation o < 5
unfolding delegation delegation_of
delegation-lt (received m) = ground arith
delegation-lt (errored e) = omega arith
