-- ===== src/Resolve/Answers.antt =====
-- internal/resolve/resolve.go: `Answer`, the outcome of asking for one name, and `fromMsg`, which
-- reads it off a response.
use Prim.Native.Nat.{bit_or}
use www_scanner.Prelude.{
  ℕ, ◌≡◌, ◌≢◌, ◌↔◌, refl, sym, ◌∙◌, List, [], ◌∷◌, ◌++◌, if◌then◌else◌, ◌==◌, Bool, arith,
}
use mathlib.Core.List.{append-nil, append_assoc}
use www_scanner.Record.Resolve
use www_scanner.Record.RrTypes
use www_scanner.Resolve.Messages.{
  Rr, a_record, aaaa_record, cname_record, ns_record, other_record, Msg, rcode_success,
  rcode_server_failure, rcode_name_error, rcode_refused,
}

pub record Answer : Type 0 where
  pub status : ℕ  -- record.Resolve
  pub rr_types : ℕ  -- record.RRTypes
  pub addrs : List (List ℕ)  -- net.IP, a byte slice each

-- `Answer{Status: s}`
abbrev pub with_status : ℕ → Answer
with_status s = record { status = s; rr_types = 0; addrs = [] }

-- the `switch` over the type of a record
unfoldable pub note_rr : Answer → Rr → Answer
note_rr ans (a_record ip) = record ans {
  rr_types = bit_or ans.rr_types RrTypes.a;
  addrs = ans.addrs ++ (ip ∷ []);
}
note_rr ans (aaaa_record ip) = record ans {
  rr_types = bit_or ans.rr_types RrTypes.aaaa;
  addrs = ans.addrs ++ (ip ∷ []);
}
note_rr ans (cname_record target) = record ans { rr_types = bit_or ans.rr_types RrTypes.cname }
note_rr ans (ns_record target) = ans
note_rr ans (other_record rtype) = ans

-- the loop over the answer section
unfoldable pub note_rrs : Answer → List Rr → Answer
unfolding note_rr
note_rrs ans [] = ans
note_rrs ans (rr ∷ rrs) = note_rrs (note_rr ans rr) rrs

is_empty : List (List ℕ) → Bool
is_empty [] = Bool.true
is_empty (x ∷ xs) = Bool.false

-- `fromMsg`, which does not use its query type
unfoldable pub from_msg : Msg → Answer
unfolding note_rrs is_empty
from_msg resp =
    if resp.rcode == rcode_name_error
    then with_status Resolve.nxdomain
    else if resp.rcode == rcode_server_failure
    then with_status Resolve.servfail
    else if resp.rcode == rcode_refused
    then with_status Resolve.refused
    else if resp.rcode == rcode_success
    then (let ans = note_rrs (with_status Resolve.unattempted) resp.answers in
        record ans { status = if is_empty ans.addrs then Resolve.no_data else Resolve.ok })
    else with_status Resolve.error

-- An answer is ok exactly if it has an address.
abbrev pub IsBacked : Answer → Type 0
IsBacked ans = (ans.status ≡ Resolve.ok) ↔ (ans.addrs ≢ [])

is_empty_iff : (xs : List (List ℕ)) → (is_empty xs ≡ Bool.true) ↔ (xs ≡ [])
unfolding is_empty
is_empty_iff [] = (λ e. refl, λ e. refl)
is_empty_iff (x ∷ xs) = (λ e. cc, λ e. cc)

-- the addresses of the answer section, in its order
abbrev pub addresses : List Rr → List (List ℕ)
addresses [] = []
addresses (a_record ip ∷ rrs) = ip ∷ addresses rrs
addresses (aaaa_record ip ∷ rrs) = ip ∷ addresses rrs
addresses (cname_record t ∷ rrs) = addresses rrs
addresses (ns_record t ∷ rrs) = addresses rrs
addresses (other_record t ∷ rrs) = addresses rrs

note_rrs-addrs :
    (rrs : List Rr) (ans : Answer) → (note_rrs ans rrs).addrs ≡ ans.addrs ++ addresses rrs
unfolding note_rrs note_rr
note_rrs-addrs [] ans = sym (append-nil ans.addrs)
note_rrs-addrs (a_record ip ∷ rrs) ans =
    note_rrs-addrs rrs _ ∙ append_assoc ans.addrs (ip ∷ []) (addresses rrs)
note_rrs-addrs (aaaa_record ip ∷ rrs) ans =
    note_rrs-addrs rrs _ ∙ append_assoc ans.addrs (ip ∷ []) (addresses rrs)
note_rrs-addrs (cname_record t ∷ rrs) ans = note_rrs-addrs rrs _
note_rrs-addrs (ns_record t ∷ rrs) ans = note_rrs-addrs rrs ans
note_rrs-addrs (other_record t ∷ rrs) ans = note_rrs-addrs rrs ans

-- A response becomes ok exactly if the answer has an address; the addresses are those of the answer section, in its
-- order, for NOERROR, and none for every other code; no-data is NOERROR without an address; and NXDOMAIN is the code
-- of that name.
pub from_msg_lem :
    (m : Msg)
    → let ans = from_msg m in
      IsBacked ans
      × (ans.addrs ≡ (if m.rcode == rcode_success then addresses m.answers else []))
      × ((ans.status ≡ Resolve.no_data) ↔ ((m.rcode ≡ rcode_success) × (addresses m.answers ≡ [])))
      × ((ans.status ≡ Resolve.nxdomain) ↔ (m.rcode ≡ rcode_name_error))
unfolding from_msg
from_msg_lem m =
    let noted : List (List ℕ) = (note_rrs (with_status Resolve.unattempted) m.answers).addrs in
    let same : noted ≡ addresses m.answers =
      note_rrs-addrs m.answers (with_status Resolve.unattempted) in
    ground (arith, is_empty_iff noted, same)
