-- ===== src/Resolve/Lookup.antt =====
-- internal/resolve/resolve.go: `Lookup`, `LookupAddrs`, `Delegation` and `Exists`, on what the queries
-- returned.
use Prim.Native.Nat.{bit_or}
use www_scanner.Prelude.{
  ℕ, List, [], ◌∷◌, ◌++◌, Bool, true, false, ◌||◌, not, if◌then◌else◌, ◌==◌, length,
}
use www_scanner.Prelude.Results.{Result, ok, err}
use www_scanner.Record.Resolve
use www_scanner.Record.Delegation
use www_scanner.Resolve.Messages.{
  Rr, ns_record, a_record, aaaa_record, cname_record, other_record, Msg, rcode_name_error,
  rcode_server_failure, rcode_refused, rcode_success,
}
use www_scanner.Resolve.Answers.{Answer}
use www_scanner.Resolve.Merge.{merge_status}
use www_scanner.Resolve.Client.{Outcome, received, errored}

-- `Lookup`, on the two answers in the order in which they came back
unfoldable pub lookup : Answer → Answer → Answer
lookup first second = record {
  status = merge_status first.status second.status;
  rr_types = bit_or first.rr_types second.rr_types;
  addrs = first.addrs ++ second.addrs;
}

-- the fields of `net.DNSError` that depend on the answer
pub record DnsError : Type 0 where
  pub is_not_found : Bool
  pub is_timeout : Bool

-- `LookupAddrs`
unfoldable pub lookup_addrs : Answer → Result DnsError (List (List ℕ))
lookup_addrs ans =
    if not (ans.status == Resolve.ok) || length ans.addrs == 0
    then err (record {
      is_not_found = ans.status == Resolve.nxdomain || ans.status == Resolve.no_data;
      is_timeout = ans.status == Resolve.timeout;
    })
    else ok ans.addrs

-- a loop of `Delegation`: whether a section has an NS record
unfoldable pub has_ns : List Rr → Bool
has_ns [] = false
has_ns (ns_record t ∷ rrs) = true
has_ns (a_record t ∷ rrs) = has_ns rrs
has_ns (aaaa_record t ∷ rrs) = has_ns rrs
has_ns (cname_record t ∷ rrs) = has_ns rrs
has_ns (other_record t ∷ rrs) = has_ns rrs

-- the `switch` of `Delegation`
unfoldable pub delegation_of : Msg → ℕ
delegation_of resp =
    if resp.rcode == rcode_name_error
    then Delegation.missing
    else if resp.rcode == rcode_server_failure || resp.rcode == rcode_refused
    then Delegation.broken
    else if resp.rcode == rcode_success
    then (if has_ns resp.answers
        then Delegation.ok
        else if has_ns resp.authority
        then Delegation.ok
        else Delegation.no_data)
    else Delegation.broken

-- `Delegation`, on what its exchange returned
unfoldable pub delegation : Outcome → ℕ
unfolding delegation_of
delegation (received resp) = delegation_of resp
delegation (errored e) = Delegation.broken

-- `Exists`, on what its query returned: the name has an address, and whether that is known
unfoldable pub exists : Answer → Bool × Bool
exists ans =
    if ans.status == Resolve.ok
    then (true, true)
    else if ans.status == Resolve.nxdomain || ans.status == Resolve.no_data
    then (false, true)
    else (false, false)
