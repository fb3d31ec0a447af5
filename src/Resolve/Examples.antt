-- ===== src/Resolve/Examples.antt =====
-- Tests of internal/resolve, and its theorems at concrete messages.
use www_scanner.Prelude.{
  Bool, ◌++◌, pos, ℕ, ◌≤◌, ◌%◌, ◌≡◌, ◌≢◌, ◌↔◌, ◌⊎◌, refl, true, false, List, [], ◌∷◌, none, some,
  if◌then◌else◌, ◌==◌, Text, text, arith,
}
use www_scanner.Prelude.Results.{ok}
use www_scanner.Record.Resolve
use www_scanner.Prelude.Strings.{contains_any}
use www_scanner.Prelude.Integers.{positive_part}
use www_scanner.Resolve.Setup.{
  Config, Built, servers_of, new, servers_to_ask, new_pool, with_default_port,
}
use www_scanner.Resolve.Ready.{resolver_of, query-new}
use www_scanner.Resolve.Messages.{a_record, cname_record, Msg, QueryError, rcode_success}
use www_scanner.Resolve.Answers.{Answer, IsBacked, with_status}
use www_scanner.Resolve.Merge.{merge_status}
use www_scanner.Resolve.Pool.{pick_other}
use www_scanner.Resolve.Rotation.{pick_other_lem}
use www_scanner.Resolve.Client.{Resolver, Upstream, received, errored, query}
use www_scanner.Resolve.Lookup.{lookup, lookup_addrs}
use www_scanner.Resolve.Retry.{IsWitnessed, query_lem, lookup_lem}
use www_scanner.Resolve.Sockets.{Waiter, Conn, deliver}

-- two failures that do not commute
order_matters : (merge_status 4 7 ≡ 4) × (merge_status 7 4 ≡ 7)
unfolding merge_status
order_matters = (refl, refl)

abbrev ip : List ℕ
ip = 1 ∷ 2 ∷ 3 ∷ 4 ∷ []

abbrev one_address : Msg
one_address = record {
  id = 7;
  rcode = rcode_success;
  truncated = false;
  questions = record { q_name = text "A.com."; q_type = 1 } ∷ [];
  answers = cname_record (text "b.com.") ∷ a_record ip ∷ [];
  authority = [];
}

-- two sockets to one server and one to another
abbrev sockets : List Text
sockets = text "9.9.9.9:53" ∷ text "9.9.9.9:53" ∷ text "1.1.1.1:53" ∷ []

pick_other_example :
    (s : Text) × (n : ℕ) × (pick_other (λ n. 0) sockets (text "9.9.9.9:53") 0 ≡ some (s, n))
    × (s ≢ text "9.9.9.9:53")
unfolding text
pick_other_example =
    pick_other_lem (λ n. 0) sockets (omega arith) 0 2 (text "9.9.9.9:53") (text "1.1.1.1:53")
      (λ n. refl) (omega arith) refl (λ e. cc)

abbrev resolver : Resolver
resolver = record { servers = []; pool = some sockets; attempts = 2 }

abbrev timed_out_error : QueryError
timed_out_error = record { timed_out = true; deadline_exceeded = false; canceled = false }

-- the first attempt times out
abbrev slow_once : Upstream
slow_once = record {
  cancelled = λ k. false;
  udp = λ k server. if k == 0 then errored timed_out_error else received one_address;
  tcp = λ k server. errored timed_out_error;
  others = λ n. n % 3;
}

at_most_two : (n : ℕ) → slow_once.others n ≤ 2
at_most_two n = omega arith

query_example :
    (ans : Answer) × (n : ℕ) × (query resolver slow_once 0 ≡ some (ans, n))
    × IsWitnessed resolver slow_once ans
    × IsBacked ans
query_example =
    query_lem resolver slow_once (omega arith) 2 at_most_two 0 (omega arith) (omega arith)

abbrev found_answer : Answer
found_answer = record { status = 1; rr_types = 1; addrs = ip ∷ [] }

lookup_example :
    let both = lookup (with_status Resolve.timeout) found_answer in
    IsBacked both
    × ((lookup_addrs both ≡ ok (ip ∷ []))
        ↔ ((Resolve.timeout ≡ Resolve.ok) ⊎ (found_answer.status ≡ Resolve.ok)))
lookup_example =
    lookup_lem (with_status Resolve.timeout) found_answer
      (λ e. absurd (omega arith), λ ne. absurd (ne refl)) (λ e e'. cc, λ ne. refl)

abbrev waiter : Waiter
waiter = record { ch = 3; qname = text "a.com."; qtype = 1 }

abbrev busy_conn : Conn
busy_conn = record { inflight = (7, waiter) ∷ []; closed = false }

delivered : deliver busy_conn one_address ≡ (record { inflight = []; closed = false }, some 3)
unfolding deliver text
delivered = refl

abbrev two_servers : Config
two_servers = record {
  servers = text "1.1.1.1" ∷ text "8.8.8.8:53" ∷ [];
  attempts = pos 0;
  sockets_per_server = pos 2;
}

-- a port is found behind a colon
abbrev has_port : Text → Bool
has_port s = contains_any s (text ":")

abbrev join_port : Text → Text → Text
join_port host port = host ++ text ":" ++ port

abbrev built : Built
built = record {
  cfg = record {
    servers = text "1.1.1.1:53" ∷ text "8.8.8.8:53" ∷ [];
    attempts = pos 2;
    sockets_per_server = pos 2;
  };
  pool = some (text "1.1.1.1:53" ∷ text "1.1.1.1:53" ∷ text "8.8.8.8:53" ∷ text "8.8.8.8:53" ∷ []);
}

dialing_succeeds : new has_port join_port none (λ s k. true) two_servers ≡ ok built
unfolding new servers_to_ask new_pool with_default_port positive_part text contains_any
dialing_succeeds = refl

resolv_conf_read :
    servers_of (
      text "# local" ∷ text " nameserver\t127.0.0.53 " ∷ text "nameserver" ∷ text "search lan" ∷ [])
    ≡ text "127.0.0.53" ∷ []
unfolding servers_of text
resolv_conf_read = refl

-- the queries of that resolver, of which the first attempt times out
query-new_example :
    (ans : Answer) × (n : ℕ) × (query (resolver_of built) slow_once 5 ≡ some (ans, n))
    × IsWitnessed (resolver_of built) slow_once ans
    × IsBacked ans
unfolding positive_part
query-new_example =
    query-new has_port join_port none (λ s k. true) two_servers built slow_once 2 5 dialing_succeeds
      at_most_two (omega arith)
