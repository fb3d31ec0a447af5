-- ===== src/Resolve/Messages.antt =====
-- What internal/resolve reads of `dns.Msg`, and the errors of an exchange.
use www_scanner.Prelude.{ℕ, Bool, List, Text}

-- a resource record: the types that the code switches on, and the rest
pub data Rr : Type 0 where
  a_record : List ℕ → Rr
  aaaa_record : List ℕ → Rr
  cname_record : Text → Rr
  ns_record : Text → Rr
  other_record : ℕ → Rr

pub record Question : Type 0 where
  pub q_name : Text
  pub q_type : ℕ

pub record Msg : Type 0 where
  pub id : ℕ
  pub rcode : ℕ
  pub truncated : Bool
  pub questions : List Question
  pub answers : List Rr
  pub authority : List Rr

-- What the code asks of an error: whether it is a `net.Error` that timed out, and whether its chain has
-- `context.DeadlineExceeded` or `context.Canceled`.
pub record QueryError : Type 0 where
  pub timed_out : Bool
  pub deadline_exceeded : Bool
  pub canceled : Bool

-- `dns.RcodeSuccess`, `dns.RcodeServerFailure`, `dns.RcodeNameError`, `dns.RcodeRefused`
abbrev pub rcode_success : ℕ
rcode_success = 0

abbrev pub rcode_server_failure : ℕ
rcode_server_failure = 2

abbrev pub rcode_name_error : ℕ
rcode_name_error = 3

abbrev pub rcode_refused : ℕ
rcode_refused = 5

-- `dns.TypeA`, `dns.TypeNS`, `dns.TypeAAAA`
abbrev pub type_a : ℕ
type_a = 1

abbrev pub type_ns : ℕ
type_ns = 2

abbrev pub type_aaaa : ℕ
type_aaaa = 28
