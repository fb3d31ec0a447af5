-- ===== src/Record/Verdict.antt =====
-- internal/record/record.go: what a record says of its domain. Each `switch` is the ladder of tests
-- in the order of its cases.
use www_scanner.Prelude.{Bool, false, not, ◌&&◌, ◌||◌, ltb, leb, ◌==◌, if◌then◌else◌, Text, text}
use www_scanner.Record.Status
use www_scanner.Record.Resolve
use www_scanner.Record.Tcp
use www_scanner.Record.Tls
use www_scanner.Record.Delegation
use www_scanner.Record.Defs.{Side, Record}

-- `Serves`
unfoldable pub serves : Side → Bool
serves s = not (s.http == 0)

-- `WWWSupported`
unfoldable pub www_supported : Record → Bool
www_supported r =
    if not (r.status == Status.complete)
    then false
    else if not (r.www.resolve == Resolve.ok)
    then false
    else if not (r.www.tls == Tls.ok)
    then false
    else leb 200 r.www.http && ltb r.www.http 400

-- the method `conclusive` of a side
unfoldable pub conclusive_side : Side → Bool
conclusive_side s =
    if s.resolve == Resolve.timeout
      || s.resolve == Resolve.error
      || s.resolve == Resolve.servfail
      || s.resolve == Resolve.refused
    then false
    else if s.tcp == Tcp.timeout || s.tcp == Tcp.error
    then false
    else not (s.tls == Tls.timeout)

-- `Conclusive`
unfoldable pub conclusive : Record → Bool
conclusive r =
    if not (r.status == Status.complete)
    then false
    else conclusive_side r.apex && conclusive_side r.www

-- The first loop of `Stall`: the label of a DNS stall of one side, or the rest of the function.
dns_stall : Side → Text → Text
dns_stall s rest =
    if s.resolve == Resolve.timeout || s.resolve == Resolve.error
    then text "dns-timeout"
    else if s.resolve == Resolve.servfail
    then text "servfail"
    else if s.resolve == Resolve.refused
    then text "refused"
    else rest

-- `Stall`: the rung that a probe died on, or "" if it produced a finding. Each loop over the two
-- sides is its two rounds.
unfoldable pub stall : Record → Text
unfolding dns_stall
stall r =
    if not (r.status == Status.complete)
    then text "incomplete"
    else dns_stall r.apex (
        dns_stall r.www (
          if r.apex.tcp == Tcp.timeout
          then text "tcp-timeout"
          else if r.www.tcp == Tcp.timeout
          then text "tcp-timeout"
          else if r.apex.tcp == Tcp.error
          then text "tcp-error"
          else if r.www.tcp == Tcp.error
          then text "tcp-error"
          else if r.apex.tls == Tls.timeout
          then text "tls-timeout"
          else if r.www.tls == Tls.timeout
          then text "tls-timeout"
          else text ""))

-- `RegistrationState`
unfoldable pub registration_state : Record → Text
registration_state r =
    if r.delegation == Delegation.missing
    then text "not delegated"
    else if r.delegation == Delegation.broken
    then text "delegated, nameservers broken"
    else if r.delegation == Delegation.no_data
    then text "delegated, no NS records"
    else if r.delegation == Delegation.unchecked
    then (if r.apex.resolve == Resolve.nxdomain
        then text "not delegated"
        else if r.apex.resolve == Resolve.no_data
        then text "delegated, pointed nowhere"
        else if r.apex.resolve == Resolve.ok
        then text "points somewhere"
        else text "unknown")
    else if r.apex.resolve == Resolve.ok
    then text "points somewhere"
    else if r.apex.resolve == Resolve.no_data
    then text "delegated, pointed nowhere"
    else if r.apex.resolve == Resolve.nxdomain
    then text "delegated, apex missing"
    else text "delegated, lookup failed"
