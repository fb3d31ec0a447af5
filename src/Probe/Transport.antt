-- ===== src/Probe/Transport.antt =====
-- internal/probe/probe.go: what a request of the HTTP client can come back with, and
-- `classifyTransportErr`, which turns an error into the rung of the ladder that broke.
use www_scanner.Prelude.{ℕ, Bool, true, ◌&&◌, ◌||◌, Option, none, some, if◌then◌else◌, Text}
use www_scanner.Record.{Side}
use www_scanner.Record.Tcp
use www_scanner.Record.Tls

-- What the code asks of an error: whether `errors.As` finds each type in its chain, whether
-- `errors.Is` finds each value, and what its message contains.
pub record NetError : Type 0 where
  pub hostname_error : Bool  -- x509.HostnameError
  pub unknown_authority : Bool  -- x509.UnknownAuthorityError
  pub certificate_invalid : Option Bool  -- x509.CertificateInvalidError; whether it is Expired
  pub record_header_error : Bool  -- *tls.RecordHeaderError
  pub alert_error : Bool  -- tls.AlertError
  pub conn_refused : Bool  -- syscall.ECONNREFUSED
  pub host_unreachable : Bool  -- syscall.EHOSTUNREACH
  pub net_unreachable : Bool  -- syscall.ENETUNREACH
  pub net_timeout : Bool  -- net.Error with Timeout()
  pub deadline_exceeded : Bool  -- context.DeadlineExceeded
  pub conn_reset : Bool  -- syscall.ECONNRESET
  pub end_of_file : Bool  -- io.EOF
  pub unexpected_eof : Bool  -- io.ErrUnexpectedEOF
  pub says_handshake_timeout : Bool  -- the message contains "TLS handshake timeout"
  pub says_tls : Bool  -- the message contains "tls:"

-- `client.Do`: an error, or a status code and the `Location` header, empty if there is none
pub data Reply : Type 0 where
  failed : NetError → Reply
  answered : ℕ → Text → Reply

-- `isTimeout`
unfoldable pub is_timeout : NetError → Bool
is_timeout err = if err.net_timeout then true else err.deadline_exceeded

abbrev set_tls : Side → ℕ → Side
set_tls side t = record side { tcp = Tcp.ok; tls = t }

abbrev set_tcp : Side → ℕ → Side
set_tcp side t = record side { tcp = t }

-- the `switch` at the end of `classifyTransportErr`
classify_below_tls : Side → NetError → Bool → Side
unfolding is_timeout
classify_below_tls side err was_tls =
    if err.conn_refused
    then set_tcp side Tcp.refused
    else if err.host_unreachable || err.net_unreachable
    then set_tcp side Tcp.unreachable
    else if is_timeout err
    then (if was_tls && err.says_handshake_timeout
        then set_tls side Tls.timeout
        else set_tcp side Tcp.timeout)
    else if err.conn_reset || err.end_of_file || err.unexpected_eof
    then (if was_tls then set_tls side Tls.handshake_fail else set_tcp side Tcp.ok)
    else if was_tls && err.says_tls
    then set_tls side Tls.error
    else set_tcp side Tcp.error

-- `classifyTransportErr`
unfoldable pub classify_transport_err : Side → NetError → Bool → Side
unfolding classify_below_tls
classify_transport_err side err was_tls =
    if err.hostname_error
    then set_tls side Tls.name_mismatch
    else if err.unknown_authority
    then set_tls side Tls.unknown_authority
    else elim err.certificate_invalid [
      | some expired ↦ set_tls side (if expired then Tls.expired else Tls.handshake_fail)
      | none ↦
          if err.record_header_error || err.alert_error
          then set_tls side Tls.handshake_fail
          else classify_below_tls side err was_tls
    ]
