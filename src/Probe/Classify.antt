-- ===== src/Probe/Classify.antt =====
-- internal/probe/probe.go: the pure classifications. The two `switch` statements of `classifyCanonical`
-- are ladders of tests in the order of their cases.
use www_scanner.Prelude.{
  ℕ, Bool, not, ◌&&◌, ◌||◌, ◌++◌, ltb, leb, ◌==◌, if◌then◌else◌, Text, text, eq_text,
}
use www_scanner.Prelude.Strings.{has_suffix}
use www_scanner.Record.{Side}
use www_scanner.Record.Tls
use www_scanner.Record.Terminal
use www_scanner.Record.Canonical

-- `"www." + domain`
unfoldable pub www_of : Text → Text
unfolding text
www_of domain = text "www." ++ domain

-- `classifyTerminal`
unfoldable pub classify_terminal : Text → Text → Text → ℕ
unfolding text
classify_terminal terminal origin apex =
    if eq_text terminal (text "")
    then Terminal.nowhere
    else if eq_text terminal origin
    then Terminal.self
    else if eq_text terminal apex
    then Terminal.apex
    else if eq_text terminal (www_of apex)
    then Terminal.www
    else if has_suffix terminal (text "." ++ apex)
    then Terminal.same_site
    else Terminal.external

-- `servesOK`
unfoldable pub serves_ok : Side → Bool
serves_ok s = leb 200 s.http && ltb s.http 400

-- the second `switch` of `classifyCanonical`, for two names that both answer
unfoldable pub classify_direction : Side → Side → Text → Text → Text → ℕ
classify_direction apex www apex_term www_term domain =
    let www_moved = ltb 0 www.hops || not (eq_text www_term (www_of domain)) in
    let apex_moved = ltb 0 apex.hops || not (eq_text apex_term domain) in
    if www_moved && eq_text www_term domain && not apex_moved
    then Canonical.www_to_apex
    else if apex_moved && eq_text apex_term (www_of domain) && not www_moved
    then Canonical.apex_to_www
    else if www_moved && eq_text www_term domain && apex_moved && eq_text apex_term (www_of domain)
    then Canonical.both_serve
    else if eq_text www_term apex_term && www_moved
    then Canonical.www_to_apex
    else Canonical.both_serve

-- `classifyCanonical`
unfoldable pub classify_canonical : Side → Side → Text → Text → Text → ℕ
unfolding serves_ok classify_direction
classify_canonical apex www apex_term www_term domain =
    let apex_ok = serves_ok apex in
    let www_ok = serves_ok www in
    if not apex_ok && not www_ok
    then Canonical.both_fail
    else if apex_ok && not www_ok
    then Canonical.apex_only
    else if not apex_ok && www_ok
    then Canonical.www_only
    else classify_direction apex www apex_term www_term domain

-- `isRedirect`
unfoldable pub is_redirect : ℕ → Bool
is_redirect code = code == 301 || code == 302 || code == 303 || code == 307 || code == 308

-- `isTLSFailure`
unfoldable pub is_tls_failure : ℕ → Bool
is_tls_failure t = not (t == Tls.unattempted) && not (t == Tls.ok)

-- `saturateMS`, of a duration in milliseconds; the time since the start is never negative
unfoldable pub saturate_ms : ℕ → ℕ
saturate_ms ms = if ltb 65535 ms then 65535 else ms
