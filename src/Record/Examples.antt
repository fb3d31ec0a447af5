-- ===== src/Record/Examples.antt =====
-- Tests of the record, and its theorems at concrete records.
use www_scanner.Prelude.{
  ℕ, ◌≡◌, refl, ◌↔◌, true, false, List, [], ◌∷◌, replicate, length, drop, some, text, arith,
}
use www_scanner.Record.{
  Record, Side, width, encode, decode, IsEncodable, stall, conclusive, conclusive_side,
  registration_state,
}
use www_scanner.Record.Codec.{encode_bytes}
use www_scanner.Record.RoundTrip.{decode-encode}
use www_scanner.Record.Agreement.{stall-conclusive}
use www_scanner.Record.Resolve
use www_scanner.Record.RrTypes
use www_scanner.Record.Tcp
use www_scanner.Record.Tls
use www_scanner.Record.Delegation
use www_scanner.Record.Terminal
use www_scanner.Record.Canonical
use www_scanner.Record.Status
use www_scanner.Record.Flags

abbrev working_side : Side
working_side = record {
  resolve = Resolve.ok;
  rr_types = 5;
  tcp = Tcp.ok;
  tls = Tls.ok;
  http = 404;
  terminal = Terminal.self;
  hops = 0;
}

-- the apex answers 404, and www resolves but its connection hangs
abbrev hanging : Record
hanging = record {
  status = Status.complete;
  flags = Flags.wildcard_checked;
  canonical = Canonical.both_fail;
  delegation = Delegation.ok;
  duration_m = 5120;
  apex = working_side;
  www = record working_side { tcp = Tcp.timeout; tls = Tls.unattempted; http = 0; terminal = 0 };
}

hanging_verdict :
    (stall hanging ≡ text "tcp-timeout")
    × (conclusive hanging ≡ false)
    × (registration_state hanging ≡ text "points somewhere")
unfolding stall conclusive conclusive_side registration_state
hanging_verdict = (refl, refl, refl)

names :
    (Resolve.string 2 ≡ text "nxdomain")
    × (Tls.string 9 ≡ text "invalid")
    × (RrTypes.string 5 ≡ text "A+CNAME")
    × (RrTypes.string 0 ≡ text "-")
    × (Canonical.string Canonical.apex_to_www ≡ text "apex->www")
unfolding Resolve.string Tls.string RrTypes.string Canonical.string
names = (refl, refl, refl, refl, refl)

hanging-IsEncodable : IsEncodable hanging
hanging-IsEncodable = omega arith

abbrev block : List ℕ
block = replicate 26 255

decode-encode_example :
    (b' : List ℕ) × (encode hanging block ≡ some b')
    × (decode b' ≡ some hanging)
    × (length b' ≡ length block)
    × (drop width b' ≡ drop width block)
decode-encode_example = decode-encode hanging hanging-IsEncodable block (omega arith)

abbrev stored : List ℕ
stored = encode_bytes hanging (9 ∷ [])

stall-conclusive_example : (stall hanging ≡ text "") ↔ (conclusive hanging ≡ true)
stall-conclusive_example = stall-conclusive hanging
