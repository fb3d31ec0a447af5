-- ===== src/Record/Codec.antt =====
-- internal/record/record.go: the fixed-width encoding. A byte slice is a list of byte values; a
-- slice shorter than `width` fails the bounds check at `b[Width-1]`, which panics: `none` here.
use www_scanner.Prelude.{
  ℕ, ◌+◌, ◌*◌, ◌/◌, ◌%◌, ◌<◌, List, ◌∷◌, Option, none, some, leb, length, drop, get_or,
  if◌then◌else◌,
}
use www_scanner.Record.Defs.{Side, Record}

-- `Width`
abbrev pub width : ℕ
width = 24

-- `binary.LittleEndian.PutUint16`
abbrev put_uint16 : ℕ → List ℕ → List ℕ
put_uint16 v rest = v % 256 ∷ v / 256 % 256 ∷ rest

-- `encodeSide`: the eight bytes it stores
abbrev pub encode_side : Side → List ℕ → List ℕ
encode_side s rest =
    s.resolve ∷ s.rr_types ∷ s.tcp ∷ s.tls ∷ put_uint16 s.http (s.terminal ∷ s.hops ∷ rest)

-- the 24 bytes that `Encode` stores, in the order of their offsets, in front of a rest
abbrev pub encode_bytes : Record → List ℕ → List ℕ
encode_bytes r rest =
    r.status
    ∷ r.flags
    ∷ r.canonical
    ∷ r.delegation
    ∷ put_uint16 r.duration_m (put_uint16 0 (encode_side r.apex (encode_side r.www rest)))

-- `Encode`: the slice afterwards
unfoldable pub encode : Record → List ℕ → Option (List ℕ)
encode r b = if leb width (length b) then some (encode_bytes r (drop width b)) else none

abbrev pub at : List ℕ → ℕ → ℕ
at b i = get_or b i 0

-- `binary.LittleEndian.Uint16`
abbrev uint16 : List ℕ → ℕ → ℕ
uint16 b i = at b i + 256 * at b (i + 1)

-- `decodeSide` on `b[o : o+8]`
abbrev pub decode_side : List ℕ → ℕ → Side
decode_side b o = record {
  resolve = at b o;
  rr_types = at b (o + 1);
  tcp = at b (o + 2);
  tls = at b (o + 3);
  http = uint16 b (o + 4);
  terminal = at b (o + 6);
  hops = at b (o + 7);
}

-- the struct that `Decode` builds from a slice that is long enough
abbrev pub decode_bytes : List ℕ → Record
decode_bytes b = record {
  status = at b 0;
  flags = at b 1;
  canonical = at b 2;
  delegation = at b 3;
  duration_m = uint16 b 4;
  apex = decode_side b 8;
  www = decode_side b 16;
}

-- `Decode`
unfoldable pub decode : List ℕ → Option Record
decode b = if leb width (length b) then some (decode_bytes b) else none

-- What Go's types guarantee of a side and of a record.
pub record IsEncodableSide (s : Side) : Type 0 where
  pub resolve_fits : s.resolve < 256
  pub rr_types_fits : s.rr_types < 256
  pub tcp_fits : s.tcp < 256
  pub tls_fits : s.tls < 256
  pub http_fits : s.http < 65536
  pub terminal_fits : s.terminal < 256
  pub hops_fits : s.hops < 256

pub record IsEncodable (r : Record) : Type 0 where
  pub status_fits : r.status < 256
  pub flags_fits : r.flags < 256
  pub canonical_fits : r.canonical < 256
  pub delegation_fits : r.delegation < 256
  pub duration_fits : r.duration_m < 65536
  pub apex_fits : IsEncodableSide r.apex
  pub www_fits : IsEncodableSide r.www
