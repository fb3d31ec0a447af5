-- ===== src/Record/RoundTrip.antt =====
-- internal/record/record.go: `Decode` undoes `Encode`, and the other way round.
use www_scanner.Prelude.{
  ℕ, ◌+◌, ◌*◌, ◌/◌, ◌%◌, ◌≤◌, ◌<◌, ◌≡◌, refl, ap, ◌∙◌, List, ◌∷◌, some, arith, All, length,
  length-drop, drop, le→leb,
}
use www_scanner.Record.Defs.{Record}
use www_scanner.Record.Codec.{width, encode_bytes, encode, decode_bytes, decode, at, IsEncodable}

two_bytes : (v : ℕ) → v < 65536 → v % 256 + 256 * (v / 256 % 256) ≡ v
two_bytes v h = omega arith

pub encode_lem :
    (r : Record) (b : List ℕ) → width ≤ length b → encode r b ≡ some (encode_bytes r (drop width b))
unfolding encode
encode_lem r b h = rw (le→leb width (length b) h)

pub decode_lem : (b : List ℕ) → width ≤ length b → decode b ≡ some (decode_bytes b)
unfolding decode
decode_lem b h = rw (le→leb width (length b) h)

module _ (r : Record) (fits : IsEncodable r) where
  open fits use {duration_fits, apex_fits, www_fits}

  pub decode_bytes-encode_bytes : (rest : List ℕ) → decode_bytes (encode_bytes r rest) ≡ r
  decode_bytes-encode_bytes rest = cc (
    two_bytes r.duration_m duration_fits,
    two_bytes r.apex.http apex_fits.http_fits,
    two_bytes r.www.http www_fits.http_fits,
  )

  -- A record whose fields fit their Go types, encoded into any slice of at least 24 bytes, is read
  -- back unchanged; the slice keeps its length and every byte from offset 24 on.
  pub decode-encode :
      (b : List ℕ)
      → width ≤ length b
      → (b' : List ℕ) × (encode r b ≡ some b')
        × (decode b' ≡ some r)
        × (length b' ≡ length b)
        × (drop width b' ≡ drop width b)
  decode-encode b h = (
    encode_bytes r (drop width b),
    encode_lem r b h,
    decode_lem _ (omega arith) ∙ ap some (decode_bytes-encode_bytes (drop width b)),
    omega (arith, length-drop width b),
    refl,
  )

-- The bytes of a slice are in range, and the two reserved bytes, at offsets 6 and 7, are zero.
pub record IsCanonical (b : List ℕ) : Type 0 where
  pub bytes : All (λ x. x < 256) b
  pub reserved : (at b 6 ≡ 0) × (at b 7 ≡ 0)

low_byte : (lo hi : ℕ) → lo < 256 → (lo + 256 * hi) % 256 ≡ lo
low_byte lo hi p = omega arith

high_byte : (lo hi : ℕ) → lo < 256 → hi < 256 → (lo + 256 * hi) / 256 % 256 ≡ hi
high_byte lo hi p q = omega arith

bytes-IsCanonical :
    (b : List ℕ)
    → IsCanonical b
    → width ≤ length b
    → encode_bytes (decode_bytes b) (drop width b) ≡ b
bytes-IsCanonical
      (b0 ∷ b1 ∷ b2 ∷ b3 ∷ b4 ∷ b5 ∷ b6 ∷ b7 ∷ b8 ∷ b9 ∷ b10 ∷ b11 ∷ b12 ∷ b13 ∷ b14 ∷ b15 ∷ b16
        ∷ b17 ∷ b18 ∷ b19 ∷ b20 ∷ b21 ∷ b22 ∷ b23 ∷ rest)
      c h =
    cc (
      c.reserved.0,
      c.reserved.1,
      low_byte b4 b5 (omega arith),
      high_byte b4 b5 (omega arith) (omega arith),
      low_byte b12 b13 (omega arith),
      high_byte b12 b13 (omega arith) (omega arith),
      low_byte b20 b21 (omega arith),
      high_byte b20 b21 (omega arith) (omega arith),
    )
bytes-IsCanonical _ c h = absurd (omega arith)

-- A slice of at least 24 bytes whose reserved bytes are zero decodes to a record that, encoded back
-- into the slice, leaves every byte as it was.
pub encode-decode :
    (b : List ℕ)
    → IsCanonical b
    → width ≤ length b
    → (r : Record) × (decode b ≡ some r) × (encode r b ≡ some b)
encode-decode b c h =
    (decode_bytes b, decode_lem b h, encode_lem _ b h ∙ ap some (bytes-IsCanonical b c h))
