-- ===== src/Sink/Laws.antt =====
-- internal/sink/sink.go: what `Write` and `Get` of the mapped file promise.
use www_scanner.Prelude.{
  ℕ, ◌+◌, ◌*◌, ◌≤◌, ◌<◌, ◌≡◌, refl, sym, ap, ◌∙◌, ◌≢◌, true, false, ◌==◌, ==_iff, Bool-cases, inl,
  inr, List, [], some, ok, ◌>>=◌, arith, length, length-take, length-drop, drop, drop_all, leb,
  le→leb, if◌then◌else◌, dec_lt,
}
use www_scanner.Prelude.Memory.{
  overwrite, cells, length-overwrite, cells-overwrite_self, cells-overwrite_below,
  cells-overwrite_above, overwrite_comm,
}
use www_scanner.Record.{Record, zero_record, width, IsEncodable}
use www_scanner.Record.Codec.{encode_bytes, decode_bytes}
use www_scanner.Record.RoundTrip.{encode_lem, decode_lem, decode_bytes-encode_bytes}
use www_scanner.Sink.Defs.{Mmap, record_bytes, write, get}

-- The file is mapped and holds its `n` records.
pub record IsOpen (s : Mmap) : Type 0 where
  pub is_mapped : s.mapped ≡ true
  pub sized : length s.file ≡ s.n * width

-- the bytes that belong to index `idx`
abbrev pub slot : Mmap → ℕ → List ℕ
slot s idx = cells (idx * width) width s.file

-- the sink after a store at `idx`
abbrev pub stored : Mmap → ℕ → Record → Mmap
stored s idx r = record s { file = overwrite (idx * width) (encode_bytes r []) s.file }

module _ (s : Mmap) (live : IsOpen s) (idx : ℕ) (below : idx < s.n) where
  in_file : idx * width + width ≤ length s.file
  in_file = omega (arith, live.sized)

  pub length-slot : length (slot s idx) ≡ width
  length-slot = omega (
    arith,
    in_file,
    length-take width (drop (idx * width) s.file),
    length-drop (idx * width) s.file,
  )

  record_bytes_lem : record_bytes s idx ≡ some (slot s idx)
  record_bytes_lem = rw (live.is_mapped, le→leb _ _ in_file)

  inside : leb s.n idx ≡ false
  inside = ground arith

  pub write_lem : (r : Record) → write s idx r ≡ ok (stored s idx r)
  unfolding write
  write_lem r = rw (
    inside,
    record_bytes_lem,
    encode_lem r (slot s idx) (omega (arith, length-slot)),
    drop_all width (slot s idx) (omega (arith, length-slot)),
  )

  pub get_lem : get s idx ≡ ok (decode_bytes (slot s idx))
  unfolding get
  get_lem = rw (inside, record_bytes_lem, decode_lem (slot s idx) (omega (arith, length-slot)))

  pub stored-IsOpen : (r : Record) → IsOpen (stored s idx r)
  stored-IsOpen r = record {
    is_mapped = live.is_mapped;
    sized = length-overwrite (idx * width) (encode_bytes r []) s.file ∙ live.sized;
  }

  slot-stored_self : (r : Record) → slot (stored s idx r) idx ≡ encode_bytes r []
  slot-stored_self r =
      cells-overwrite_self (idx * width) (encode_bytes r []) s.file (omega (arith, in_file))

pub slot-stored_ne :
    (s : Mmap) (idx j : ℕ) (r : Record) → idx ≢ j → slot (stored s idx r) j ≡ slot s j
slot-stored_ne s idx j r h = elim (dec_lt idx j) [
  | yes lt ↦
      cells-overwrite_above (idx * width) (j * width) width (encode_bytes r []) s.file (omega arith)
  | no ge ↦
      cells-overwrite_below (idx * width) (j * width) width (encode_bytes r []) s.file (omega arith)
]

outside : (s : Mmap) (j : ℕ) → s.n ≤ j → get s j ≡ ok zero_record
unfolding get
outside s j h = rw (le→leb s.n j h)

module _ (s : Mmap) (live : IsOpen s) (idx : ℕ) (below : idx < s.n) (r : Record) where
  get-stored_self : IsEncodable r → get (stored s idx r) idx ≡ ok r
  get-stored_self fits =
      get_lem (stored s idx r) (stored-IsOpen s live idx below r) idx below
      ∙ ap ok (
          ap decode_bytes (slot-stored_self s live idx below r)
          ∙ decode_bytes-encode_bytes r fits [])

  pub get-stored_ne : (j : ℕ) → idx ≢ j → get (stored s idx r) j ≡ get s j
  get-stored_ne j h = elim (dec_lt j s.n) [
    | yes lt ↦
        get_lem (stored s idx r) (stored-IsOpen s live idx below r) j lt
        ∙ ap (λ b. ok (decode_bytes b)) (slot-stored_ne s idx j r h)
        ∙ sym (get_lem s live j lt)
    | no ge ↦ outside (stored s idx r) j (omega arith) ∙ sym (outside s j (omega arith))
  ]

  pub get-stored :
      IsEncodable r → (j : ℕ) → get (stored s idx r) j ≡ (if idx == j then ok r else get s j)
  get-stored fits j = elim (Bool-cases (idx == j)) [
    | inl same ↦ rw (same, ← (==_iff idx j).0 same) (get-stored_self fits)
    | inr other ↦ rw other (get-stored_ne j (ground arith))
  ]

-- A write below the length of an open sink succeeds and leaves it open, with as many records; then
-- a read at any index gives the record written, at its own index, and what it gave before, elsewhere.
pub get-write :
    (s : Mmap) (idx j : ℕ) (r : Record)
    → IsOpen s
    → idx < s.n
    → IsEncodable r
    → (s' : Mmap) × (write s idx r ≡ ok s')
      × IsOpen s'
      × (s'.n ≡ s.n)
      × (get s' j ≡ (if idx == j then ok r else get s j))
get-write s idx j r live below fits = (
  stored s idx r,
  write_lem s live idx below r,
  stored-IsOpen s live idx below r,
  refl,
  get-stored s live idx below r fits j,
)

stored_comm :
    (s : Mmap) (i j : ℕ) (p q : Record)
    → i < j
    → stored (stored s i p) j q ≡ stored (stored s j q) i p
stored_comm s i j p q h =
    ap (λ f. record s { file = f })
      (sym (
        overwrite_comm (i * width) (j * width) (encode_bytes p []) (encode_bytes q []) s.file
          (omega arith)))

module _ (s : Mmap) (live : IsOpen s) (i j : ℕ) (i_below : i < s.n) (j_below : j < s.n)
    (p q : Record) where
  write_twice : (write s i p >>= λ t. write t j q) ≡ ok (stored (stored s i p) j q)
  write_twice =
      rw (write_lem s live i i_below p)
        (write_lem (stored s i p) (stored-IsOpen s live i i_below p) j j_below q)

-- Writes at two different indices of an open sink can be exchanged: the file is the same, byte for
-- byte, in either order.
pub write-write_comm :
    (s : Mmap) (i j : ℕ) (p q : Record)
    → IsOpen s
    → i < s.n
    → j < s.n
    → i ≢ j
    → (write s i p >>= λ t. write t j q) ≡ (write s j q >>= λ t. write t i p)
write-write_comm s i j p q live a b h =
    write_twice s live i j a b p q
    ∙ elim (dec_lt i j) [
      | yes lt ↦ ap ok (stored_comm s i j p q lt)
      | no ge ↦ ap ok (sym (stored_comm s j i q p (omega arith)))
    ]
    ∙ sym (write_twice s live j i b a q p)
