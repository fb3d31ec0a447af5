-- ===== src/Sink/Resume.antt =====
-- internal/sink/sink.go: a result file is its own checkpoint, and belongs to one corpus length.
use native.Mathlib.Nat.{sub-zero}
use www_scanner.Prelude.{
  take-nil, ℕ, zero, ◌+◌, ◌*◌, ◌/◌, ◌≤◌, ◌<◌, ◌≡◌, refl, ap, ◌∙◌, ◌≢◌, true, false, List, [], none,
  ok, err, arith, length, length-replicate, replicate, drop-replicate, take-replicate, Bool-cases,
  inl, inr, leb, ◌==◌,
}
use www_scanner.Prelude.Memory.{cells}
use www_scanner.Record.{zero_record, width}
use www_scanner.Record.Codec.{decode_bytes}
use www_scanner.Sink.Defs.{Faults, Mmap, create, get, close, other_corpus, truncate}
use www_scanner.Sink.Laws.{IsOpen, get_lem}

-- No system call fails.
abbrev pub no_faults : Faults
no_faults = record {
  open_fails = false;
  stat_fails = false;
  truncate_fails = false;
  mmap_fails = false;
  msync_fails = false;
  munmap_fails = false;
  close_fails = false;
}

abbrev pub fresh : ℕ → Mmap
fresh n = record { file = replicate (n * width) 0; mapped = true; n = n }

fresh-IsOpen : (n : ℕ) → IsOpen (fresh n)
fresh-IsOpen n = record { is_mapped = refl; sized = length-replicate (n * width) 0 }

pub truncate_empty : (size : ℕ) → truncate size [] ≡ replicate size 0
truncate_empty size = rw (take-nil size, sub-zero)

create_empty : (n : ℕ) → 0 < n → create no_faults [] n ≡ (replicate (n * width) 0, ok (fresh n))
unfolding create
create_empty n h = rw (ne, empty, truncate_empty (n * width))
  where
    ne : (n == 0) ≡ false
    ne = ground arith

    empty : (0 == n * width) ≡ false
    empty = ground arith

pub fresh-get : (n j : ℕ) → get (fresh n) j ≡ ok zero_record
unfolding get
fresh-get n j = elim (Bool-cases (leb n j)) [
  | inl above ↦ rw above
  | inr below ↦
      get_lem (fresh n) (fresh-IsOpen n) j (ground arith)
      ∙ ap (λ b. ok (decode_bytes b)) (zeros (j * width) (n * width) (ground arith))
]
  where
    zeros : (o m : ℕ) → o + width ≤ m → cells o width (replicate m zero) ≡ replicate width 0
    zeros o m h =
        rw (drop-replicate {A = ℕ} o m 0 (omega arith))
          (take-replicate {A = ℕ} width _ 0 (omega arith))

-- If no system call fails, a new file of n > 0 records opens, and every record in it reads as the
-- zero record: never tried.
pub create_fresh :
    (n j : ℕ)
    → 0 < n
    → (s : Mmap) × (create no_faults [] n ≡ (s.file, ok s))
      × IsOpen s
      × (s.n ≡ n)
      × (get s j ≡ ok zero_record)
create_fresh n j h = (fresh n, create_empty n h, fresh-IsOpen n, refl, fresh-get n j)

create_sized :
    (f : List ℕ) (n : ℕ)
    → 0 < n
    → length f ≡ n * width
    → create no_faults f n ≡ (f, ok (record { file = f; mapped = true; n = n }))
unfolding create
create_sized f n h e = ground arith

-- Closing an open sink of n > 0 records and creating it again over the same file, with the same
-- count and no system call failing, gives back the same sink: no record is lost, none is reset.
pub create-close :
    (s : Mmap)
    → IsOpen s
    → 0 < s.n
    → ((close no_faults s).1 ≡ none)
      × (create no_faults (close no_faults s).0.file s.n ≡ (s.file, ok s))
unfolding close
create-close s live h = rw live.is_mapped (refl, create_sized s.file s.n h live.sized)

-- A file that holds neither nothing nor exactly n records is refused, for every n > 0, with the count
-- of records that it does hold, and is left as it was.
pub create_other_corpus :
    (f : List ℕ) (n : ℕ)
    → 0 < n
    → length f ≢ 0
    → length f ≢ n * width
    → create no_faults f n ≡ (f, err (other_corpus (length f / width)))
unfolding create
create_other_corpus f n h nonempty other = ground arith
