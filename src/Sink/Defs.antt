-- ===== src/Sink/Defs.antt =====
-- internal/sink/sink.go: the mapped result file and the calls on it. What the operating system may refuse is
-- an argument, `Faults`. An index comes from a loop over the corpus, so it is never negative; the test
-- `idx < 0` of `Write` and `Get` has nothing to test on ℕ.
use www_scanner.Prelude.{
  ℕ, ◌+◌, ◌*◌, ◌/◌, ◌%◌, Bool, true, false, not, ◌&&◌, List, Option, none, some, Result, ok, err,
  panic, length, take, replicate, ◌++◌, ◌-◌, leb, ◌==◌, if◌then◌else◌,
}
use www_scanner.Prelude.Memory.{overwrite, cells}
use www_scanner.Record.{Record, zero_record, width, encode, decode}

pub data Error : Type 0 where
  bad_count open_failed stat_failed truncate_failed mmap_failed : Error
  other_corpus : ℕ → Error  -- the count of records that the file holds
  not_a_multiple : Error
  out_of_range : ℕ → Error
  msync_failed munmap_failed close_failed : Error

-- Which system calls fail.
pub record Faults : Type 0 where
  pub open_fails : Bool
  pub stat_fails : Bool
  pub truncate_fails : Bool
  pub mmap_fails : Bool
  pub msync_fails : Bool
  pub munmap_fails : Bool
  pub close_fails : Bool

-- `Mmap`. `mapped` is `data != nil`; while it holds, `data` is the content of the file.
pub record Mmap : Type 0 where
  pub file : List ℕ
  pub mapped : Bool
  pub n : ℕ

-- `f.Truncate(size)`: cut off, or filled up with zero bytes
abbrev pub truncate : ℕ → List ℕ → List ℕ
truncate size f = take size f ++ replicate (size - length f) 0

abbrev pub mapping : Faults → List ℕ → ℕ → Result Error Mmap
mapping os f n =
    if os.mmap_fails then err mmap_failed else ok (record { file = f; mapped = true; n = n })

-- `Create` on a file with the given content, which is empty if there was no file: the content
-- afterwards, and the sink or the error. `O_CREATE` alone changes no content.
unfoldable pub create : Faults → List ℕ → ℕ → List ℕ × Result Error Mmap
create os f n =
    let size = n * width in
    if n == 0
    then (f, err bad_count)
    else if os.open_fails
    then (f, err open_failed)
    else if os.stat_fails
    then (f, err stat_failed)
    else if length f == size
    then (f, mapping os f n)
    else if not (length f == 0)
    then (f, err (other_corpus (length f / width)))
    else if os.truncate_fails
    then (f, err truncate_failed)
    else (truncate size f, mapping os (truncate size f) n)

-- `Open` on a file with the given content
unfoldable pub open_file : Faults → List ℕ → Result Error Mmap
open_file os f =
    if os.open_fails
    then err open_failed
    else if os.stat_fails
    then err stat_failed
    else if not (length f % width == 0)
    then err not_a_multiple
    else mapping os f (length f / width)

-- The slice expression `data[lo : lo+width]`; `none` is the panic of a slice out of range.
abbrev pub record_bytes : Mmap → ℕ → Option (List ℕ)
record_bytes s idx =
    if s.mapped && leb (idx * width + width) (length s.file)
    then some (cells (idx * width) width s.file)
    else none

-- `Write`
unfoldable pub write : Mmap → ℕ → Record → Result Error Mmap
write s idx r = if leb s.n idx then err (out_of_range idx) else elim (record_bytes s idx) [
  | none ↦ panic
  | some b ↦ elim (encode r b) [
    | none ↦ panic
    | some b' ↦ ok (record s { file = overwrite (idx * width) b' s.file })
  ]
]

-- `Get`
unfoldable pub get : Mmap → ℕ → Result Error Record
get s idx = if leb s.n idx then ok zero_record else elim (record_bytes s idx) [
  | none ↦ panic
  | some b ↦ elim (decode b) [ none ↦ panic | some r ↦ ok r ]
]

-- `Len`
unfoldable pub len : Mmap → ℕ
len s = s.n

-- `Sync`: the error, if any
unfoldable pub sync : Faults → Mmap → Option Error
sync os s = if not s.mapped then none else if os.msync_fails then some msync_failed else none

-- `Close`: the sink afterwards, and the first error of its three calls
unfoldable pub close : Faults → Mmap → Mmap × Option Error
close os s =
    let closed : Option Error = if os.close_fails then some close_failed else none in
    if not s.mapped then (s, closed) else (
      record s { mapped = false },
      if os.msync_fails
          then some msync_failed
          else if os.munmap_fails
          then some munmap_failed
          else closed,
    )
