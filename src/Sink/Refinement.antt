-- ===== src/Sink/Refinement.antt =====
-- internal/sink/sink.go: an open result file is a table of records, whatever sequence of calls is made on it.
use www_scanner.Prelude.{
  ℕ, ◌<◌, ◌≤◌, ◌≡◌, refl, ap, true, false, ◌==◌, leb, le→leb, List, [], ◌∷◌, All, Option, none,
  some, ok, err, panic, dec_lt, if◌then◌else◌, arith,
}
use www_scanner.Record.{Record, IsEncodable}
use www_scanner.Sink.Defs.{Error, out_of_range, Faults, Mmap, create, write, get, len, sync, close}
use www_scanner.Sink.Laws.{IsOpen, stored, write_lem, stored-IsOpen, get-stored}
use www_scanner.Sink.Resume.{no_faults, create-close}

-- A call on the sink. `reopen` is `Close` and then `Create` of the same file for as many records.
pub data Op : Type 0 where
  write_at : ℕ → Record → Op
  get_at : ℕ → Op
  len_of : Op
  sync_now : Faults → Op
  reopen : Op

-- What the caller sees of a call.
pub data Seen : Type 0 where
  wrote : Seen
  refused : Error → Seen
  got : Record → Seen
  counted : ℕ → Seen
  synced : Option Error → Seen
  reopened : Seen
  crashed : Seen

-- One call: the sink afterwards, and what is seen.
unfoldable pub call : Op → Mmap → Mmap × Seen
call (write_at i r) s = elim (write s i r) [
  | ok s' ↦ (s', wrote)
  | err e ↦ (s, refused e)
  | panic ↦ (s, crashed)
]
call (get_at i) s = elim (get s i) [
  | ok r ↦ (s, got r)
  | err e ↦ (s, refused e)
  | panic ↦ (s, crashed)
]
call len_of s = (s, counted (len s))
call (sync_now os) s = (s, synced (sync os s))
call reopen s = elim ((create no_faults (close no_faults s).0.file s.n).1) [
  | ok s' ↦ (s', reopened)
  | err e ↦ (s, refused e)
  | panic ↦ (s, crashed)
]

-- What is seen of a sequence of calls.
unfoldable pub calls : List Op → Mmap → List Seen
calls [] s = []
calls (op ∷ ops) s = (call op s).1 ∷ calls ops (call op s).0

-- The specification: a number of records, and a record for every index, which has no bytes, no mapping and no file.
pub record Table : Type 0 where
  pub size : ℕ
  pub row : ℕ → Record

abbrev pub table_call : Op → Table → Table × Seen
table_call (write_at i r) t =
    if leb t.size i
    then (t, refused (out_of_range i))
    else (record t { row = λ j. if i == j then r else t.row j }, wrote)
table_call (get_at i) t = (t, got (t.row i))
table_call len_of t = (t, counted t.size)
table_call (sync_now os) t = (t, synced (if os.msync_fails then some Error.msync_failed else none))
table_call reopen t = (t, reopened)

abbrev pub table_calls : List Op → Table → List Seen
table_calls [] t = []
table_calls (op ∷ ops) t = (table_call op t).1 ∷ table_calls ops (table_call op t).0

-- The records that are written are values of their Go types.
abbrev pub IsTypedOp : Op → Type 0
IsTypedOp (write_at i r) = IsEncodable r
IsTypedOp (get_at i) = Unit
IsTypedOp len_of = Unit
IsTypedOp (sync_now os) = Unit
IsTypedOp reopen = Unit

-- An open sink holds the records of a table.
pub record Represents (s : Mmap) (t : Table) : Type 0 where
  pub live : IsOpen s
  pub some_record : 0 < s.n
  pub same_size : s.n ≡ t.size
  pub same_rows : (j : ℕ) → get s j ≡ ok (t.row j)

write_beyond : (i : ℕ) (r : Record) (s : Mmap) → s.n ≤ i → write s i r ≡ err (out_of_range i)
unfolding write
write_beyond i r s beyond = rw (le→leb s.n i beyond) refl

write_at-Represents :
    (i : ℕ) (r : Record) (s : Mmap) (t : Table)
    → IsEncodable r
    → Represents s t
    → i < s.n
    → Represents (stored s i r) (record t { row = λ j. if i == j then r else t.row j })
write_at-Represents i r s t fits rep below = record {
  live = stored-IsOpen s rep.live i below r;
  some_record = rep.some_record;
  same_size = rep.same_size;
  same_rows = λ j. ground (arith, get-stored s rep.live i below r fits j, rep.same_rows j);
}

sync_lem :
    (os : Faults) (s : Mmap)
    → IsOpen s
    → sync os s ≡ (if os.msync_fails then some Error.msync_failed else none)
unfolding sync
sync_lem os s live = rw live.is_mapped refl

-- A call keeps to the specification: the same is seen, and the sink holds the records of the table afterwards.
call-Represents :
    (op : Op) (s : Mmap) (t : Table)
    → IsTypedOp op
    → Represents s t
    → Represents (call op s).0 (table_call op t).0 × ((call op s).1 ≡ (table_call op t).1)
unfolding call
call-Represents (write_at i r) s t fits rep = elim (dec_lt i s.n) [
  | yes below ↦
      let inside : leb t.size i ≡ false = ground (arith, rep.same_size) in
      rw (write_lem s rep.live i below r, inside, call)
        (write_at-Represents i r s t fits rep below, refl)
  | no beyond ↦
      let outside : leb t.size i ≡ true = ground (arith, rep.same_size) in
      rw (write_beyond i r s (omega arith), outside, call) (rep, refl)
]
call-Represents (get_at i) s t _ rep = rw (rep.same_rows i, call) (rep, refl)
call-Represents len_of s t _ rep = unfold len in (rep, ap counted rep.same_size)
call-Represents (sync_now os) s t _ rep = (rep, ap synced (sync_lem os s rep.live))
call-Represents reopen s t _ rep =
    rw ((create-close s rep.live rep.some_record).1, call) (rep, refl)

-- A sink refines the table of records that it represents: after any sequence of writes, reads, syncs and reopenings of
-- the file, whatever the indices and whichever syncs fail, each call has returned what the table says, if the records
-- written are values of their Go types.
pub calls-table :
    (ops : List Op) (s : Mmap) (t : Table)
    → All IsTypedOp ops
    → Represents s t
    → calls ops s ≡ table_calls ops t
unfolding calls
calls-table [] s t fits rep = refl
calls-table (op ∷ ops) s t (fit, fits) rep =
    let (next, seen) = call-Represents op s t fit rep in
    rw (seen, calls-table ops (call op s).0 (table_call op t).0 fits next) refl
