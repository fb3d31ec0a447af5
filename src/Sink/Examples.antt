-- ===== src/Sink/Examples.antt =====
-- Tests of the result file, and its theorems at concrete files.
use www_scanner.Prelude.{
  ℕ, zero, suc, ◌∷◌, ◌≡◌, le→leb, refl, ◌==◌, [], ok, true, replicate, if◌then◌else◌, arith,
}
use www_scanner.Record.{Record, zero_record, decode}
use www_scanner.Sink.Defs.{out_of_range}
use www_scanner.Sink.{Mmap, write, get}
use www_scanner.Sink.Laws.{IsOpen, get-write}
use www_scanner.Sink.Refinement.{
  write_at, get_at, reopen, wrote, refused, got, reopened, calls, Represents, calls-table,
}

abbrev empty_file : Mmap
empty_file = record { file = replicate 72 0; mapped = true; n = 3 }

abbrev done : Record
done = record zero_record { status = 1; duration_m = 300 }

empty_file-IsOpen : IsOpen empty_file
empty_file-IsOpen = record { is_mapped = refl; sized = refl }

get-write_example :
    (s' : Mmap) × (write empty_file 1 done ≡ ok s')
    × IsOpen s'
    × (s'.n ≡ 3)
    × (get s' 2 ≡ (if 1 == 2 then ok done else get empty_file 2))
get-write_example = get-write empty_file 1 2 done empty_file-IsOpen (omega arith) (omega arith)

zero_rows : (j : ℕ) → get empty_file j ≡ ok zero_record
unfolding get decode
zero_rows zero = refl
zero_rows (suc zero) = refl
zero_rows (suc (suc zero)) = refl
zero_rows (suc (suc (suc j))) = rw (le→leb 3 (suc (suc (suc j))) (omega arith)) refl

empty_file-Represents : Represents empty_file (record { size = 3; row = λ _. zero_record })
empty_file-Represents = record {
  live = empty_file-IsOpen;
  some_record = omega arith;
  same_size = refl;
  same_rows = zero_rows;
}

calls-table_example :
    calls (write_at 1 done ∷ reopen ∷ get_at 1 ∷ write_at 3 done ∷ []) empty_file
    ≡ wrote ∷ reopened ∷ got done ∷ refused (out_of_range 3) ∷ []
calls-table_example =
    calls-table (write_at 1 done ∷ reopen ∷ get_at 1 ∷ write_at 3 done ∷ []) empty_file
      (record { size = 3; row = λ _. zero_record }) (omega arith, (tt, (tt, (omega arith, tt))))
      empty_file-Represents
