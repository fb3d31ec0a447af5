-- ===== src/Sink/Results.antt =====
-- internal/sink/sink.go: what a reader of results sees of a `Sink`, its `Len` and its `Get`.
use www_scanner.Prelude.{ℕ, ok, err, panic}
use www_scanner.Record.{Record, zero_record}
use www_scanner.Sink.Defs.{Mmap, get}
use www_scanner.Sink.Null
use www_scanner.Sink.Null.{Null}

pub record Results : Type 0 where
  pub len : ℕ
  pub get : ℕ → Record

-- An open mapped file, whose `Get` always returns a record.
unfoldable pub of_mmap : Mmap → Results
of_mmap s = record {
  len = s.n;
  get = λ i. elim (get s i) [ ok r ↦ r | err _ ↦ zero_record | panic ↦ zero_record ];
}

unfoldable pub of_null : Null → Results
of_null s = record { len = Null.len s; get = Null.get s }
