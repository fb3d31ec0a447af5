-- ===== src/Sink/Null.antt =====
-- internal/sink/sink.go: `Null`, which stores nothing.
use www_scanner.Prelude.{ℕ}
use www_scanner.Record.{Record, zero_record}

pub record Null : Type 0 where
  pub n : ℕ

unfoldable pub write : Null → ℕ → Record → Null
write s idx r = s

unfoldable pub get : Null → ℕ → Record
get s idx = zero_record

unfoldable pub len : Null → ℕ
len s = s.n
