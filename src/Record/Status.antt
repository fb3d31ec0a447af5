-- ===== src/Record/Status.antt =====
-- internal/record/record.go: the constants of `Status`, whether a domain was probed at all
use www_scanner.Prelude.{ℕ}

abbrev pub unattempted : ℕ
unattempted = 0

abbrev pub complete : ℕ
complete = 1

abbrev pub aborted : ℕ
aborted = 2
