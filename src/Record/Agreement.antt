-- ===== src/Record/Agreement.antt =====
-- internal/record/record.go: `Stall` and `Conclusive` are two views of one decision.
use www_scanner.Prelude.{◌≡◌, ◌↔◌, true, arith, text}
use www_scanner.Record.Defs.{Record}
use www_scanner.Record.Verdict.{conclusive, conclusive_side, stall}

-- A record stalls on no rung exactly when it is conclusive.
pub stall-conclusive : (r : Record) → (stall r ≡ text "") ↔ (conclusive r ≡ true)
unfolding stall conclusive conclusive_side text
stall-conclusive r = ground arith
