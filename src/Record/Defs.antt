-- ===== src/Record/Defs.antt =====
-- internal/record/record.go: the structs `Side` and `Record`.
use www_scanner.Prelude.{ℕ}

pub record Side : Type 0 where
  pub resolve : ℕ  -- Resolve, uint8
  pub rr_types : ℕ  -- RRTypes, uint8
  pub tcp : ℕ  -- TCP, uint8
  pub tls : ℕ  -- TLS, uint8
  pub http : ℕ  -- uint16, 0 if no response
  pub terminal : ℕ  -- Terminal, uint8
  pub hops : ℕ  -- uint8

pub record Record : Type 0 where
  pub status : ℕ  -- Status, uint8
  pub flags : ℕ  -- Flags, uint8
  pub canonical : ℕ  -- Canonical, uint8
  pub delegation : ℕ  -- Delegation, uint8
  pub duration_m : ℕ  -- uint16, saturating
  pub apex : Side
  pub www : Side

-- `Side{}` and `Record{}`
abbrev pub zero_side : Side
zero_side = record { resolve = 0; rr_types = 0; tcp = 0; tls = 0; http = 0; terminal = 0; hops = 0 }

abbrev pub zero_record : Record
zero_record = record {
  status = 0;
  flags = 0;
  canonical = 0;
  delegation = 0;
  duration_m = 0;
  apex = zero_side;
  www = zero_side;
}
