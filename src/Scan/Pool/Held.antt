-- ===== src/Scan/Pool/Held.antt =====
-- internal/scan/scan.go: the records in the hands of the workers.
use www_scanner.Prelude.{ℕ, zero, suc, replicate, List, [], ◌∷◌, ◌++◌, All}
use www_scanner.Scan.Pool.{
  IsProbed, Worker, waiting, took, probing, probed, stored, ended, gone, Shared, WorkMove, receives,
  begins, probes, stores, ends, observes, leaves,
}

-- a record that a worker is to write is one of `Probe`
abbrev pub Held : Worker → Type 0
Held waiting = Unit
Held (took i) = Unit
Held (probing i) = Unit
Held (probed i r) = IsProbed r
Held (stored i r) = Unit
Held (ended i r) = Unit
Held gone = Unit

pub work-Held : {s t : Shared} {w v : Worker} → WorkMove s w t v → Held w → Held v
work-Held (receives e) h = tt
work-Held begins h = tt
work-Held (probes r ok_rec) h = ok_rec
work-Held stores h = tt
work-Held ends h = tt
work-Held (observes us lt) h = tt
work-Held (leaves e l) h = tt

-- a worker changes in place
pub All-moved :
    (before after : List Worker) (w v : Worker)
    → (Held w → Held v)
    → All Held (before ++ (w ∷ after))
    → All Held (before ++ (v ∷ after))
All-moved [] after w v f h = (f h.0, h.1)
All-moved (x ∷ before) after w v f h = (h.0, All-moved before after w v f h.1)

pub All-Held : (before after : List Worker) (w : Worker) → All Held (before ++ (w ∷ after)) → Held w
All-Held [] after w h = h.0
All-Held (x ∷ before) after w h = All-Held before after w h.1

pub All-idle : (n : ℕ) → All Held (replicate n waiting)
All-idle zero = tt
All-idle (suc n) = (tt, All-idle n)
