-- ===== src/Benchmark/Answered.antt =====
-- benchmarks/dns-sink/main.go: every well-formed query is answered.
use www_scanner.Prelude.{ℕ, ◌<◌, List, [], ◌∷◌, ◌++◌, length}

-- the labels of a name, each behind its length
abbrev pub label_bytes : List (List ℕ) → List ℕ
label_bytes [] = []
label_bytes (l ∷ ls) = length l ∷ (l ++ label_bytes ls)

-- a question: the name, its terminator, the type and the class
abbrev pub question_bytes : List (List ℕ) → ℕ → ℕ → ℕ → ℕ → List ℕ
question_bytes ls t1 t0 c1 c0 = label_bytes ls ++ (0 ∷ t1 ∷ t0 ∷ c1 ∷ c0 ∷ [])

abbrev pub IsLabel : List ℕ → Type 0
IsLabel l = 0 < length l
