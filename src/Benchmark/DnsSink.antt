-- ===== src/Benchmark/DnsSink.antt =====
-- benchmarks/dns-sink/main.go: `buildResponse`, on the bytes of a query.
use www_scanner.Prelude.{
  ℕ, zero, suc, ◌+◌, ◌*◌, ◌-◌, ◌&&◌, not, List, [], ◌∷◌, ◌++◌, Option, none, some, length, get_or,
  take, drop, ltb, leb, if◌then◌else◌, ◌==◌,
}

-- `aaaaRData`
abbrev pub aaaa_rdata : List ℕ
aaaa_rdata = 32 ∷ 1 ∷ 13 ∷ 184 ∷ 0 ∷ 0 ∷ 0 ∷ 0 ∷ 0 ∷ 0 ∷ 0 ∷ 0 ∷ 0 ∷ 0 ∷ 0 ∷ 1 ∷ []

-- the loop over the labels, with the rounds left: where it stops
unfoldable pub skip_labels : ℕ → List ℕ → ℕ → ℕ
skip_labels zero q i = i
skip_labels (suc rounds) q i =
    let rest = skip_labels rounds q (i + (get_or q i 0 + 1)) in
    if ltb i (length q) && not (get_or q i 0 == 0) then rest else i

-- `binary.BigEndian.Uint16(q[i : i+2])`
abbrev pub big_endian : List ℕ → ℕ → ℕ
big_endian q i = 256 * get_or q i 0 + get_or q (i + 1) 0

-- the answer section: type, class, time to live, and the address
abbrev pub answer_bytes : ℕ → List ℕ
answer_bytes qtype =
    if qtype == 28
    then 192 ∷ 12 ∷ 0 ∷ 28 ∷ 0 ∷ 1 ∷ 0 ∷ 0 ∷ 0 ∷ 60 ∷ 0 ∷ 16 ∷ aaaa_rdata
    else 192 ∷ 12 ∷ 0 ∷ 1 ∷ 0 ∷ 1 ∷ 0 ∷ 0 ∷ 0 ∷ 60 ∷ 0 ∷ 4 ∷ 192 ∷ 0 ∷ 2 ∷ 1 ∷ []

-- `buildResponse` into an empty slice; `none` is nil. Each round of the loop moves on by a byte or more, so the length of
-- the query is enough rounds.
unfoldable pub build_response : List ℕ → Option (List ℕ)
build_response q =
    let i = skip_labels (length q) q 12 in
    let qend = i + 1 + 4 in
    if ltb (length q) 12
    then none
    else if leb (length q) i
    then none
    else if ltb (length q) qend
    then none
    else some (
        get_or q 0 0
        ∷ get_or q 1 0
        ∷ 132
        ∷ 0
        ∷ 0
        ∷ 1
        ∷ 0
        ∷ 1
        ∷ 0
        ∷ 0
        ∷ 0
        ∷ 0
        ∷ (take (qend - 12) (drop 12 q) ++ answer_bytes (big_endian q (i + 1))))
