-- ===== src/Resolve/Merge.antt =====
-- internal/resolve/resolve.go: `mergeStatus`, how the outcomes for A and AAAA become one.
use www_scanner.Prelude.{ℕ, ◌<◌, ◌≡◌, ◌≢◌, ◌↔◌, ◌⊎◌, if◌then◌else◌, ◌==◌, leb, arith}
use www_scanner.Record.Resolve

-- the `rank` inside `mergeStatus`
unfoldable pub rank : ℕ → ℕ
rank s =
    if s == Resolve.ok
    then 5
    else if s == Resolve.no_data
    then 4
    else if s == Resolve.nxdomain
    then 3
    else if s == Resolve.refused
    then 2
    else if s == Resolve.servfail
    then 1
    else 0

unfoldable pub merge_status : ℕ → ℕ → ℕ
unfolding rank
merge_status a b = if leb (rank b) (rank a) then a else b

-- The merge is one of the two outcomes; it is ok exactly if one of them is; and it is NXDOMAIN exactly if one is
-- NXDOMAIN and the other is neither ok nor no-data.
pub merge_status_lem :
    (a b : ℕ)
    → let m = merge_status a b in
      ((m ≡ a) ⊎ (m ≡ b))
      × ((m ≡ Resolve.ok) ↔ ((a ≡ Resolve.ok) ⊎ (b ≡ Resolve.ok)))
      × ((m ≡ Resolve.nxdomain) ↔ (
          ((a ≡ Resolve.nxdomain) ⊎ (b ≡ Resolve.nxdomain))
          × (a ≢ Resolve.ok)
          × (b ≢ Resolve.ok)
          × (a ≢ Resolve.no_data)
          × (b ≢ Resolve.no_data)))
unfolding merge_status
merge_status_lem a b = ground arith

-- The merge is associative: more outcomes can be merged in any grouping.
pub merge_status_assoc :
    (a b c : ℕ) → merge_status (merge_status a b) c ≡ merge_status a (merge_status b c)
unfolding merge_status
merge_status_assoc a b c = ground arith

-- The order of the two outcomes does not matter, but for two failures without any answer, a timeout and an error, of
-- which the first that came back is kept.
pub merge_status_comm : (a b : ℕ) → 0 < rank a → merge_status a b ≡ merge_status b a
unfolding merge_status
merge_status_comm a b h = ground arith
