-- ===== src/Sink/Opening.antt =====
-- internal/sink/sink.go: the sinks that `Create` and `Open` return, whatever the system calls do.
use www_scanner.Prelude.{
  ℕ, ◌*◌, ◌-◌, ◌/◌, ◌%◌, ◌<◌, ◌≡◌, refl, sym, true, not, List, [], ok, Result, if_cases, ap, ◌∙◌,
  Always, Always-if, length, length-append, length-replicate, ◌==◌, Bool-cases, inl, inr, arith,
  take, replicate, length-take,
}
use www_scanner.Record.{width, zero_record}
use www_scanner.Sink.Defs.{Error, Faults, Mmap, get, create, open_file, mapping, truncate}
use www_scanner.Sink.Laws.{IsOpen}
use www_scanner.Sink.Resume.{no_faults, fresh, fresh-get, truncate_empty}

-- A sink over a file with the given content, for n records.
pub record IsOver (n : ℕ) (content : List ℕ) (s : Mmap) : Type 0 where
  pub live : IsOpen s
  pub holds : s.file ≡ content
  pub sized : s.n ≡ n
  pub nonempty : 0 < n

mapping-IsOver :
    (os : Faults) (content : List ℕ) (n : ℕ)
    → 0 < n
    → length content ≡ n * width
    → Always (IsOver n content) (mapping os content n)
mapping-IsOver os content n h e =
    Always-if (IsOver n content) os.mmap_fails _ _ (λ _. tt)
      (λ _. record {
        live = record { is_mapped = refl; sized = e };
        holds = refl;
        sized = refl;
        nonempty = h;
      })

length-truncate : (size : ℕ) (f : List ℕ) → length f ≡ 0 → length (truncate size f) ≡ size
length-truncate size f e = omega (
  arith,
  length-append (take size f) (replicate (size - length f) 0),
  length-take size f,
  length-replicate {A = ℕ} (size - length f) 0,
)

-- A sink that `Create` returns is open, for n records, over the content that the file has then, which is as long as n
-- records are.
pub create-IsOver :
    (os : Faults) (f : List ℕ) (n : ℕ) → Always (IsOver n (create os f n).0) ((create os f n).1)
unfolding create
create-IsOver os f n = elim (Bool-cases (n == 0)) [
  | inl none_asked ↦ rw none_asked tt
  | inr asked ↦ elim (Bool-cases os.open_fails) [
    | inl e ↦ rw (asked, e) tt
    | inr opens ↦ elim (Bool-cases os.stat_fails) [
      | inl e ↦ rw (asked, opens, e) tt
      | inr stats ↦ elim (Bool-cases (length f == n * width)) [
        | inl same ↦
            rw (asked, opens, stats, same) (mapping-IsOver os f n (ground arith) (ground arith))
        | inr other ↦ elim (Bool-cases (length f == 0)) [
          | inr some_bytes ↦ rw (asked, opens, stats, other, some_bytes) tt
          | inl no_bytes ↦ elim (Bool-cases os.truncate_fails) [
            | inl e ↦ rw (asked, opens, stats, other, no_bytes, e) tt
            | inr cuts ↦
                rw (asked, opens, stats, other, no_bytes, cuts)
                  (mapping-IsOver os (truncate (n * width) f) n (ground arith)
                    (length-truncate (n * width) f (ground arith)))
          ]
        ]
      ]
    ]
  ]
]

-- `Open` of the file of an open sink maps the same records.
pub open_file-same :
    (os : Faults) (s : Mmap) → IsOpen s → Always (λ prev. prev ≡ s) (open_file os s.file)
unfolding open_file
open_file-same os s live =
    Always-if same os.open_fails _ _ (λ _. tt)
      (λ _.
        Always-if same os.stat_fails _ _ (λ _. tt)
          (λ _.
            Always-if same (not (length s.file % width == 0)) _ _ (λ _. tt)
              (λ _.
                Always-if same os.mmap_fails _ _ (λ _. tt)
                  (λ _.
                    let count : length s.file / width ≡ s.n = omega (arith, live.sized) in
                    λ i. record { file = s.file; mapped = sym live.is_mapped i; n = count i }))))
  where
    same : Mmap → Type 0
    same prev = prev ≡ s

-- If no system call fails, that gives back the sink itself.
pub open_file-opens : (s : Mmap) → IsOpen s → open_file no_faults s.file ≡ ok s
unfolding open_file
open_file-opens s live =
    let whole : (length s.file % width == 0) ≡ true = ground (arith, live.sized) in
    let count : length s.file / width ≡ s.n = omega (arith, live.sized) in
    rw whole (λ i. ok (record { file = s.file; mapped = sym live.is_mapped i; n = count i }))

-- A new file is filled with zero bytes, if it was made as long as n records are.
create-zeros :
    (os : Faults) (n : ℕ)
    → 0 < n
    → length (create os [] n).0 ≡ n * width
    → (create os [] n).0 ≡ replicate (n * width) 0
unfolding create
create-zeros os n h =
    let long_zero : List ℕ → Type 0 = λ l. length l ≡ n * width → l ≡ replicate (n * width) 0 in
    let zeros : List ℕ × Result Error Mmap → Type 0 = λ r. long_zero (r.0) in
    let empty : long_zero [] = λ l. absurd (omega arith) in
    if_cases zeros (n == 0) _ _ (λ _. empty)
      (λ _.
        if_cases zeros os.open_fails _ _ (λ _. empty)
          (λ _.
            if_cases zeros os.stat_fails _ _ (λ _. empty)
              (λ _.
                if_cases zeros (0 == n * width) _ _ (λ _. empty)
                  (λ _.
                    if_cases zeros os.truncate_fails _ _ (λ _. empty)
                      (λ _ l. truncate_empty (n * width))))))

-- Every record of a new file reads as the zero record.
pub create-unattempted :
    (os : Faults) (n : ℕ) (s : Mmap) (j : ℕ)
    → IsOver n (create os [] n).0 s
    → get s j ≡ ok zero_record
create-unattempted os n s j over =
    let long : length (create os [] n).0 ≡ n * width =
      sym (ap length over.holds) ∙ over.live.sized ∙ ap (λ k. k * width) over.sized in
    let zeros = create-zeros os n over.nonempty long in
    let same : s ≡ fresh n = λ i. record {
      file = (over.holds ∙ zeros) i;
      mapped = over.live.is_mapped i;
      n = over.sized i;
    } in
    ap (λ t. get t j) same ∙ fresh-get n j
