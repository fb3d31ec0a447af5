-- ===== src/Corpus/Ranked.antt =====
-- internal/corpus/tranco.go: `parseRanked`, which reads a ranked list.
use www_scanner.Prelude.{
  ℕ, suc, some, get_elem?, ◌+◌, ◌≤◌, ◌<◌, ◌≡◌, ◌≢◌, ◌⊎◌, inl, inr, refl, Bool, true, false, ◌&&◌,
  ◌||◌, List, [], ◌∷◌, Result, ok, err, panic, leb, ltb, length, All, if◌then◌else◌, Text, eq_text,
  eq_text_iff, Bool-cases, arith,
}
use www_scanner.Corpus.Normalize.{normalize, scan_text, lines}
use www_scanner.Corpus.Files.{Error, line_too_long, line_limit}

-- `_, dup := seen[d]`
abbrev pub seen_in : Text → List Text → Bool
seen_in d [] = false
seen_in d (x ∷ xs) = eq_text x d || seen_in d xs

-- the loop of `parseRanked`, with the domains seen so far: the domains that it still adds
unfoldable pub parse_in : ℕ → List Text → List Text → Result Error (List Text)
parse_in limit seen [] = ok []
parse_in limit seen (l ∷ ls) =
    let d = normalize (scan_text l) in
    let skipping = parse_in limit seen ls in
    let adding = parse_in limit (d ∷ seen) ls in
    if leb line_limit (length l)
    then err line_too_long
    else if eq_text d []
    then skipping
    else if seen_in d seen
    then skipping
    else if ltb 0 limit && leb limit (length seen + 1)
    then ok (d ∷ [])
    else elim adding [ ok ds ↦ ok (d ∷ ds) | err e ↦ err e | panic ↦ panic ]

-- `parseRanked`, of the content of a file
unfoldable pub parse_ranked : Text → ℕ → Result Error (List Text)
unfolding lines parse_in
parse_ranked content limit = parse_in limit [] (lines content)

-- a domain that one of the lines is read as
abbrev pub IsRead : List Text → Text → Type 0
IsRead ls d =
    (i : ℕ) × (l : Text) × (get_elem? ls i ≡ some l) × (normalize (scan_text l) ≡ d) × (d ≢ [])

-- a line that is no domain, or whose domain is listed
abbrev pub IsListed : List Text → Text → Type 0
IsListed ds l = (normalize (scan_text l) ≡ []) ⊎ (seen_in (normalize (scan_text l)) ds ≡ true)

-- the limit is reached
abbrev IsFull : ℕ → ℕ → Type 0
IsFull limit n = (0 < limit) × (limit ≤ n)

abbrev pub IsDistinct : List Text → Type 0
IsDistinct [] = Unit
IsDistinct (d ∷ ds) = (seen_in d ds ≡ false) × IsDistinct ds

-- a line that is no domain, or whose domain is among the older or the later ones
abbrev IsKnown : List Text → List Text → Text → Type 0
IsKnown seen ds l =
    (normalize (scan_text l) ≡ [])
    ⊎ (seen_in (normalize (scan_text l)) seen ≡ true)
    ⊎ (seen_in (normalize (scan_text l)) ds ≡ true)

-- what the rest of the loop adds, over the lines left
record IsFresh (limit : ℕ) (ls seen ds : List Text) : Type 0 where
  f_distinct : IsDistinct ds
  f_new : All (λ d. seen_in d seen ≡ false) ds
  f_read : All (IsRead ls) ds
  f_limit : (limit ≡ 0) ⊎ (limit ≤ length seen) ⊎ (length seen + length ds ≤ limit)
  f_known : IsFull limit (length seen + length ds) ⊎ All (IsKnown seen ds) ls

More-IsRead : (l : Text) (ls ds : List Text) → All (IsRead ls) ds → All (IsRead (l ∷ ls)) ds
More-IsRead l ls [] h = tt
More-IsRead l ls (d ∷ ds) ((i, k, at_i, e, ne), hs) =
    ((suc i, k, at_i, e, ne), More-IsRead l ls ds hs)

later-IsKnown :
    (d : Text) (seen ds ls : List Text)
    → All (IsKnown (d ∷ seen) ds) ls
    → All (IsKnown seen (d ∷ ds)) ls
later-IsKnown d seen ds [] h = tt
later-IsKnown d seen ds (l ∷ ls) (h, hs) = (ground (arith, h), later-IsKnown d seen ds ls hs)

listed : (ds ls : List Text) → All (IsKnown [] ds) ls → All (IsListed ds) ls
listed ds [] h = tt
listed ds (l ∷ ls) (h, hs) = (ground (arith, h), listed ds ls hs)

not-seen :
    (d : Text) (seen ds : List Text)
    → All (λ x. seen_in x (d ∷ seen) ≡ false) ds
    → seen_in d ds ≡ false
not-seen d seen [] h = refl
not-seen d seen (x ∷ ds) (h, hs) =
    ground (arith, not-seen d seen ds hs, eq_text_iff d x, eq_text_iff x d)

older :
    (d : Text) (seen ds : List Text)
    → All (λ x. seen_in x (d ∷ seen) ≡ false) ds
    → All (λ x. seen_in x seen ≡ false) ds
older d seen [] h = h
older d seen (x ∷ ds) (h, hs) = (ground arith, older d seen ds hs)

-- a line that the scanner can take
abbrev pub IsShort : Text → Type 0
IsShort l = length l < line_limit

not_long : (l : Text) → IsShort l → leb line_limit (length l) ≡ false
not_long l h = ground arith

parse_in-IsFresh :
    (limit : ℕ) (ls seen : List Text)
    → All IsShort ls
    → (ds : List Text) × (parse_in limit seen ls ≡ ok ds) × IsFresh limit ls seen ds
unfolding parse_in
parse_in-IsFresh limit [] seen h = (
  [],
  refl,
  record { f_distinct = tt; f_new = tt; f_read = tt; f_limit = omega arith; f_known = inr tt },
)
parse_in-IsFresh limit (l ∷ ls) seen (h, hs) =
    let d = normalize (scan_text l) in
    let short = not_long l h in
    let (skipped, es, fs) = parse_in-IsFresh limit ls seen hs in
    let (added, ea, fa) = parse_in-IsFresh limit ls (d ∷ seen) hs in
    let skips : IsKnown seen skipped l → IsFresh limit (l ∷ ls) seen skipped = (λ known. record {
      f_distinct = fs.f_distinct;
      f_new = fs.f_new;
      f_read = More-IsRead l ls skipped fs.f_read;
      f_limit = fs.f_limit;
      f_known = elim fs.f_known [ inl full ↦ inl full | inr rest ↦ inr (known, rest) ];
    }) in
    elim (Bool-cases (eq_text d [])) [
      | inl empty ↦
          (skipped, rw (short, empty, parse_in) es, skips (inl ((eq_text_iff d []).0 empty)))
      | inr some_text ↦ elim (Bool-cases (seen_in d seen)) [
        | inl dup ↦ (skipped, rw (short, some_text, dup, parse_in) es, skips (inr (inl dup)))
        | inr new ↦
            let read : IsRead (l ∷ ls) d =
              (0, l, refl, refl, λ e. ground (arith, eq_text_iff d [])) in
            let itself : eq_text d d ≡ true = (eq_text_iff d d).1 refl in
            elim (Bool-cases (ltb 0 limit && leb limit (length seen + 1))) [
              | inl full ↦ (
                d ∷ [],
                rw (short, some_text, new, full, parse_in) refl,
                record {
                  f_distinct = (refl, tt);
                  f_new = (new, tt);
                  f_read = (read, tt);
                  f_limit = ground arith;
                  f_known = inl (ground arith);
                },
              )
              | inr room ↦ (
                d ∷ added,
                rw (short, some_text, new, room, ea, parse_in) refl,
                record {
                  f_distinct = (not-seen d seen added fa.f_new, fa.f_distinct);
                  f_new = (new, older d seen added fa.f_new);
                  f_read = (read, More-IsRead l ls added fa.f_read);
                  f_limit = ground (arith, fa.f_limit);
                  f_known = elim fa.f_known [
                    | inl full ↦ inl (full.0, omega (arith, full.1))
                    | inr rest ↦
                        inr (inr (inr (ground (arith, itself))), later-IsKnown d seen added ls rest)
                  ];
                },
              )
            ]
      ]
    ]

-- `parseRanked` reads any file whose lines fit the scanner's buffer. The domains are distinct, and each is what `normalize`
-- makes of a line of the file; there are no more than the limit, if one is set; and unless so many were found, every
-- line of the file that is a domain is among them.
pub parse_ranked_lem :
    (content : Text) (limit : ℕ)
    → All IsShort (lines content)
    → (ds : List Text) × (parse_ranked content limit ≡ ok ds)
      × IsDistinct ds
      × All (IsRead (lines content)) ds
      × ((limit ≡ 0) ⊎ (length ds ≤ limit))
      × (((0 < limit) × (length ds ≡ limit)) ⊎ All (IsListed ds) (lines content))
unfolding parse_ranked
parse_ranked_lem content limit h =
    let (ds, e, f) = parse_in-IsFresh limit (lines content) [] h in
    (
      ds,
      e,
      f.f_distinct,
      f.f_read,
      ground (arith, f.f_limit),
      elim f.f_known [
        | inl full ↦ inl (full.0, ground (arith, full.0, full.1, f.f_limit))
        | inr known ↦ inr (listed ds (lines content) known)
      ],
    )
