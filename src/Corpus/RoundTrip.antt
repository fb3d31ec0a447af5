-- ===== src/Corpus/RoundTrip.antt =====
-- internal/corpus/corpus.go: what `Write` stores, `Load` and `Verify` accept.
use www_scanner.Prelude.{
  ℕ, ◌<◌, ◌≡◌, ◌≢◌, refl, ap, ◌∙◌, false, List, [], ◌∷◌, ◌++◌, some, ok, panic, leb, length, All,
  ◌==◌, Text, eq_text, eq_text_iff, arith,
}
use www_scanner.Corpus.Normalize.{normalize, lines, scan_text}
use www_scanner.Corpus.Files.{Manifest, line_limit, read_domains, load, file_of, write, verify}

-- a domain as `parseRanked` gives it: a line that is read as itself
pub record IsClean (d : Text) : Type 0 where
  pub one_line : All (λ c. c ≢ 10) d
  pub fits : length d < line_limit
  pub same_text : scan_text d ≡ d
  pub same_domain : normalize d ≡ d
  pub some_text : d ≢ []

lines-line : (d rest : Text) → All (λ c. c ≢ 10) d → lines (d ++ (10 ∷ rest)) ≡ d ∷ lines rest
unfolding lines
lines-line [] rest h = refl
lines-line (c ∷ d) rest (h, hs) =
    let stays : (c == 10) ≡ false = ground arith in rw (stays, lines-line d rest hs, lines) refl

lines-file_of : (ds : List Text) → All IsClean ds → lines (file_of ds) ≡ ds
unfolding file_of lines
lines-file_of [] h = refl
lines-file_of (d ∷ ds) (h, hs) =
    lines-line d (file_of ds) h.one_line ∙ ap (λ l. d ∷ l) (lines-file_of ds hs)

read_domains-clean : (ds : List Text) → All IsClean ds → read_domains ds ≡ ok ds
unfolding read_domains
read_domains-clean [] h = refl
read_domains-clean (d ∷ ds) (h, hs) =
    let short : leb line_limit (length d) ≡ false = ground (arith, h.fits) in
    let same : normalize (scan_text d) ≡ d = ap normalize h.same_text ∙ h.same_domain in
    let kept : eq_text (normalize (scan_text d)) [] ≡ false =
      ground (arith, eq_text_iff (normalize (scan_text d)) [], same, h.some_text) in
    rw (short, kept, read_domains-clean ds hs, read_domains) (ap (λ x. ok (x ∷ ds)) same)

length-ne : (ds : List Text) → ds ≢ [] → length ds ≢ 0
length-ne [] ne e = ne refl
length-ne (d ∷ ds) ne e = absurd (omega arith)

-- A list of at least one clean domain comes back from its file and its manifest: `Load` gives the same domains in the
-- same order, and `Verify` finds no error, whatever the checksum function is.
pub load-write :
    (sha256_of : Text → Text) (now : ℕ) (ds : List Text) (m : Manifest)
    → ds ≢ []
    → All IsClean ds
    → let w = write sha256_of now ds m in
      (load w.0 (some w.1) ≡ ok ds) × (verify sha256_of now w.0 (some w.1) ≡ ok tt)
unfolding load write verify
load-write sha256_of now ds m ne h =
    let some_domains : length ds ≢ 0 = length-ne ds ne in
    let same : read_domains (lines (file_of ds)) ≡ ok ds =
      rw (lines-file_of ds h) (read_domains-clean ds h) in
    let sum = sha256_of (file_of ds) in
    (rw (same, load) (ground (arith, some_domains)), rw ((eq_text_iff sum sum).1 refl) refl)

-- `Verify` does not report a mismatch but panics, if the checksum of the manifest has fewer than 12 characters, as when
-- the field is missing from a manifest written by hand.
pub verify_short_checksum :
    (sha256_of : Text → Text) (now : ℕ) (content : Text) (m : Manifest)
    → length m.sha256 < 12
    → sha256_of content ≢ m.sha256
    → verify sha256_of now content (some m) ≡ panic
unfolding verify
verify_short_checksum sha256_of now content m short differs =
    ground (arith, eq_text_iff (sha256_of content) m.sha256)
