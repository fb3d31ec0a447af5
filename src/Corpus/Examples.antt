-- ===== src/Corpus/Examples.antt =====
-- Tests of internal/corpus, and its theorems at concrete lists.
use www_scanner.Prelude.{
  false, Option, none, eq_text, if◌then◌else◌, ℕ, ◌≤◌, ◌<◌, ◌≡◌, ◌⊎◌, refl, List, [], ◌∷◌, ◌++◌,
  some, ok, All, length, Text, text, arith,
}
use www_scanner.Corpus.Normalize.{normalize, lines, scan_text}
use www_scanner.Corpus.Files.{Manifest, load, write, verify}
use www_scanner.Corpus.Ranked.{
  IsShort, IsRead, IsListed, IsDistinct, parse_ranked, parse_ranked_lem,
}
use www_scanner.Corpus.Import.{ranked_domains, from_file}
use www_scanner.Corpus.Imported.{from_file-load}
use www_scanner.Corpus.RoundTrip.{IsClean}
use www_scanner.Prelude.WriteFile.{write_file}
use www_scanner.Corpus.Disk.{Disk, WriteFaults, write_disk, load_disk, verify_disk, write_disk-load}

normalized :
    (normalize (text " 12,Example.COM. ") ≡ text "example.com")
    × (normalize (text "# a.com") ≡ [])
    × (normalize (text "localhost") ≡ [])
    × (normalize (text "a.com..") ≡ text "a.com.")
unfolding normalize text
normalized = (refl, refl, refl, refl)

abbrev ranking : Text
ranking = text "1,b.com" ++ (13 ∷ 10 ∷ text "2,a.com") ++ (10 ∷ text "3,B.com")

parsed :
    (parse_ranked ranking 0 ≡ ok (text "b.com" ∷ text "a.com" ∷ []))
    × (parse_ranked ranking 1 ≡ ok (text "b.com" ∷ []))
unfolding parse_ranked normalize scan_text text
parsed = (refl, refl)

ranking_fits : All IsShort (lines ranking)
unfolding lines text
ranking_fits = (omega arith, (omega arith, (omega arith, tt)))

parse_ranked_example :
    (ds : List Text) × (parse_ranked ranking 1 ≡ ok ds)
    × IsDistinct ds
    × All (IsRead (lines ranking)) ds
    × ((◌≡◌ {A = ℕ} 1 0) ⊎ (length ds ≤ 1))
    × (((0 < 1) × (length ds ≡ 1)) ⊎ All (IsListed ds) (lines ranking))
parse_ranked_example = parse_ranked_lem ranking 1 ranking_fits

abbrev manifest : Manifest
manifest = record {
  source = [];
  source_url = [];
  list_id = [];
  fetched = 0;
  count = 0;
  sha256 = [];
  description = [];
}

a_com-IsClean : IsClean (text "a.com")
unfolding normalize scan_text text
a_com-IsClean = record {
  one_line = (
    λ e. absurd (omega arith),
    (
      λ e. absurd (omega arith),
      (λ e. absurd (omega arith), (λ e. absurd (omega arith), (λ e. absurd (omega arith), tt))),
    ),
  );
  fits = omega arith;
  same_text = refl;
  same_domain = refl;
  some_text = λ e. cc;
}

abbrev one_domain : List Text
one_domain = text "a.com" ∷ []

abbrev stored : Text × Manifest
stored = write (λ content. content) 5 one_domain manifest

-- the JSON of the one manifest that is written
abbrev to_json : Manifest → Text
to_json m = text "{}"

abbrev of_json : Text → Option Manifest
of_json content = if eq_text content (text "{}" ++ (10 ∷ [])) then some stored.1 else none

abbrev no_faults : WriteFaults
no_faults = record {
  create_fails = false;
  cut_at = none;
  close_cut_at = none;
  on_sidecar = record { open_fails = false; cut_at = none };
}

abbrev empty_disk : Disk
empty_disk = record { corpus = none; sidecar = none }

write_succeeds :
    (write_disk (λ content. content) 5 to_json of_json no_faults empty_disk one_domain manifest).1
    ≡ ok stored.1
unfolding write_disk write_file text
write_succeeds = refl

json_read : of_json (to_json stored.1 ++ (10 ∷ [])) ≡ some stored.1
unfolding text eq_text
json_read = refl

write_disk-load_example :
    let d =
      (write_disk
        (λ content. content)
        5
        to_json
        of_json
        no_faults
        empty_disk
        one_domain
        manifest).0 in
    (load_disk (λ content. content) 5 to_json of_json d ≡ ok one_domain)
    × (verify_disk (λ content. content) 5 to_json of_json d ≡ ok tt)
write_disk-load_example =
    write_disk-load (λ content. content) 5 to_json of_json no_faults empty_disk one_domain manifest
      stored.1 json_read write_succeeds (λ e. cc) (a_com-IsClean, tt)

list_succeeds : ranked_domains (text "1,a.com") 0 ≡ ok one_domain
unfolding ranked_domains parse_ranked normalize scan_text text
list_succeeds = refl

abbrev imported : Text × Manifest
imported =
    write (λ content. text "00") 7 one_domain
      (record manifest {
        source = text "file";
        source_url = text "l.csv";
        fetched = 7;
        description = text "imported from " ++ text "l.csv";
      })

import_succeeds :
    from_file (λ content. text "00") 7 (text "l.csv") (some (text "1,a.com")) 0 ≡ ok imported
unfolding from_file
import_succeeds = rw list_succeeds refl

from_file-load_example :
    (load imported.0 (some imported.1) ≡ ok one_domain)
    × (verify (λ content. text "00") 7 imported.0 (some imported.1) ≡ ok tt)
from_file-load_example =
    from_file-load (λ content. text "00") 7 (text "l.csv") (text "1,a.com") 0 one_domain imported
      list_succeeds (a_com-IsClean, tt) import_succeeds
