-- ===== src/Corpus/Imported.antt =====
-- internal/corpus/tranco.go: a list that was imported can be scanned.
use www_scanner.Prelude.{
  ℕ, ◌≡◌, ◌≢◌, List, [], ◌∷◌, some, ok, true, false, All, Always, Always-elim, Always-if,
  Always-bind, map_err, length, ◌==◌, Text,
}
use www_scanner.Corpus.Files.{Manifest, load, verify}
use www_scanner.Corpus.Ranked.{parse_ranked}
use www_scanner.Corpus.RoundTrip.{IsClean, load-write}
use www_scanner.Corpus.Import.{not_parsed, ranked_domains, from_file}

true-false : true ≢ false
true-false h = cc

length-nonempty : (ds : List Text) → (length ds == 0) ≡ false → ds ≢ []
length-nonempty [] h e = absurd (true-false h)
length-nonempty (d ∷ ds) h e = cc

ranked_domains-nonempty :
    (content : Text) (limit : ℕ) → Always (λ ds. ds ≢ []) (ranked_domains content limit)
unfolding ranked_domains
ranked_domains-nonempty content limit =
    Always-bind (λ ds. ds ≢ []) (map_err not_parsed (parse_ranked content limit)) _
      (λ ds e.
        Always-if (λ ds. ds ≢ []) (length ds == 0) _ _ (λ _. tt)
          (λ some_left. length-nonempty ds some_left))

-- An imported corpus can be scanned: if the domains that `FromFile` reads are clean, that is `normalize` leaves them as they
-- are, then `Load` of the file and the manifest that it writes gives these domains in their order, and `Verify` finds no
-- error.
pub from_file-load :
    (sha256_of : Text → Text) (now : ℕ) (src content : Text) (limit : ℕ) (ds : List Text)
    (written : Text × Manifest)
    → ranked_domains content limit ≡ ok ds
    → All IsClean ds
    → from_file sha256_of now src (some content) limit ≡ ok written
    → (load written.0 (some written.1) ≡ ok ds)
      × (verify sha256_of now written.0 (some written.1) ≡ ok tt)
unfolding from_file
from_file-load sha256_of now src content limit ds written read clean =
    Always-elim good _ written (rw read (load-write sha256_of now ds _ nonempty clean))
  where
    good : Text × Manifest → Type 0
    good v = (load v.0 (some v.1) ≡ ok ds) × (verify sha256_of now v.0 (some v.1) ≡ ok tt)

    nonempty : ds ≢ []
    nonempty = Always-elim (λ ds. ds ≢ []) _ ds (ranked_domains-nonempty content limit) read
