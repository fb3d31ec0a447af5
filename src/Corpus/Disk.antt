-- ===== src/Corpus/Disk.antt =====
-- internal/corpus/corpus.go: `Write`, `LoadManifest`, `Load` and `Verify` on a file and its sidecar, with what the file
-- system refuses. The JSON of a manifest is a parameter.
use www_scanner.Prelude.{
  ℕ, ◌≡◌, ◌≢◌, refl, Bool, List, [], ◌∷◌, ◌++◌, Option, none, some, Result, ok, err, panic, map_err,
  ◌>>=◌, take, All, if◌then◌else◌, Text, arith,
}
use www_scanner.Prelude.WriteFile.{FileFaults, write_file}
use www_scanner.Corpus.Files.{Manifest, file_of, write, load, verify}
use www_scanner.Corpus.Files as Files
use www_scanner.Corpus.RoundTrip.{IsClean, load-write}

-- the file at a path and the one with `.json` behind its name
pub record Disk : Type 0 where
  pub corpus : Option Text
  pub sidecar : Option Text

-- What fails: the creation of the file, its writing or the last flush after so many bytes, its closing, which
-- then leaves so many bytes of it, and what concerns the sidecar.
pub record WriteFaults : Type 0 where
  pub create_fails : Bool
  pub cut_at : Option ℕ
  pub close_cut_at : Option ℕ
  pub on_sidecar : FileFaults

pub data WriteError : Type 0 where
  create_corpus : WriteError
  write_corpus : WriteError
  close_corpus : WriteError
  write_manifest : WriteError

pub data DiskError : Type 0 where
  not_read : DiskError
  not_parsed : DiskError
  bad_corpus : Files.Error → DiskError

module _ (sha256_of : Text → Text) (now : ℕ) (marshal : Manifest → Text)
    (unmarshal : Text → Option Manifest) where
  -- `Write`: the disk afterwards, and the manifest as stored
  unfoldable pub write_disk :
      WriteFaults → Disk → List Text → Manifest → Disk × Result WriteError Manifest
  write_disk faults d ds m =
      let written = write sha256_of now ds m in
      if faults.create_fails then (d, err create_corpus) else elim faults.cut_at [
        | some n ↦ (record d { corpus = some (take n (written.0)) }, err write_corpus)
        | none ↦
            let d' : Disk = record d { corpus = some (written.0) } in
            let last = write_file faults.on_sidecar (marshal (written.1) ++ (10 ∷ [])) d.sidecar in
            elim faults.close_cut_at [
              | some n ↦ (record d { corpus = some (take n (written.0)) }, err close_corpus)
              | none ↦ (
                record d' { sidecar = last.0 },
                if last.1 then ok (written.1) else err write_manifest,
              )
            ]
      ]

  -- `LoadManifest`
  unfoldable pub load_manifest : Disk → Result DiskError Manifest
  load_manifest d = elim d.sidecar [
    | none ↦ err not_read
    | some b ↦ elim (unmarshal b) [ none ↦ err not_parsed | some m ↦ ok m ]
  ]

  -- the manifest that `Load` goes by, which ignores the error of `LoadManifest`
  abbrev pub manifest_of : Result DiskError Manifest → Option Manifest
  manifest_of (ok m) = some m
  manifest_of (err e) = none
  manifest_of panic = none

  -- `Load`
  unfoldable pub load_disk : Disk → Result DiskError (List Text)
  load_disk d = elim d.corpus [
    | none ↦ err not_read
    | some content ↦ map_err bad_corpus (load content (manifest_of (load_manifest d)))
  ]

  -- `Verify`
  unfoldable pub verify_disk : Disk → Result DiskError (Unit {0})
  verify_disk d = load_manifest d >>= λ m. elim d.corpus [
    | none ↦ err not_read
    | some content ↦ map_err bad_corpus (verify sha256_of now content (some m))
  ]

  -- the disk after a `Write` that nothing disturbs
  abbrev written_disk : List Text → Manifest → Disk
  written_disk ds m = record {
    corpus = some (write sha256_of now ds m).0;
    sidecar = some (marshal (write sha256_of now ds m).1 ++ (10 ∷ []));
  }

  write_disk-written :
      (faults : WriteFaults) (d : Disk) (ds : List Text) (m m' : Manifest)
      → (write_disk faults d ds m).1 ≡ ok m'
      → (write_disk faults d ds m).0 ≡ written_disk ds m
  unfolding write_disk write_file
  write_disk-written faults d ds m m' h = ground arith

  -- A corpus whose `Write` reports no error is there whole, whatever the file system may refuse: of at least one clean
  -- domain `Load` gives back the same domains in the same order, and `Verify` finds no error. JSON is assumed to give
  -- back the manifest that `Write` encoded.
  pub write_disk-load :
      (faults : WriteFaults) (d : Disk) (ds : List Text) (m m' : Manifest)
      → unmarshal (marshal (write sha256_of now ds m).1 ++ (10 ∷ []))
        ≡ some (write sha256_of now ds m).1
      → (write_disk faults d ds m).1 ≡ ok m'
      → ds ≢ []
      → All IsClean ds
      → (load_disk (write_disk faults d ds m).0 ≡ ok ds)
        × (verify_disk (write_disk faults d ds m).0 ≡ ok tt)
  unfolding load_disk verify_disk load_manifest
  write_disk-load faults d ds m m' read succeeds ne clean =
      let whole = write_disk-written faults d ds m m' succeeds in
      let (loads, verifies) = load-write sha256_of now ds m ne clean in
      rw whole (rw (read, loads) refl, rw (read, verifies) refl)
