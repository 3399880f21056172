-- ===== src/Store/Staging.antt =====
-- The staging/ directory of store/store.go, one directory of chunk files for each merkle root, and
-- the sweeps of store/store.go and store/stream.go that cmd/staging_sweeper.go runs.
use text.Mathlib.Text.{starts_with}
use obsideo_provider.Base.{
  ℕ, ◌+◌, Option, none, some, List, [], ◌∷◌, String, Bool, not, ltb, if◌then◌else◌,
}
use obsideo_provider.Base.Time.{Time}
use obsideo_provider.Base.Dir.{lookup, insert, remove, has, names}
use obsideo_provider.Merkle.Codec.{Bytes}
use obsideo_provider.Store.Disk.{Disk, StoreError, read_failed, write_failed}
use obsideo_provider.Store.Objects.{is_hex_name}

-- The files of one upload, and the modification time of their directory.
pub record StagingDir : Type 0 where
  pub files : List (String × Bytes)
  pub mtime : Time

abbrev pub Staging : Type 0
Staging = List (String × StagingDir)

-- What os.WriteFile does: all is written; the file is not opened; or it is cut short.
pub data WriteOutcome : Type 0 where
  written not_opened : WriteOutcome
  cut_short : Bytes → WriteOutcome

-- A file of these bytes in a directory, whose modification time is that of its newest entry.
abbrev pub place_file : Time → String → Bytes → StagingDir → StagingDir
place_file now name bytes dir = record {
  files = insert name bytes dir.files;
  mtime = if has name dir.files then dir.mtime else now;
}

abbrev pub write_file : WriteOutcome → Time → String → Bytes → StagingDir → StagingDir
write_file WriteOutcome.written now name bytes dir = place_file now name bytes dir
write_file WriteOutcome.not_opened now name bytes dir = dir
write_file (WriteOutcome.cut_short part) now name bytes dir = place_file now name part dir

-- os.MkdirAll: the directory that is there, or a new one.
abbrev pub open_dir : Time → Option StagingDir → StagingDir
open_dir now none = record { files = []; mtime = now }
open_dir now (some dir) = dir

-- `RemoveStaging`; a removal that fails is taken to leave the files as they are.
unfoldable pub remove_staging : (removes : Bool) → String → Staging → Staging
remove_staging removes merkle staging = if removes then remove merkle staging else staging

-- What happens to one entry while a sweep runs.
pub data SweepFault : Type 0 where
  no_fault stat_fails remove_fails : SweepFault

-- The count of the entries removed, and the first error.
pub record Swept : Type 0 where
  pub cleaned : ℕ
  pub first_err : Option StoreError

abbrev pub note_err : StoreError → Swept → Swept
note_err e w = record {
  cleaned = w.cleaned;
  first_err = elim w.first_err [ none ↦ some e | some first ↦ some first ];
}

module _ {A : Type 0} (mtime_of : A → Time) (swept_name : String → Bool) where
  -- One round: skipped, kept as it is new, or removed.
  unfoldable pub sweep_entry :
      (fault : SweepFault)
      → (now : Time) → (max_age : ℕ) → String
      → Swept
      → List (String × A)
      → Swept × List (String × A)
  sweep_entry fault now max_age name w dir =
      if not (swept_name name) then (w, dir) else (elim (lookup name dir) [
        | none ↦ (w, dir)
        | some entry ↦ elim fault [
          | stat_fails ↦ (note_err read_failed w, dir)
          | remove_fails ↦
              if ltb now (mtime_of entry + max_age)
              then (w, dir)
              else (note_err write_failed w, dir)
          | no_fault ↦
              if ltb now (mtime_of entry + max_age)
              then (w, dir)
              else (record w { cleaned = w.cleaned + 1 }, remove name dir)
        ]
      ])

  -- The loop over the names that os.ReadDir listed.
  unfoldable pub sweep_loop :
      (String → SweepFault)
      → Time
      → ℕ
      → List String
      → Swept
      → List (String × A)
      → Swept × List (String × A)
  unfolding sweep_entry
  sweep_loop faults now max_age [] w dir = (w, dir)
  sweep_loop faults now max_age (name ∷ rest) w dir =
      let (w', dir') = sweep_entry (faults name) now max_age name w dir in
      sweep_loop faults now max_age rest w' dir'

abbrev pub nothing_swept : Swept
nothing_swept = record { cleaned = 0; first_err = none }

-- `SweepStaleStaging`; `lists` is false if staging/ cannot be read.
unfoldable pub sweep_stale_staging :
    (lists : Bool) → (String → SweepFault) → Time → ℕ → Staging → Swept × Staging
unfolding sweep_loop
sweep_stale_staging lists faults now max_age staging =
    if lists
    then sweep_loop (λ d. d.mtime) is_hex_name faults now max_age (names staging) nothing_swept
        staging
    else (record nothing_swept { first_err = some read_failed }, staging)

abbrev pub is_temp_name : String → Bool
is_temp_name name = starts_with name ".tmp-stream-"

-- `SweepStaleObjectTemps`
unfoldable pub sweep_stale_object_temps :
    (lists : Bool) → (String → SweepFault) → Time → ℕ → Disk → Swept × Disk
unfolding sweep_loop
sweep_stale_object_temps lists faults now max_age disk =
    let (w, objects') =
      sweep_loop (λ f. f.mtime) is_temp_name faults now max_age (names disk.objects) nothing_swept
        disk.objects in
    if lists
    then (w, record disk { objects = objects' })
    else (record nothing_swept { first_err = some read_failed }, disk)

-- One hour and six hours, in nanoseconds.
abbrev pub staging_max_age : ℕ
staging_max_age = 3600000000000

abbrev pub obj_temp_max_age : ℕ
obj_temp_max_age = 21600000000000

-- `tickStagingSweeper`: both sweeps, each at the time it begins, with its own faults.
unfoldable pub tick_staging_sweeper :
    (lists_staging lists_objects : Bool)
    → (staging_faults object_faults : String → SweepFault) → (now later : Time) → Staging × Disk
    → Staging × Disk
unfolding sweep_stale_staging sweep_stale_object_temps
tick_staging_sweeper lists_staging lists_objects staging_faults object_faults now later state = (
  (sweep_stale_staging lists_staging staging_faults now staging_max_age state.0).1,
  (sweep_stale_object_temps lists_objects object_faults later obj_temp_max_age state.1).1,
)
