-- ===== src/System/Within.antt =====
-- Operations on the store that bring in no bytes: deletions, moves, and writes of records.
use obsideo_provider.Base.{
  ◌≡◌, refl, sym, ap, ◌∙◌, ◌⊎◌, inl, inr, some, List, String, Bool, true, false, arith, str_eq,
  eq_iff, Bool-cases, Option-cases,
}
use obsideo_provider.Base.Time.{Time}
use obsideo_provider.Base.Dir.{lookup, insert, remove, lookup-insert, lookup-remove}
use obsideo_provider.Merkle.Codec.{Codec}
use obsideo_provider.Merkle.Batch.{Index}
use obsideo_provider.Store.Disk.{Disk, File, ObjectFile, CoverageAnswer}
use obsideo_provider.Store.Records.{
  FileKind, object_file, index_file, update_coverage, delete_coverage, delete_index_and_ownership,
  delete, remove_if,
}
use obsideo_provider.Store.Addressed.{HasRoot, IsAddressed}
use obsideo_provider.Gc.Quarantine.{
  MoveFault, moves, mkdir_fails, stat_fails, rename_fails, chtimes_fails, move_to_quarantine,
  restore_from_quarantine, unlink_from_quarantine, moved_in,
}

-- The bytes of a file were there under this name, live or in quarantine.
abbrev pub Had : String → ObjectFile → Disk → Type 0
Had k f disk =
    (g : ObjectFile) × (f.contents ≡ g.contents)
    × ((lookup k disk.objects ≡ some g) ⊎ (lookup k disk.quarantine ≡ some g))

-- After an operation there are no bytes and no index but those before it, under the same name.
pub record Within (after before : Disk) : Type 0 where
  pub objects : (k : String) (f : ObjectFile) → lookup k after.objects ≡ some f → Had k f before
  pub quarantine :
      (k : String) (f : ObjectFile) → lookup k after.quarantine ≡ some f → Had k f before
  pub index :
      (k : String) (i : File Index) → lookup k after.index ≡ some i → lookup k before.index ≡ some i

pub Within-refl : (d : Disk) → Within d d
Within-refl d = record {
  objects = λ k f e. (f, refl, inl e);
  quarantine = λ k f e. (f, refl, inr e);
  index = λ k i e. e;
}

Had-trans : (k : String) (f : ObjectFile) (b a : Disk) → Within b a → Had k f b → Had k f a
Had-trans k f b a within (g, same, inl live) =
    let (h, same', there) = within.objects k g live in (h, same ∙ same', there)
Had-trans k f b a within (g, same, inr held) =
    let (h, same', there) = within.quarantine k g held in (h, same ∙ same', there)

pub Within-trans : (c b a : Disk) → Within c b → Within b a → Within c a
Within-trans c b a one two = record {
  objects = λ k f e. Had-trans k f b a two (one.objects k f e);
  quarantine = λ k f e. Had-trans k f b a two (one.quarantine k f e);
  index = λ k i e. two.index k i (one.index k i e);
}

-- What belongs to its name goes on to belong to it.
pub Within-IsAddressed :
    (c : Codec) (after before : Disk)
    → Within after before
    → IsAddressed c before
    → IsAddressed c after
Within-IsAddressed c after before within valid = record {
  live = λ k f e. had k f (within.objects k f e);
  held = λ k f e. had k f (within.quarantine k f e);
  indexed = λ k idx e. valid.indexed k idx (within.index k _ e);
}
  where
    had :
        (k : String) (f : ObjectFile)
        → Had k f before
        → (hashes : List String) × HasRoot c f.contents k hashes
    had k f (g, same, inl live) =
        let (hashes, right) = valid.live k g live in (hashes, rw same right)
    had k f (g, same, inr held) =
        let (hashes, right) = valid.held k g held in (hashes, rw same right)

-- No object, quarantined file or index is touched.
pub untouched :
    (after before : Disk)
    → after.objects ≡ before.objects
    → after.quarantine ≡ before.quarantine
    → after.index ≡ before.index
    → Within after before
untouched after before o q i = record {
  objects = λ k f e. (f, refl, inl (sym (ap (lookup k) o) ∙ e));
  quarantine = λ k f e. (f, refl, inr (sym (ap (lookup k) q) ∙ e));
  index = λ k f e. sym (ap (lookup k) i) ∙ e;
}

pub remove-subset {ℓ} :
    {A : Type ℓ} (name k : String) (dir : List (String × A)) (a : A)
    → lookup k (remove name dir) ≡ some a
    → lookup k dir ≡ some a
remove-subset name k dir a e = ground (arith, e, lookup-remove name k dir)

remove_if-subset {ℓ} :
    {A : Type ℓ} (removes : Bool) (name k : String) (dir : List (String × A)) (a : A)
    → lookup k (remove_if removes name dir) ≡ some a
    → lookup k dir ≡ some a
remove_if-subset true name k dir a e = remove-subset name k dir a e
remove_if-subset false name k dir a e = e

pub update_coverage-Within :
    (writes : Bool) (name : String) (answer : CoverageAnswer) (now : Time) (disk : Disk)
    → Within (update_coverage writes name answer now disk).1 disk
unfolding update_coverage
update_coverage-Within writes name answer now disk =
    untouched _ disk (ground arith) (ground arith) (ground arith)

pub delete_coverage-Within :
    (removes : Bool) (name : String) (disk : Disk)
    → Within (delete_coverage removes name disk).1 disk
unfolding delete_coverage
delete_coverage-Within removes name disk =
    untouched _ disk (ground arith) (ground arith) (ground arith)

pub delete_index_and_ownership-Within :
    (removes : FileKind → Bool) (name : String) (disk : Disk)
    → Within (delete_index_and_ownership removes name disk) disk
unfolding delete_index_and_ownership
delete_index_and_ownership-Within removes name disk = record {
  objects = λ k f e. (f, refl, inl e);
  quarantine = λ k f e. (f, refl, inr e);
  index = λ k i e. remove_if-subset (removes index_file) name k disk.index i e;
}

pub delete-Within :
    (removes : FileKind → Bool) (name : String) (disk : Disk)
    → Within (delete removes name disk) disk
unfolding delete
delete-Within removes name disk = record {
  objects =
      λ k f e. (f, refl, inl (remove_if-subset (removes object_file) name k disk.objects f e));
  quarantine = λ k f e. (f, refl, inr e);
  index = λ k i e. remove_if-subset (removes index_file) name k disk.index i e;
}

-- An entry after an insertion is the new one, or was there.
insert_cases {ℓ} :
    {A : Type ℓ} (name k : String) (new a : A) (dir : List (String × A))
    → lookup k (insert name new dir) ≡ some a
    → ((name ≡ k) × (a ≡ new)) ⊎ (lookup k dir ≡ some a)
insert_cases name k new a dir e = elim (Bool-cases (str_eq name k)) [
  | inl same ↦ inl ((eq_iff name k).0 same, ground (arith, e, lookup-insert name k new dir))
  | inr other ↦ inr (ground (arith, e, lookup-insert name k new dir))
]

-- The file that goes back was in quarantine.
restored-Within :
    (name : String) (file : ObjectFile) (disk : Disk)
    → lookup name disk.quarantine ≡ some file
    → Within
        (record disk {
          objects = insert name file disk.objects;
          quarantine = remove name disk.quarantine;
        })
        disk
restored-Within name file disk found = record {
  objects = λ k f e. elim (insert_cases name k file f disk.objects e) [
    | inl (here, same) ↦ (
      file,
      ap (λ g. g.contents) same,
      inr (ap (λ n. lookup n disk.quarantine) (sym here) ∙ found),
    )
    | inr there ↦ (f, refl, inl there)
  ];
  quarantine = λ k f e. (f, refl, inr (remove-subset name k disk.quarantine f e));
  index = λ k i e. e;
}

-- The file that goes into quarantine was live.
moved_in-Within :
    (name : String) (file moved : ObjectFile) (disk : Disk)
    → lookup name disk.objects ≡ some file
    → moved.contents ≡ file.contents
    → Within (moved_in name moved disk) disk
moved_in-Within name file moved disk found same_bytes = record {
  objects = λ k f e. (f, refl, inl (remove-subset name k disk.objects f e));
  quarantine = λ k f e. elim (insert_cases name k moved f disk.quarantine e) [
    | inl (here, same) ↦ (
      file,
      ap (λ g. g.contents) same ∙ same_bytes,
      inl (ap (λ n. lookup n disk.objects) (sym here) ∙ found),
    )
    | inr there ↦ (f, refl, inr there)
  ];
  index = λ k i e. e;
}

pub restore-Within :
    (succeeds : Bool) (name : String) (disk : Disk)
    → Within (restore_from_quarantine succeeds name disk).1 disk
unfolding restore_from_quarantine
restore-Within true name disk = elim (Option-cases (lookup name disk.quarantine)) [
  | inl missing ↦ rw (restore_from_quarantine, missing) (Within-refl disk)
  | inr (file, found) ↦ rw (restore_from_quarantine, found) (restored-Within name file disk found)
]
restore-Within false name disk = untouched _ disk (ground arith) (ground arith) (ground arith)

pub unlink-Within :
    (succeeds : Bool) (name : String) (disk : Disk)
    → Within (unlink_from_quarantine succeeds name disk).1 disk
unfolding unlink_from_quarantine
unlink-Within true name disk = elim (Option-cases (lookup name disk.quarantine)) [
  | inl missing ↦ rw (unlink_from_quarantine, missing) (Within-refl disk)
  | inr (file, found) ↦
      rw (unlink_from_quarantine, found)
        (record {
          objects = λ k f e. (f, refl, inl e);
          quarantine = λ k f e. (f, refl, inr (remove-subset name k disk.quarantine f e));
          index = λ k i e. e;
        })
]
unlink-Within false name disk = untouched _ disk (ground arith) (ground arith) (ground arith)

pub move-Within :
    (fault : MoveFault) (name : String) (now : Time) (disk : Disk)
    → Within (move_to_quarantine fault name now disk).1 disk
unfolding move_to_quarantine
move-Within mkdir_fails name now disk = Within-refl disk
move-Within stat_fails name now disk = Within-refl disk
move-Within moves name now disk = elim (Option-cases (lookup name disk.objects)) [
  | inl missing ↦ rw (move_to_quarantine, missing) (Within-refl disk)
  | inr (file, found) ↦
      rw (move_to_quarantine, found)
        (moved_in-Within name file (record file { mtime = now }) disk found refl)
]
move-Within rename_fails name now disk = elim (Option-cases (lookup name disk.objects)) [
  | inl missing ↦ rw (move_to_quarantine, missing) (Within-refl disk)
  | inr (file, found) ↦ rw (move_to_quarantine, found) (Within-refl disk)
]
move-Within chtimes_fails name now disk = elim (Option-cases (lookup name disk.objects)) [
  | inl missing ↦ rw (move_to_quarantine, missing) (Within-refl disk)
  | inr (file, found) ↦
      rw (move_to_quarantine, found) (moved_in-Within name file file disk found refl)
]
