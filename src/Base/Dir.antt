-- ===== src/Base/Dir.antt =====
-- A directory of the file system: its entries by name, in the order of names in which
-- `os.ReadDir` lists them. One writer at a time changes an entry.
use Prim.Native.String.{String, compare}
use text.Mathlib.Text.{◌==◌, is_lt}
use text.Mathlib.TextEquality.{eq_iff}
use text.Mathlib.TextPositions.{eq_refl}
use mathlib.Core.Path.{◌≡◌, refl}
use mathlib.Core.Bool.{Bool}
use mathlib.Core.Option.{Option, none, some}
use mathlib.Core.List.{List, [], ◌∷◌, map}
use native.Mathlib.Omega.{arith}
use obsideo_provider.Base.Tests.{if◌then◌else◌, is_some}

-- The entries of a directory.
abbrev Entries {ℓ} : Type ℓ → Type ℓ
Entries A = List (String × A)

module _ {ℓ} {A : Type ℓ} where
  -- Open, stat or read by name: `none` is os.ErrNotExist.
  unfoldable pub lookup : String → List (String × A) → Option A
  lookup name [] = none
  lookup name ((first, file) ∷ dir) =
      let behind = lookup name dir in if first == name then some file else behind

  -- A file renamed into place: it replaces the file of that name, or is new.
  unfoldable pub insert : String → A → List (String × A) → List (String × A)
  insert name new [] = (name, new) ∷ []
  insert name new ((first, file) ∷ dir) =
      let behind = insert name new dir in
      if is_lt (compare name first)
      then (name, new) ∷ (first, file) ∷ dir
      else if first == name
      then (name, new) ∷ dir
      else (first, file) ∷ behind

  -- os.Remove: nothing happens to a name that is not there.
  unfoldable pub remove : String → List (String × A) → List (String × A)
  remove name [] = []
  remove name ((first, file) ∷ dir) =
      let behind = remove name dir in if first == name then behind else (first, file) ∷ behind

  abbrev pub has : String → List (String × A) → Bool
  has name dir = is_some (lookup name dir)

  abbrev pub names : List (String × A) → List String
  names = map λ e. e.0

  pub lookup-insert :
      (name asked : String) (new : A) (dir : Entries A)
      → lookup asked (insert name new dir) ≡ (if name == asked then some new else lookup asked dir)
  unfolding insert lookup
  lookup-insert name asked new [] = refl
  lookup-insert name asked new ((first, file) ∷ dir) =
      let behind = lookup-insert name asked new dir in
      ground (arith, behind, eq_iff first asked, eq_iff first name, eq_iff name asked)

  pub lookup-remove :
      (name asked : String) (dir : Entries A)
      → lookup asked (remove name dir) ≡ (if name == asked then none else lookup asked dir)
  unfolding remove lookup
  lookup-remove name asked [] = ground arith
  lookup-remove name asked ((first, file) ∷ dir) =
      let behind = lookup-remove name asked dir in
      ground (arith, behind, eq_iff first asked, eq_iff first name, eq_iff name asked)

pub lookup-empty {ℓ} : {A : Type ℓ} (k : String) → lookup {A = A} k [] ≡ none
unfolding lookup
lookup-empty k = refl

pub ruleset dir_laws = (lookup-empty, lookup-insert, lookup-remove, eq_refl)
