-- ===== src/Nrt/Files.antt =====
-- The source texts on disk, as py/nrt/index.py writes, reads and deletes them.
use Prim.Native.String.{String}
use text.Mathlib.TextEquality.{eq_iff}
use cascade_search_engine.Prelude.{
  Bool, true, false, Option, none, some, List, [], ◌∷◌, ◌≡◌, refl, ◌↔◌, if◌then◌else◌, arith,
  nat_beq_iff,
}
use cascade_search_engine.Prelude.Keys.{Eq, ◌==◌, nat_eq, string_eq, is_in}
use cascade_search_engine.Nrt.Newlines.{universal}
use cascade_search_engine.Nrt.Segment.{SourcePath, numbered, external}

abbrev pub same_path : SourcePath → SourcePath → Bool
same_path (numbered m) (numbered n) = m == n
same_path (external a) (external b) = a == b
same_path _ _ = false

abbrev pub Files : Type 0
Files = SourcePath → Option String

-- `path.write_text(text)` and `path.unlink(missing_ok=True)`
unfoldable pub write : SourcePath → String → Files → Files
write path text files p = if same_path path p then some text else files p

unfoldable pub unlink : SourcePath → Files → Files
unlink path files p = if same_path path p then none else files p

unfoldable pub unlink_all : List SourcePath → Files → Files
unfolding unlink
unlink_all [] files = files
unlink_all (path ∷ paths) files = unlink_all paths (unlink path files)

-- `[path.read_text() for path in paths]`; `none` if one is missing
unfoldable pub read_all : Files → List SourcePath → Option (List String)
unfolding universal
read_all files [] = some []
read_all files (path ∷ paths) =
    let rest = read_all files paths in
    elim (files path) [
      | none ↦ none
      | some text ↦ elim rest [ none ↦ none | some texts ↦ some (universal false text ∷ texts) ]
    ]

pub same_path_iff : (a b : SourcePath) → (same_path a b ≡ true) ↔ (a ≡ b)
same_path_iff (numbered m) (numbered n) = ground (arith, nat_beq_iff m n)
same_path_iff (external a) (external b) = ground (arith, eq_iff a b)
same_path_iff (numbered m) (external b) = ground arith
same_path_iff (external a) (numbered n) = ground arith

instance abbrev pub path_eq : Eq SourcePath
path_eq = record { is_same = same_path; is_same-iff = same_path_iff }

pub write_other :
    (path p : SourcePath) (text : String) (files : Files)
    → same_path path p ≡ false
    → write path text files p ≡ files p
unfolding write
write_other path p text files h = rw h

pub write_same :
    (path : SourcePath) (text : String) (files : Files) → write path text files path ≡ some text
unfolding write
write_same path text files = rw ((same_path_iff path path).1 refl)

pub unlink_all_other :
    (paths : List SourcePath) (p : SourcePath) (files : Files)
    → is_in p paths ≡ false
    → unlink_all paths files p ≡ files p
unfolding unlink_all
unlink_all_other [] p files h = refl
unlink_all_other (path ∷ paths) p files h =
    ground (arith, unlink_all_other paths p (unlink path files))
