-- ===== src/Registry/FileSearch.antt =====
-- Lookup in the list of files of a node, and what the two walks over it find.
use ssdd_final.Base.{◌≡◌, Option, none, some, List, [], ◌∷◌, arith, if◌then◌else◌}
use ssdd_final.CString.{Bytes, strcmp_eq, strcmp_eq_iff}
use ssdd_final.Directory.{put}
use ssdd_final.Registry.Defs.{FileNode}

-- the description of the first file with the name
unfoldable pub find_file : List FileNode → Bytes → Option Bytes
find_file [] name = none
find_file (f ∷ fs) name =
    if strcmp_eq f.filename name then some f.description else find_file fs name

unfoldable pub remove_file : Bytes → List FileNode → List FileNode
remove_file name [] = []
remove_file name (f ∷ fs) = if strcmp_eq f.filename name then fs else f ∷ remove_file name fs

abbrev pub DistinctFiles : List FileNode → Type 0
DistinctFiles [] = Unit
DistinctFiles (f ∷ fs) = (find_file fs f.filename ≡ none) × DistinctFiles fs

pub find_file-remove_file :
    (k name : Bytes) (fs : List FileNode)
    → DistinctFiles fs
    → find_file (remove_file name fs) k ≡ put name none (find_file fs) k
unfolding find_file remove_file
find_file-remove_file k name [] d = ground arith
find_file-remove_file k name (f ∷ fs) d = ground (
  arith,
  strcmp_eq_iff f.filename name,
  strcmp_eq_iff f.filename k,
  strcmp_eq_iff name k,
  find_file-remove_file k name fs d.1,
)

pub remove_file-DistinctFiles :
    (name : Bytes) (fs : List FileNode) → DistinctFiles fs → DistinctFiles (remove_file name fs)
unfolding remove_file
remove_file-DistinctFiles name [] d = tt
remove_file-DistinctFiles name (f ∷ fs) d =
    ground
      (arith, find_file-remove_file f.filename name fs d.1, remove_file-DistinctFiles name fs d.1)
