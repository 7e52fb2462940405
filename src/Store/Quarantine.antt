-- ===== src/Store/Quarantine.antt =====
-- crates/store/src/quarantine.rs. A path is the list of its names below the root, which is a tree of
-- folders; the calls of the file system may fail. What a file holds is what it holds when the scan
-- starts: nothing is moved before it is inspected.
pub mod Complete
pub mod Candidates
pub mod Moves
pub mod Examples
use kalshi_alpha.Prelude.{
  ℕ, Bool, true, false, ◌||◌, Option, none, some, List, [], ◌∷◌, ◌++◌, ltb, if◌then◌else◌, Result,
  ok, err, ◌>>=◌,
}
use kalshi_alpha.Prelude.Text.{Text, codes, text_eq}

abbrev pub parquet_magic : Text
parquet_magic = codes "PAR1"

abbrev pub min_parquet_len : ℕ
min_parquet_len = 12

abbrev pub FilePath : Type 0
FilePath = List Text

pub data QuarantineError : Type 0 where
  scan_failed move_failed : (path : FilePath) → QuarantineError

pub data Defect : Type 0 where
  too_short missing_header_magic missing_footer_magic : Defect

unfoldable pub defect_str : Defect → Text
defect_str too_short = codes "too_short"
defect_str missing_header_magic = codes "missing_header_magic"
defect_str missing_footer_magic = codes "missing_footer_magic"

pub record Quarantined : Type 0 where
  pub original : FilePath
  pub moved_to : FilePath
  pub defect : Defect
  pub bytes : ℕ

-- An open file: its length, its first four bytes, the seek to the last four, and those.
pub record OpenFile : Type 0 where
  pub metadata_len : Option ℕ
  pub head : Option Text
  pub seeks : Bool
  pub tail : Option Text

abbrev pub or_scan : {A : Type 0} → FilePath → Option A → Result QuarantineError A
or_scan path none = err (scan_failed path)
or_scan path (some a) = ok a

-- The reading of the footer.
abbrev pub inspect_tail : FilePath → OpenFile → Result QuarantineError (Option Defect)
inspect_tail path file =
    if file.seeks
    then (or_scan path file.tail >>= λ tail.
        if text_eq tail parquet_magic then ok none else ok (some missing_footer_magic))
    else err (scan_failed path)

unfoldable pub inspect : FilePath → Option OpenFile → Result QuarantineError (Option Defect)
inspect path opened = or_scan path opened >>= λ file. or_scan path file.metadata_len >>= λ len.
    if ltb len min_parquet_len
    then ok (some too_short)
    else or_scan path file.head >>= λ head.
        if text_eq head parquet_magic
        then inspect_tail path file
        else ok (some missing_header_magic)

mutual
  pub data Entry : Type 0 where
    file : (name : Text) → Entry
    folder : (name : Text) → Folder → Entry
    -- An entry that `read_dir` fails to read.
    lost : Entry

  -- A folder that `read_dir` cannot read, or the entries that it gives.
  pub data Folder : Type 0 where
    unreadable : Folder
    readable : Entries → Folder

  pub data Entries : Type 0 where
    nil : Entries
    cons : Entry → Entries → Entries

abbrev pub quarantine_dir : FilePath
quarantine_dir = codes "_quarantine" ∷ []

abbrev pub is_quarantine : FilePath → Bool
is_quarantine [] = false
is_quarantine (name ∷ []) = text_eq name (codes "_quarantine")
is_quarantine (name ∷ more ∷ names) = false

-- The extension is `parquet`: the name has it behind a dot, and something before that.
unfoldable pub is_parquet : Text → Bool
is_parquet [] = false
is_parquet (c ∷ s) = text_eq s (codes ".parquet") || is_parquet s

unfoldable mutual
  unfolding is_parquet

  pub collect_folder : FilePath → Folder → Result QuarantineError (List FilePath)
  collect_folder dir unreadable = if is_quarantine dir then ok [] else err (scan_failed dir)
  collect_folder dir (readable entries) =
      let found = collect_entries dir entries in if is_quarantine dir then ok [] else found

  pub collect_entry : FilePath → Entry → Result QuarantineError (List FilePath)
  collect_entry dir (file name) = ok (if is_parquet name then (dir ++ (name ∷ [])) ∷ [] else [])
  collect_entry dir lost = ok []
  collect_entry dir (folder name content) = collect_folder (dir ++ (name ∷ [])) content

  pub collect_entries : FilePath → Entries → Result QuarantineError (List FilePath)
  collect_entries dir nil = ok []
  collect_entries dir (cons entry entries) = collect_entry dir entry >>= λ first.
      collect_entries dir entries >>= λ rest. ok (first ++ rest)

pub record Files : Type 1 where
  pub State : Type 0
  pub open_file : FilePath → Option OpenFile
  pub len_of : State → FilePath → Option ℕ
  pub create_dir_all : State → FilePath → State × Bool
  pub rename : State → (from to : FilePath) → State × Bool

abbrev pub or_zero : Option ℕ → ℕ
or_zero none = 0
or_zero (some n) = n

-- `join(relative).parent()`
abbrev pub parent : FilePath → FilePath
parent [] = []
parent (name ∷ []) = []
parent (name ∷ more ∷ names) = name ∷ parent (more ∷ names)

module _ (fs : Files) where
  abbrev pub Moved : Type 0
  Moved = fs.State × Result QuarantineError (List Quarantined)

  abbrev pub renamed :
      FilePath → FilePath → Defect → ℕ → (fs.State → Moved) → fs.State × Bool → Moved
  renamed path destination defect bytes next (d, false) = (d, err (move_failed path))
  renamed path destination defect bytes next (d, true) =
      let (d', rest) = next d in
      (
        d',
        rest >>= λ qs. ok (
            (record { original = path; moved_to = destination; defect = defect; bytes = bytes })
            ∷ qs),
      )

  abbrev pub created : FilePath → Defect → ℕ → (fs.State → Moved) → fs.State × Bool → Moved
  created path defect bytes next (d, false) = (d, err (move_failed (quarantine_dir ++ path)))
  created path defect bytes next (d, true) =
      renamed path (quarantine_dir ++ path) defect bytes next
        (fs.rename d path (quarantine_dir ++ path))

  abbrev pub inspected :
      FilePath → (fs.State → Moved) → fs.State → Result QuarantineError (Option Defect) → Moved
  inspected path next d (err e) = (d, err e)
  inspected path next d (ok none) = next d
  inspected path next d (ok (some defect)) =
      created path defect (or_zero (fs.len_of d path)) next
        (fs.create_dir_all d (parent (quarantine_dir ++ path)))

  -- The loop over the candidates.
  unfoldable pub move_defects : List FilePath → fs.State → Moved
  unfolding inspect
  move_defects [] d = (d, ok [])
  move_defects (path ∷ paths) d =
      inspected path (λ d'. move_defects paths d') d (inspect path (fs.open_file path))

  abbrev pub of_candidates : fs.State → Result QuarantineError (List FilePath) → Moved
  of_candidates d (err e) = (d, err e)
  of_candidates d (ok candidates) = move_defects candidates d

  -- A root that does not exist is `none`.
  unfoldable pub scan_and_quarantine : Option Folder → fs.State → Moved
  unfolding collect_folder move_defects
  scan_and_quarantine none d = (d, ok [])
  scan_and_quarantine (some root) d = of_candidates d (collect_folder [] root)
