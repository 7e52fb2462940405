-- ===== src/Store/Quarantine/Examples.antt =====
-- A scan of two files, one of them shorter than a Parquet file, on a disk where every call succeeds.
use kalshi_alpha.Prelude.{
  ℕ, ◌≡◌, refl, ◌↔◌, true, Option, none, some, List, [], ◌∷◌, ◌++◌, All, ok, if◌then◌else◌,
}
use kalshi_alpha.Prelude.Text.{codes, text_eq}
use kalshi_alpha.Store.Quarantine.{
  parquet_magic, FilePath, too_short, Quarantined, OpenFile, inspect, file, folder, Folder,
  readable, nil, cons, collect_folder, Files, scan_and_quarantine,
}
use kalshi_alpha.Store.Quarantine.Complete.{IsComplete, inspect_iff}
use kalshi_alpha.Store.Quarantine.Candidates.{IsCandidate}
use kalshi_alpha.Store.Quarantine.Moves.{Report, noted, moves_of, scan_lem}

abbrev of_length : ℕ → OpenFile
of_length n = record {
  metadata_len = some n;
  head = some parquet_magic;
  seeks = true;
  tail = some parquet_magic;
}

inspect_iff_example :
    (inspect (codes "a.parquet" ∷ []) (some (of_length 12)) ≡ ok none) ↔ IsComplete (of_length 12)
inspect_iff_example = inspect_iff (codes "a.parquet" ∷ []) (of_length 12)

abbrev opened : FilePath → Option OpenFile
opened [] = none
opened (name ∷ names) = some (of_length (if text_eq name (codes "b.parquet") then 3 else 20))

abbrev disk : Files
disk = record {
  State = Unit;
  open_file = opened;
  len_of = λ d path. some 3;
  create_dir_all = λ d path. (d, true);
  rename = λ d from to. (d, true);
}

abbrev root : Folder
root = readable (
    cons (file (codes "a.parquet")) (
      cons (folder (codes "_quarantine") (readable (cons (file (codes "c.parquet")) nil)))
        (cons (file (codes "b.parquet")) (cons (file (codes "n.txt")) nil))))

abbrev moved : List Quarantined
moved =
    (record {
      original = codes "b.parquet" ∷ [];
      moved_to = codes "_quarantine" ∷ codes "b.parquet" ∷ [];
      defect = too_short;
      bytes = 3;
    })
    ∷ []

scanned :
    scan_and_quarantine (noted disk) (some root) (tt, []) ≡ ((tt, moves_of disk moved), ok moved)
unfolding scan_and_quarantine inspect text_eq
scanned = refl

scan_lem_example :
    (candidates : List FilePath) × (collect_folder [] root ≡ ok candidates)
    × (All IsCandidate candidates
        × (Report (noted disk) candidates moved
            × (moves_of disk moved ≡ [] ++ moves_of disk moved)))
scan_lem_example = scan_lem disk root tt tt [] (moves_of disk moved) moved scanned
