-- ===== src/Store/Quarantine/Moves.antt =====
-- What the scan of crates/store/src/quarantine.rs moves, and what it leaves.
use kalshi_alpha.Prelude.{
  ℕ, ◌≡◌, refl, sym, ◌∙◌, subst, Bool, true, false, Option, none, some, List, [], ◌∷◌, ◌++◌, All,
  append-nil, append_assoc, if◌then◌else◌, Result, ok, err,
}
use kalshi_alpha.Store.Quarantine.{
  FilePath, QuarantineError, Defect, Quarantined, inspect, Folder, quarantine_dir, collect_folder,
  Files, or_zero, parent, renamed, created, inspected, move_defects, of_candidates,
  scan_and_quarantine,
}
use kalshi_alpha.Store.Quarantine.Candidates.{IsCandidate, AllOutside, folder_outside}

module _ (fs : Files) where
  -- The report on the candidates: a complete file has no entry, and any other has one.
  pub data Report : List FilePath → List Quarantined → Type 0 where
    all_seen : Report [] []
    healthy :
        {paths : List FilePath} {qs : List Quarantined} (path : FilePath)
        → inspect path (fs.open_file path) ≡ ok none
        → Report paths qs
        → Report (path ∷ paths) qs
    set_aside :
        {paths : List FilePath} {qs : List Quarantined} (path : FilePath) (defect : Defect)
        (bytes : ℕ)
        → inspect path (fs.open_file path) ≡ ok (some defect)
        → Report paths qs
        → Report (path ∷ paths) (
            (record {
              original = path;
              moved_to = quarantine_dir ++ path;
              defect = defect;
              bytes = bytes;
            })
            ∷ qs)

  abbrev Reported : List FilePath → fs.State × Result QuarantineError (List Quarantined) → Type 0
  Reported paths (d, err e) = Unit
  Reported paths (d, ok qs) = Report paths qs

  renamed-Reported :
      (path : FilePath) (paths : List FilePath) (defect : Defect) (bytes : ℕ)
      (next : fs.State → fs.State × Result QuarantineError (List Quarantined)) (x : fs.State × Bool)
      → inspect path (fs.open_file path) ≡ ok (some defect)
      → ((d : fs.State) → Reported paths (next d))
      → Reported (path ∷ paths) (renamed fs path (quarantine_dir ++ path) defect bytes next x)
  renamed-Reported path paths defect bytes next (d, false) h k = tt
  renamed-Reported path paths defect bytes next (d, true) h k = go (next d) (k d)
    where
      go :
          (y : fs.State × Result QuarantineError (List Quarantined))
          → Reported paths y
          → Reported
              (path ∷ paths)
              (renamed fs path (quarantine_dir ++ path) defect bytes (λ d'. y) (d, true))
      go (d', err e) r = tt
      go (d', ok qs) r = set_aside path defect bytes h r

  inspected-Reported :
      (path : FilePath) (paths : List FilePath)
      (next : fs.State → fs.State × Result QuarantineError (List Quarantined)) (d : fs.State)
      (r : Result QuarantineError (Option Defect))
      → inspect path (fs.open_file path) ≡ r
      → ((d' : fs.State) → Reported paths (next d'))
      → Reported (path ∷ paths) (inspected fs path next d r)
  inspected-Reported path paths next d (err e) h k = tt
  inspected-Reported path paths next d (ok none) h k = go (next d) (k d)
    where
      go :
          (y : fs.State × Result QuarantineError (List Quarantined))
          → Reported paths y
          → Reported (path ∷ paths) y
      go (d', err e) r = tt
      go (d', ok qs) r = healthy path h r
  inspected-Reported path paths next d (ok (some defect)) h k =
      go (fs.create_dir_all d (parent (quarantine_dir ++ path)))
    where
      go :
          (x : fs.State × Bool)
          → Reported (path ∷ paths) (created fs path defect (or_zero (fs.len_of d path)) next x)
      go (d', false) = tt
      go (d', true) =
          renamed-Reported path paths defect (or_zero (fs.len_of d path)) next
            (fs.rename d' path (quarantine_dir ++ path)) h k

  move_defects-Reported :
      (paths : List FilePath) (d : fs.State) → Reported paths (move_defects fs paths d)
  unfolding move_defects
  move_defects-Reported [] d = all_seen
  move_defects-Reported (path ∷ paths) d =
      inspected-Reported path paths (λ d'. move_defects fs paths d') d
        (inspect path (fs.open_file path)) refl (λ d'. move_defects-Reported paths d')

  abbrev Move : Type 0
  Move = FilePath × FilePath

  -- The files, with the renames that succeeded, in their order.
  abbrev pub noted : Files
  noted = record {
    State = fs.State × List Move;
    open_file = fs.open_file;
    len_of = λ (d, moves) path. fs.len_of d path;
    create_dir_all =
        λ (d, moves) path. let (d', success) = fs.create_dir_all d path in ((d', moves), success);
    rename = λ (d, moves) from to.
        let (d', success) = fs.rename d from to in
        ((d', if success then moves ++ ((from, to) ∷ []) else moves), success);
  }

  abbrev pub moves_of : List Quarantined → List Move
  moves_of [] = []
  moves_of (q ∷ qs) = (q.original, q.moved_to) ∷ moves_of qs

  abbrev Noted :
      List Move → (fs.State × List Move) × Result QuarantineError (List Quarantined) → Type 0
  Noted moves (d, err e) = Unit
  Noted moves ((d, moves'), ok qs) = moves' ≡ moves ++ moves_of qs

  move_defects-Noted :
      (paths : List FilePath) (d : fs.State) (moves : List Move)
      → Noted moves (move_defects noted paths (d, moves))
  unfolding move_defects
  move_defects-Noted [] d moves = sym (append-nil moves)
  move_defects-Noted (path ∷ paths) d moves =
      go (λ d' moves'. move_defects-Noted paths d' moves') (inspect path (fs.open_file path))
    where
      Later : Type 0
      Later =
          (d' : fs.State) (moves' : List Move)
          → Noted moves' (move_defects noted paths (d', moves'))

      place : FilePath
      place = quarantine_dir ++ path

      bytes : ℕ
      bytes = or_zero (fs.len_of d path)

      next :
          fs.State × List Move → (fs.State × List Move) × Result QuarantineError (List Quarantined)
      next = λ v. move_defects noted paths v

      reported :
          (defect : Defect) (x : fs.State × List Move)
          (y : (fs.State × List Move) × Result QuarantineError (List Quarantined))
          → Noted (moves ++ ((path, place) ∷ [])) y
          → Noted moves (renamed noted path place defect bytes (λ v. y) (x, true))
      reported defect x (v, err e) h = tt
      reported defect x ((d', moves'), ok qs) h =
          h ∙ append_assoc moves ((path, place) ∷ []) (moves_of qs)

      after_rename :
          (k : Later) (defect : Defect) (x : fs.State × Bool)
          → Noted moves (
              renamed noted path place defect bytes next
                ((x.0, if x.1 then moves ++ ((path, place) ∷ []) else moves), x.1))
      after_rename k defect (d', false) = tt
      after_rename k defect (d', true) =
          reported defect (d', moves ++ ((path, place) ∷ []))
            (next (d', moves ++ ((path, place) ∷ []))) (k d' (moves ++ ((path, place) ∷ [])))

      after_create :
          (k : Later) (defect : Defect) (x : fs.State × Bool)
          → Noted moves (created noted path defect bytes next ((x.0, moves), x.1))
      after_create k defect (d', false) = tt
      after_create k defect (d', true) = after_rename k defect (fs.rename d' path place)

      go :
          (k : Later) (r : Result QuarantineError (Option Defect))
          → Noted moves (inspected noted path next (d, moves) r)
      go k (err e) = tt
      go k (ok none) = k d moves
      go k (ok (some defect)) = after_create k defect (fs.create_dir_all d (parent place))

-- A scan that succeeds has inspected some files with the extension `.parquet`, none of them in the
-- quarantine: it reports, in their order, those that are not complete, each with its defect and its
-- new place, which is its own path below the quarantine, and no other; and the renames that the disk
-- has done are those of the report, in its order.
pub scan_lem :
    (fs : Files) (root : Folder) (d d' : fs.State) (moves moves' : List (FilePath × FilePath))
    (qs : List Quarantined)
    → scan_and_quarantine (noted fs) (some root) (d, moves) ≡ ((d', moves'), ok qs)
    → (candidates : List FilePath) × (collect_folder [] root ≡ ok candidates)
      × (All IsCandidate candidates
          × (Report (noted fs) candidates qs × (moves' ≡ moves ++ moves_of fs qs)))
unfolding scan_and_quarantine
scan_lem fs root d d' moves moves' qs h =
    go (collect_folder [] root) refl (folder_outside root [] (λ e. tt)) h
  where
    go :
        (r : Result QuarantineError (List FilePath))
        → collect_folder [] root ≡ r
        → AllOutside r
        → of_candidates (noted fs) (d, moves) r ≡ ((d', moves'), ok qs)
        → (candidates : List FilePath) × (collect_folder [] root ≡ ok candidates)
          × (All IsCandidate candidates
              × (Report (noted fs) candidates qs × (moves' ≡ moves ++ moves_of fs qs)))
    go (err e) same out k = absurd (cc)
    go (ok candidates) same out k = (
      candidates,
      same,
      (
        out,
        (
          subst (Reported (noted fs) candidates) k
              (move_defects-Reported (noted fs) candidates (d, moves)),
          subst (Noted fs moves) k (move_defects-Noted fs candidates d moves),
        ),
      ),
    )
