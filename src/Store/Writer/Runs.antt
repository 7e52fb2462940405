-- ===== src/Store/Writer/Runs.antt =====
-- Runs of the writer of crates/store/src/writer.rs: any order of its operations, on any disk.
use kalshi_alpha.Prelude.{
  ℕ, ◌≡◌, inl, inr, ap, subst, Option, none, some, List, [], ◌∷◌, arith, Bool-cases, Result, ok,
  err, ℤ, map,
}
use kalshi_alpha.Prelude.Text.{Text}
use kalshi_alpha.Store.Channel.{Channel}
use kalshi_alpha.Store.Session.{Calendar, SessionMetadata, close_session}
use kalshi_alpha.Store.Disk.{Disk, create_dir}
use kalshi_alpha.Store.Writer.{WriteError, WriterConfig, Key, get_file, ParquetStore}
use kalshi_alpha.Store.Writer.Steps.{
  write_batch, close_file, close_found, close_each, close_every, first_error, due, roll_due_files,
  close_all, write_encoded, write_records, open_store,
}
use kalshi_alpha.Store.Writer.Invariant.{Ends, next-Ends, IsStore, close_found-IsStore}
use kalshi_alpha.Store.Writer.Opening.{write_batch-IsStore}

pub Ends-both :
    {W A : Type 0} (I : ParquetStore → Type 0) (Q : ParquetStore → Type 0)
    (r : (W × ParquetStore) × Result WriteError A)
    → Ends I Q r
    → I r.0.1
Ends-both I Q ((d, s), ok a) h = h.0
Ends-both I Q ((d, s), err e) h = h

module _ (c : Calendar) (D : Disk) where
  pub close_each-IsStore :
      (ks : List Key) (d : D.State) (s : ParquetStore)
      → IsStore c s
      → Ends (IsStore c) (λ t. Unit) (close_each D c ks (d, s))
  unfolding close_each close_file
  close_each-IsStore [] d s i = (i, tt)
  close_each-IsStore (k ∷ ks) d s i =
      next-Ends (IsStore c) (λ t. Unit) (λ t. Unit) _ _
        (close_found-IsStore c D k (get_file k s.files) d s i)
        λ _ d' s' i' _. close_each-IsStore ks d' s' i'

  pub close_every-IsStore :
      (ks : List Key) (e : Option WriteError) (d : D.State) (s : ParquetStore)
      → IsStore c s
      → IsStore c (close_every D c ks e (d, s)).0.1
  unfolding close_every close_file
  close_every-IsStore [] e d s i = i
  close_every-IsStore (k ∷ ks) e d s i =
      let r = close_found D c k (get_file k s.files) (d, s) in
      close_every-IsStore ks (first_error D c e r.1) r.0.0 r.0.1
        (Ends-both (IsStore c) (λ t. Unit) r (close_found-IsStore c D k (get_file k s.files) d s i))

  module _ {R : Type 0} (expected_rows : Channel → List R → ℕ)
      (encode : Channel → Text → List R → Result Unit (Option (ℕ × ℕ))) where
    -- The states a store gets to: it is opened on the disk as it is, and then its methods are called
    -- in any order.
    pub data Reachable (start : D.State) : D.State × ParquetStore → Type 0 where
      opened :
          (config : WriterConfig) (session : SessionMetadata) (d : D.State) (s : ParquetStore)
          → open_store D config session start ≡ (d, ok s)
          → Reachable start (d, s)
      wrote_batch :
          (channel : Channel) (rows bytes : ℕ) (at : ℤ) (d : D.State) (s : ParquetStore)
          → Reachable start (d, s)
          → Reachable start (write_batch D c channel rows bytes at (d, s)).0
      wrote_records :
          (channel : Channel) (records : List R) (at : ℤ) (d : D.State) (s : ParquetStore)
          → Reachable start (d, s)
          → Reachable start (write_records D c expected_rows encode channel records at (d, s)).0
      rolled :
          (now : ℤ) (d : D.State) (s : ParquetStore)
          → Reachable start (d, s)
          → Reachable start (roll_due_files D c now (d, s)).0
      closed :
          (ended_at : ℤ) (d : D.State) (s : ParquetStore)
          → Reachable start (d, s)
          → Reachable start (close_all D c ended_at (d, s)).0

    abbrev Opens : Result WriteError ParquetStore → Type 0
    Opens (ok s) = IsStore c s
    Opens (err e) = Unit

    open_store-Opens :
        (config : WriterConfig) (session : SessionMetadata) (d : D.State)
        → Opens (open_store D config session d).1
    unfolding open_store
    open_store-Opens config session d =
        elim (Bool-cases ((D.perform d (create_dir config.root)).1)) [
          | inl e ↦ rw (e, Opens) (tt, (tt, ground (arith)))
          | inr e ↦ rw (e, Opens) tt
        ]

    pub write_encoded-IsStore :
        (channel : Channel) (at : ℤ) (a : Result Unit (Option (ℕ × ℕ))) (d : D.State)
        (s : ParquetStore)
        → IsStore c s
        → Ends (IsStore c) (λ t. Unit) (write_encoded D c channel at a (d, s))
    write_encoded-IsStore channel at (err _) d s i = i
    write_encoded-IsStore channel at (ok none) d s i = (i, tt)
    write_encoded-IsStore channel at (ok (some (rows, bytes))) d s i =
        next-Ends (IsStore c) (λ t. Unit) (λ t. Unit) _ _
          (write_batch-IsStore c D channel rows bytes at d s i) λ _ d' s' i' _. (i', tt)

    pub write_records-IsStore :
        (channel : Channel) (records : List R) (at : ℤ) (d : D.State) (s : ParquetStore)
        → IsStore c s
        → Ends
            (IsStore c)
            (λ t. Unit)
            (write_records D c expected_rows encode channel records at (d, s))
    unfolding write_records
    write_records-IsStore channel [] at d s i = (i, tt)
    write_records-IsStore channel (r ∷ rs) at d s i =
        write_encoded-IsStore channel at (encode channel s.session.session_id (r ∷ rs)) d _ i

    -- Each key has one open file, which was opened on its date; the directory of the file is noted
    -- down as one with a sidecar.
    pub Reachable-IsStore :
        (start : D.State) (w : D.State × ParquetStore) → Reachable start w → IsStore c w.1
    unfolding roll_due_files close_all
    Reachable-IsStore start w (opened config session d s e) =
        subst Opens (ap (λ x. x.1) e) (open_store-Opens config session start)
    Reachable-IsStore start w (wrote_batch channel rows bytes at d s r) =
        Ends-both (IsStore c) (λ t. Unit) (write_batch D c channel rows bytes at (d, s))
          (write_batch-IsStore c D channel rows bytes at d s (Reachable-IsStore start (d, s) r))
    Reachable-IsStore start w (wrote_records channel records at d s r) =
        Ends-both (IsStore c) (λ t. Unit)
          (write_records D c expected_rows encode channel records at (d, s))
          (write_records-IsStore channel records at d s (Reachable-IsStore start (d, s) r))
    Reachable-IsStore start w (rolled now d s r) =
        Ends-both (IsStore c) (λ t. Unit) (roll_due_files D c now (d, s))
          (next-Ends (IsStore c) (λ t. Unit) (λ t. Unit) _ _
            (close_each-IsStore (due D c s.config now s.files) d s
              (Reachable-IsStore start (d, s) r))
            λ _ d' s' i _. (i, tt))
    Reachable-IsStore start w (closed ended_at d s r) =
        close_every-IsStore (map (λ kf. kf.0) s.files) none d
          (record s { session = close_session s.session ended_at })
          (Reachable-IsStore start (d, s) r)
