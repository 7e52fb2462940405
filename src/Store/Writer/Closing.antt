-- ===== src/Store/Writer/Closing.antt =====
-- Closing files in crates/store/src/writer.rs: by age, and at the end of the session.
use kalshi_alpha.Prelude.{
  ℕ, ◌≡◌, ◌⊎◌, inl, inr, refl, sym, subst, Bool, true, false, ◌||◌, Option, none, some, List, [],
  ◌∷◌, arith, All, Bool-cases, if◌then◌else◌, Result, ok, err, ℤ, ◌-ℤ◌, leb_ℤ, map,
}
use kalshi_alpha.Store.Session.{Calendar, close_session}
use kalshi_alpha.Store.Disk.{Disk, write_footer}
use kalshi_alpha.Store.Writer.{
  WriteError, WriterConfig, OpenFile, Key, Files, eq_key, get_file, remove_file, ParquetStore,
}
use kalshi_alpha.Store.Writer.Steps.{
  close_file, close_found, close_each, close_every, first_error, due, roll_due_files, close_all,
}
use kalshi_alpha.Store.Writer.Files.{
  IsKeyed, Absent, All-remove, removed-Absent, remove-IsKeyed, remove-Absent, get_none-Absent,
  eq_key_refl,
}
use kalshi_alpha.Store.Writer.Accounts.{Young, Young-lem}
use kalshi_alpha.Store.Writer.Invariant.{Ends, next-Ends}

abbrev pub contains_key : Key → List Key → Bool
contains_key k [] = false
contains_key k (j ∷ js) = eq_key k j || contains_key k js

pub Ends_ok :
    {W A : Type 0} (I Q : ParquetStore → Type 0) (r : (W × ParquetStore) × Result WriteError A)
    (d : W) (s : ParquetStore) (a : A)
    → Ends I Q r
    → r ≡ ((d, s), ok a)
    → Q s
Ends_ok I Q r d s a h e = (subst (Ends I Q) e h).1

pub Ends-always :
    {W A : Type 0} (Q : ParquetStore → Type 0) (r : (W × ParquetStore) × Result WriteError A)
    → Q r.0.1
    → Ends (λ t. Unit) Q r
Ends-always Q ((d, s), ok a) h = (tt, h)
Ends-always Q ((d, s), err e) h = tt

module _ (P : Key × OpenFile → Type 0) where
  -- A file has the property, or is still to be closed.
  abbrev pub Waits : List Key → Files → Type 0
  Waits ks = All (λ kf. P kf ⊎ (contains_key kf.0 ks ≡ true))

  pub Waits-none : (fs : Files) → Waits [] fs → All P fs
  Waits-none [] h = tt
  Waits-none (x ∷ fs) h = (elim (h.0) [ inl p ↦ p | inr e ↦ absurd (cc) ], Waits-none fs h.1)

  Waits-Absent :
      (k : Key) (ks : List Key) (fs : Files) → Waits (k ∷ ks) fs → Absent k fs → Waits ks fs
  Waits-Absent k ks [] h a = tt
  Waits-Absent k ks (x ∷ fs) h a =
      (elim (h.0) [ inl p ↦ inl p | inr e ↦ inr (rw (a.0) at e) ], Waits-Absent k ks fs h.1 a.1)

  pub Waits-more : (k : Key) (ks : List Key) (fs : Files) → Waits ks fs → Waits (k ∷ ks) fs
  Waits-more k ks [] h = tt
  Waits-more k ks (x ∷ fs) h =
      (elim (h.0) [ inl p ↦ inl p | inr e ↦ inr (ground (arith)) ], Waits-more k ks fs h.1)

  pub Waits-if :
      (k : Key) (ks : List Key) (b : Bool) (fs : Files)
      → Waits ks fs
      → Waits (if b then k ∷ ks else ks) fs
  Waits-if k ks true fs h = Waits-more k ks fs h
  Waits-if k ks false fs h = h

  pub Waits-remove :
      (k : Key) (ks : List Key) (fs : Files)
      → IsKeyed fs
      → Waits (k ∷ ks) fs
      → Waits ks (remove_file k fs)
  Waits-remove k ks fs h w =
      Waits-Absent k ks (remove_file k fs)
        (All-remove (λ kf. P kf ⊎ (contains_key kf.0 (k ∷ ks) ≡ true)) k fs w)
        (removed-Absent k fs h)

module _ (c : Calendar) (D : Disk) where
  pub close_found-files :
      (k : Key) (o : Option OpenFile) (d : D.State) (s : ParquetStore)
      → get_file k s.files ≡ o
      → (close_found D c k o (d, s)).0.1.files ≡ remove_file k s.files
  close_found-files k none d s e = sym (remove-Absent k s.files (get_none-Absent k s.files e))
  close_found-files k (some f) d s e = elim (Bool-cases ((D.perform d (write_footer f.path)).1)) [
    | inl x ↦ rw x refl
    | inr x ↦ rw x refl
  ]

  pub close_each-All :
      (P : Key × OpenFile → Type 0) (ks : List Key) (d : D.State) (s : ParquetStore)
      → IsKeyed s.files
      → Waits P ks s.files
      → Ends (λ t. Unit) (λ t. All P t.files) (close_each D c ks (d, s))
  unfolding close_each close_file
  close_each-All P [] d s h w = (tt, Waits-none P s.files w)
  close_each-All P (k ∷ ks) d s h w =
      let E : ParquetStore → Type 0 = λ t. t.files ≡ remove_file k s.files in
      next-Ends (λ t. Unit) E (λ t. All P t.files) _ _
        (Ends-always E (close_found D c k (get_file k s.files) (d, s))
          (close_found-files k (get_file k s.files) d s refl))
        λ _ d' s' _ same.
          close_each-All P ks d' s' (rw same (remove-IsKeyed k s.files h))
            (rw same (Waits-remove P k ks s.files h w))

  pub close_every-All :
      (P : Key × OpenFile → Type 0) (ks : List Key) (e : Option WriteError) (d : D.State)
      (s : ParquetStore)
      → IsKeyed s.files
      → Waits P ks s.files
      → All P (close_every D c ks e (d, s)).0.1.files
  unfolding close_every close_file
  close_every-All P [] e d s h w = Waits-none P s.files w
  close_every-All P (k ∷ ks) e d s h w =
      let r = close_found D c k (get_file k s.files) (d, s) in
      let same : r.0.1.files ≡ remove_file k s.files =
        close_found-files k (get_file k s.files) d s refl in
      close_every-All P ks (first_error D c e r.1) r.0.0 r.0.1
        (rw same (remove-IsKeyed k s.files h)) (rw same (Waits-remove P k ks s.files h w))

  due-Waits :
      (config : WriterConfig) (now : ℤ) (fs : Files)
      → Waits (λ kf. Young config now kf.1) (due D c config now fs) fs
  unfolding due
  due-Waits config now [] = tt
  due-Waits config now ((k, f) ∷ fs) =
      let rest = due D c config now fs in
      let aged = leb_ℤ config.max_file_age (now -ℤ f.opened_at) in
      (
        due_head k (Young config now f) rest aged (Young-lem config now f),
        Waits-if _ k rest aged fs (due-Waits config now fs),
      )
    where
      due_head :
          (k : Key) (P : Type 0) (ks : List Key) (b : Bool)
          → (b ≡ false → P)
          → P ⊎ (contains_key k (if b then k ∷ ks else ks) ≡ true)
      due_head k P ks true f = inr (ground (arith, eq_key_refl k))
      due_head k P ks false f = inl (f refl)

  keys-Waits : (fs : Files) → Waits (λ kf. ⊥) (map (λ kf. kf.0) fs) fs
  keys-Waits [] = tt
  keys-Waits ((k, f) ∷ fs) = (
    inr (ground (arith, eq_key_refl k)),
    Waits-more (λ kf. ⊥) k (map (λ kf. kf.0) fs) fs (keys-Waits fs),
  )

  All-none : (fs : Files) → All (λ kf. ⊥) fs → fs ≡ []
  All-none [] h = refl
  All-none (x ∷ fs) h = absurd (h.0)

  -- When each key has one open file and `roll_due_files` succeeds, every file that is still open
  -- is younger than the roll age, written to or not.
  pub roll_due_files_lem :
      (now : ℤ) (d d' : D.State) (s s' : ParquetStore) (n : ℕ)
      → IsKeyed s.files
      → roll_due_files D c now (d, s) ≡ ((d', s'), ok n)
      → All (λ kf. Young s.config now kf.1) s'.files
  unfolding roll_due_files
  roll_due_files_lem now d d' s s' n h e =
      let Q : ParquetStore → Type 0 = λ t. All (λ kf. Young s.config now kf.1) t.files in
      Ends_ok (λ t. Unit) Q (roll_due_files D c now (d, s)) d' s' n
        (next-Ends (λ t. Unit) Q Q _ _
          (close_each-All (λ kf. Young s.config now kf.1) (due D c s.config now s.files) d s h
            (due-Waits s.config now s.files))
          λ _ d1 s1 _ q. (tt, q))
        e

  -- When each key has one open file, no file is left open after `close_all`, whichever calls of
  -- the disk fail.
  pub close_all_lem :
      (ended_at : ℤ) (d : D.State) (s : ParquetStore)
      → IsKeyed s.files
      → (close_all D c ended_at (d, s)).0.1.files ≡ []
  unfolding close_all
  close_all_lem ended_at d s h = All-none _ (
      close_every-All (λ kf. ⊥) (map (λ kf. kf.0) s.files) none d
        (record s { session = close_session s.session ended_at }) h (keys-Waits s.files))
