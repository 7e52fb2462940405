-- ===== src/Daemon/Grouping/Groups.antt =====
-- The groups that `write_grouped` of bin/capture.rs makes.
use kalshi_alpha.Prelude.{
  ℕ, ◌+◌, ◌≡◌, refl, sym, ap, ◌∙◌, true, false, List, [], ◌∷◌, ◌++◌, append-nil, append_assoc,
  length, length-append, arith, if◌then◌else◌, Bool-cases, inl, inr,
}
use kalshi_alpha.Store.Channel.{Channel, eq_channel}
use kalshi_alpha.Daemon.Grouping.{push_record, group_by_channel}

module _ {R : Type 0} (channel_of : R → Channel) where
  -- The records of a channel, in their order.
  abbrev pub records_of : Channel → List R → List R
  records_of c [] = []
  records_of c (r ∷ rs) =
      if eq_channel (channel_of r) c then r ∷ records_of c rs else records_of c rs

  -- The group of a channel.
  abbrev pub group_of : Channel → List (Channel × List R) → List R
  group_of c [] = []
  group_of c ((d, rs) ∷ groups) = if eq_channel d c then rs else group_of c groups

  -- How many records the groups hold.
  abbrev pub total : List (Channel × List R) → ℕ
  total [] = 0
  total ((d, rs) ∷ groups) = length rs + total groups

  total-push :
      (r : R) (groups : List (Channel × List R))
      → total (push_record channel_of r groups) ≡ total groups + 1
  unfolding push_record
  total-push r [] = refl
  total-push r ((c, rs) ∷ groups) = elim (Bool-cases (eq_channel c (channel_of r))) [
    | inl e ↦ rw e (omega (arith, length-append rs (r ∷ [])))
    | inr e ↦ rw e (omega (arith, total-push r groups))
  ]

  pub total-group_by_channel :
      (rs : List R) (groups : List (Channel × List R))
      → total (group_by_channel channel_of rs groups) ≡ total groups + length rs
  unfolding group_by_channel
  total-group_by_channel [] groups = omega (arith)
  total-group_by_channel (r ∷ rs) groups =
      omega
        (arith, total-group_by_channel rs (push_record channel_of r groups), total-push r groups)

  group_of-push :
      (c : Channel) (r : R) (groups : List (Channel × List R))
      → group_of c (push_record channel_of r groups)
        ≡ group_of c groups ++ (if eq_channel (channel_of r) c then r ∷ [] else [])
  unfolding push_record
  group_of-push c r [] = ground (arith)
  group_of-push c r ((d, rs) ∷ groups) = elim (Bool-cases (eq_channel d (channel_of r))) [
    | inl e ↦ rw e (elim (Bool-cases (eq_channel d c)) [
      | inl x ↦ let y : eq_channel (channel_of r) c ≡ true = ground (arith) in rw (x, y) refl
      | inr x ↦
          let y : eq_channel (channel_of r) c ≡ false = ground (arith) in
          rw (x, y) (sym (append-nil (group_of c groups)))
    ])
    | inr e ↦ rw e (elim (Bool-cases (eq_channel d c)) [
      | inl x ↦
          let y : eq_channel (channel_of r) c ≡ false = ground (arith) in
          rw (x, y) (sym (append-nil rs))
      | inr x ↦ rw x (group_of-push c r groups)
    ])
  ]

  group_of-group_by_channel :
      (c : Channel) (rs : List R) (groups : List (Channel × List R))
      → group_of c (group_by_channel channel_of rs groups) ≡ group_of c groups ++ records_of c rs
  unfolding group_by_channel
  group_of-group_by_channel c [] groups = sym (append-nil (group_of c groups))
  group_of-group_by_channel c (r ∷ rs) groups =
      group_of-group_by_channel c rs (push_record channel_of r groups)
      ∙ rw (group_of-push c r groups) (elim (Bool-cases (eq_channel (channel_of r) c)) [
        | inl e ↦ rw e (append_assoc (group_of c groups) (r ∷ []) (records_of c rs))
        | inr e ↦ rw e (ap (λ l. l ++ records_of c rs) (append-nil (group_of c groups)))
      ])

  -- The group of each channel is its records in the order of the batch, and the groups hold as many
  -- records as the batch.
  pub group_by_channel_lem :
      (c : Channel) (rs : List R)
      → (group_of c (group_by_channel channel_of rs []) ≡ records_of c rs)
        × (total (group_by_channel channel_of rs []) ≡ length rs)
  group_by_channel_lem c rs =
      (group_of-group_by_channel c rs [], omega (arith, total-group_by_channel rs []))
