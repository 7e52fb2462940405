-- ===== src/Store/Sink/Examples.antt =====
-- A queue of at most two records, and one of a single record.
use kalshi_alpha.Prelude.{ℕ, ◌≤◌, refl, Option, none, some, List, [], ◌∷◌, length, arith}
use kalshi_alpha.Store.Sink.{Sent, accepted, full, SendLaw, RecvLaw, Mpsc, no_metrics}
use kalshi_alpha.Store.Sink.Queue.{offers, drains, IsSound, steps, queue_lem}

pub data Short : Type 0 where
  empty : Short
  one : (a : ℕ) → Short
  two : (a b : ℕ) → Short

abbrev contents_of : Short → List ℕ
contents_of empty = []
contents_of (one a) = a ∷ []
contents_of (two a b) = a ∷ b ∷ []

abbrev send_short : Short → ℕ → Short × Sent
send_short empty r = (one r, accepted)
send_short (one a) r = (two a r, accepted)
send_short (two a b) r = (two a b, full)

abbrev recv_short : Short → Short × Option ℕ
recv_short empty = (empty, none)
recv_short (one a) = (empty, some a)
recv_short (two a b) = (one b, some a)

send_short_law :
    (q : Short) (r : ℕ)
    → SendLaw (contents_of q) r (contents_of (send_short q r).0) (send_short q r).1
send_short_law empty r = refl
send_short_law (one a) r = refl
send_short_law (two a b) r = refl

recv_short_law :
    (q : Short) → RecvLaw (contents_of q) (contents_of (recv_short q).0) (recv_short q).1
recv_short_law empty = refl
recv_short_law (one a) = refl
recv_short_law (two a b) = refl

short_bounded : (q : Short) → length (contents_of q) ≤ 2
short_bounded empty = omega (arith)
short_bounded (one a) = omega (arith)
short_bounded (two a b) = omega (arith)

abbrev short_queue : Mpsc ℕ
short_queue = record {
  State = Short;
  contents = contents_of;
  max_capacity = 2;
  try_send = send_short;
  try_recv = recv_short;
  send_law = send_short_law;
  recv_law = recv_short_law;
  bounded = short_bounded;
}

queue_lem_example : IsSound short_queue (
    steps short_queue
      ((empty, no_metrics), record { answers = []; taken = []; received = [] })
      (offers 1 ∷ offers 2 ∷ offers 3 ∷ drains 1 ∷ offers 4 ∷ []))
queue_lem_example =
    queue_lem short_queue empty (offers 1 ∷ offers 2 ∷ offers 3 ∷ drains 1 ∷ offers 4 ∷ []) refl

-- A queue of one record.
module _ {R : Type 0} where
  abbrev in_slot : Option R → List R
  in_slot none = []
  in_slot (some r) = r ∷ []

  abbrev put : Option R → R → Option R × Sent
  put none r = (some r, accepted)
  put (some q) r = (some q, full)

  abbrev taken : Option R → Option R × Option R
  taken q = (none, q)

  pub put_law : (q : Option R) (r : R) → SendLaw (in_slot q) r (in_slot (put q r).0) (put q r).1
  put_law none r = refl
  put_law (some q) r = refl

  pub taken_law : (q : Option R) → RecvLaw (in_slot q) (in_slot (taken q).0) (taken q).1
  taken_law none = refl
  taken_law (some q) = refl

  pub slot_bounded : (q : Option R) → length (in_slot q) ≤ 1
  slot_bounded none = omega arith
  slot_bounded (some q) = omega arith

  abbrev pub slot : Mpsc R
  slot = record {
    State = Option R;
    contents = in_slot;
    max_capacity = 1;
    try_send = put;
    try_recv = taken;
    send_law = put_law;
    recv_law = taken_law;
    bounded = slot_bounded;
  }
