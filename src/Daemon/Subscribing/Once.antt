-- ===== src/Daemon/Subscribing/Once.antt =====
-- A connection of bin/capture.rs subscribes to a market once, and has a book for each.
use kalshi_alpha.Prelude.{
  ℕ, ◌+◌, ◌≡◌, refl, sym, ap, subst, ◌∙◌, not, ◌&&◌, List, [], ◌∷◌, ◌++◌, append-nil, append_assoc,
  length, All, All-append, Result, ok, err, arith,
}
use kalshi_alpha.Prelude.Text.{Text}
use kalshi_alpha.Ingest.Client.Discovery.{contains_text}
use kalshi_alpha.Ingest.Client.Discovery.Unique.{IsUnique}
use kalshi_alpha.Ingest.Connection.{
  PricingConvention, WsError, JsonWriter, Socket, Connection, subscribe,
}
use kalshi_alpha.Ingest.Connection.Commands.{
  subscribed_in, subscribed_in-last, IsNumbered, IsNumbered-last, IsNumbered-later, IsExplicit,
  subscription, Subscribed, subscribe_lem,
}
use kalshi_alpha.Daemon.Subscribing.{
  Books, contains_key, markets_needing_subscription, chunks, at_least_one, open_books, after_shard,
  subscribe_shards, counted, subscribe_markets,
}
use kalshi_alpha.Daemon.Subscribing.Fresh.{
  contains-append, Apart, IsUnique-append, IsUnique-split, contains-fresh_among,
  fresh_among-IsUnique, flat, flat_all, contains-open, AreOpened, open-AreOpened,
}

module _ (w : JsonWriter) (socket : Socket) (channels : List Text)
    (convention : PricingConvention) where
  -- The markets of a connection's subscriptions are single and are those with a book, each as it
  -- was opened; the ids of its commands ascend, and the convention is stated where it is to be.
  pub record IsSubscribed (c : Connection w socket) (books : Books) : Type 0 where
    pub unique : IsUnique (subscribed_in c.sent)
    pub covered : (m : Text) → contains_key m books ≡ contains_text m (subscribed_in c.sent)
    pub numbered : IsNumbered 1 c.sent c.next_command_id
    pub explicit : All (IsExplicit convention) c.sent
    pub untouched : AreOpened convention books

  -- What a subscription that was sent or not makes of it.
  pub IsSubscribed-IsSubscribed :
      (any_channels shard : List Text) (c c' : Connection w socket) (books : Books)
      → IsSubscribed c books
      → IsUnique shard
      → Apart shard (subscribed_in c.sent)
      → c'.next_command_id ≡ c.next_command_id + 1
      → c'.sent ≡ c.sent ++ (subscription w socket any_channels shard convention c ∷ [])
      → IsSubscribed c' (open_books convention shard books)
  IsSubscribed-IsSubscribed any_channels shard c c' books i u a n s =
      let all : subscribed_in c'.sent ≡ subscribed_in c.sent ++ shard =
        ap subscribed_in s
        ∙ subscribed_in-last c.sent (subscription w socket any_channels shard convention c) in
      record {
        unique =
            subst IsUnique (sym all)
              (IsUnique-append (subscribed_in c.sent) shard i.unique u λ m e. ground (arith, a m));
        covered = λ m. rw all (
            ground (
              arith,
              contains-open convention m shard books,
              i.covered m,
              contains-append m (subscribed_in c.sent) shard,
            ));
        numbered =
            rw (s, n)
              (IsNumbered-last 1 c.next_command_id c.sent
                (subscription w socket any_channels shard convention c) refl i.numbered);
        explicit = rw s (
            All-append (IsExplicit convention) c.sent
              (subscription w socket any_channels shard convention c ∷ []) i.explicit (refl, tt));
        untouched = open-AreOpened convention shard books i.untouched;
      }

  pub refused-IsSubscribed :
      (c c' : Connection w socket) (books : Books)
      → IsSubscribed c books
      → c'.next_command_id ≡ c.next_command_id + 1
      → c'.sent ≡ c.sent
      → IsSubscribed c' books
  refused-IsSubscribed c c' books i n s = record {
    unique = rw s i.unique;
    covered = λ m. rw s (i.covered m);
    numbered = rw (s, n) (IsNumbered-later 1 c.next_command_id c.sent i.numbered);
    explicit = rw s i.explicit;
    untouched = i.untouched;
  }

  -- The state keeps its form; where all succeeds the markets are the new ones, behind the old.
  abbrev pub Grown :
      {A : Type 0}
      → List Text
      → Connection w socket
      → (Connection w socket × Books) × Result WsError A
      → Type 0
  Grown fresh c ((c', books'), ok _) =
      IsSubscribed c' books' × (subscribed_in c'.sent ≡ subscribed_in c.sent ++ fresh)
  Grown fresh c ((c', books'), err e) = IsSubscribed c' books'

  Grown-after :
      {A : Type 0} (shard rest : List Text) (c c' : Connection w socket)
      (r : (Connection w socket × Books) × Result WsError A)
      → subscribed_in c'.sent ≡ subscribed_in c.sent ++ shard
      → Grown rest c' r
      → Grown (shard ++ rest) c r
  Grown-after shard rest c c' ((c'', books), err e) s g = g
  Grown-after shard rest c c' ((c'', books), ok x) s g =
      (g.0, g.1 ∙ ap (λ l. l ++ rest) s ∙ append_assoc (subscribed_in c.sent) shard rest)

  subscribe_shards-Grown :
      (shards : List (List Text)) (c : Connection w socket) (books : Books)
      → IsSubscribed c books
      → IsUnique (flat shards)
      → Apart (flat shards) (subscribed_in c.sent)
      → Grown (flat shards) c (subscribe_shards w socket channels convention shards (c, books))
  unfolding subscribe_shards
  subscribe_shards-Grown [] c books i u a = (i, sym (append-nil (subscribed_in c.sent)))
  subscribe_shards-Grown (shard ∷ shards) c books i u a =
      go (subscribe w socket channels shard convention c)
        (subscribe_lem w socket channels shard convention c)
        λ c' i' u' a'. subscribe_shards-Grown shards c' (open_books convention shard books) i' u' a'
    where
      parts : IsUnique shard × IsUnique (flat shards) × Apart shard (flat shards)
      parts = IsUnique-split shard (flat shards) u

      go :
          (r : Connection w socket × Result WsError ℕ)
          → Subscribed w socket channels shard convention c r
          → ((c' : Connection w socket)
              → IsSubscribed c' (open_books convention shard books)
              → IsUnique (flat shards)
              → Apart (flat shards) (subscribed_in c'.sent)
              → Grown (flat shards) c' (
                  subscribe_shards w socket channels convention shards
                    (c', open_books convention shard books)))
          → Grown (shard ++ flat shards) c (
              after_shard w socket channels convention shard books
                (λ s. subscribe_shards w socket channels convention shards s)
                r)
      go (c', err e) h later = refused-IsSubscribed c c' books i h.0 h.1
      go (c', ok id) h later =
          let sent : subscribed_in c'.sent ≡ subscribed_in c.sent ++ shard =
            ap subscribed_in h.1
            ∙ subscribed_in-last c.sent (subscription w socket channels shard convention c) in
          Grown-after shard (flat shards) c c' _ sent (
            later c'
              (IsSubscribed-IsSubscribed channels shard c c' books i parts.0
                (λ m e. ground (arith, a m, contains-append m shard (flat shards))) h.0 h.1)
              parts.1
              (λ m e. rw sent (
                ground (
                  arith,
                  a m,
                  parts.2 m,
                  contains-append m shard (flat shards),
                  contains-append m (subscribed_in c.sent) shard,
                ))))

  -- What a call of `subscribe_markets` makes of the state, and the number that it returns.
  abbrev pub GrownBy :
      List Text → Connection w socket → (Connection w socket × Books) × Result WsError ℕ → Type 0
  GrownBy fresh c ((c', books'), ok n) =
      (n ≡ length fresh)
      × (IsSubscribed c' books' × (subscribed_in c'.sent ≡ subscribed_in c.sent ++ fresh))
  GrownBy fresh c ((c', books'), err e) = IsSubscribed c' books'

  counted-GrownBy :
      (fresh : List Text) (c : Connection w socket)
      (r : (Connection w socket × Books) × Result WsError Unit)
      → Grown fresh c r
      → GrownBy fresh c (counted w socket channels convention (length fresh) r)
  counted-GrownBy fresh c (s, ok x) g = (refl, g)
  counted-GrownBy fresh c (s, err e) g = g

  -- Whatever markets come, a state of the form is brought to one by `subscribe_markets`; where it
  -- succeeds, it has subscribed to the markets that had no book, once each, and returns their number.
  pub subscribe_markets_lem :
      (shard_size : ℕ) (markets : List Text) (c : Connection w socket) (books : Books)
      → IsSubscribed c books
      → GrownBy
          (markets_needing_subscription books markets)
          c
          (subscribe_markets w socket channels convention shard_size markets (c, books))
        × ((m : Text)
            → contains_text m (markets_needing_subscription books markets)
              ≡ (contains_text m markets && not (contains_key m books)))
  unfolding subscribe_markets markets_needing_subscription
  subscribe_markets_lem shard_size markets c books i =
      let fresh = markets_needing_subscription books markets in
      let size = at_least_one shard_size in
      let inside = λ (m : Text). contains-fresh_among m books markets [] in
      (
        counted-GrownBy fresh c
            (subscribe_shards w socket channels convention (chunks size fresh) (c, books))
            (subst
              (λ l.
                Grown l c
                  (subscribe_shards w socket channels convention (chunks size fresh) (c, books)))
              (flat_all size fresh)
              (subscribe_shards-Grown (chunks size fresh) c books i
                (rw (flat_all size fresh) (fresh_among-IsUnique books markets []))
                (λ m e. ground (arith, rw (flat_all size fresh) at e, inside m, i.covered m)))),
        λ m. ground (arith, inside m),
      )
