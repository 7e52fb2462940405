-- ===== src/Ingest/Markets/Examples.antt =====
-- The theorems on the registry of markets at three tickers.
use kalshi_alpha.Prelude.{
  ◌≡◌, ◌↔◌, refl, Bool, true, false, ◌||◌, ◌&&◌, not, List, [], ◌∷◌, ℤ, pos, some, none,
}
use kalshi_alpha.Prelude.Text.{codes}
use kalshi_alpha.Common.Ticker.{Ticker}
use kalshi_alpha.Ingest.Markets.{
  MarketRegistry, reconciliation, empty_registry, get, contains, observe_lifecycle, observe_startup,
  reconcile, is_clean,
}
use kalshi_alpha.Ingest.Markets.Reconcile.{
  contains_ticker, IsUnique, reconcile_lem, reconcile_after_startup,
}

abbrev a_ticker : Ticker
a_ticker = record { text = codes "KXA" }

abbrev b_ticker : Ticker
b_ticker = record { text = codes "KXB" }

abbrev one_known : MarketRegistry
one_known = (observe_lifecycle empty_registry a_ticker (pos 1)).0

reconcile_lem_example :
    (get (reconcile one_known (b_ticker ∷ a_ticker ∷ b_ticker ∷ []) (pos 2)).0 b_ticker
      ≡ some (record { ticker = b_ticker; learned_via = reconciliation; first_seen_at = pos 2 }))
    × (((reconcile one_known (b_ticker ∷ a_ticker ∷ b_ticker ∷ []) (pos 2)).1.newly_known
          ≡ (reconcile one_known
              (b_ticker ∷ a_ticker ∷ b_ticker ∷ [])
              (pos 2)).1.missed_by_live_path)
        × (IsUnique
              (reconcile one_known
                (b_ticker ∷ a_ticker ∷ b_ticker ∷ [])
                (pos 2)).1.missed_by_live_path
            × (contains_ticker b_ticker
                  (reconcile one_known
                    (b_ticker ∷ a_ticker ∷ b_ticker ∷ [])
                    (pos 2)).1.missed_by_live_path
                ≡ true)))
unfolding observe_lifecycle get contains kalshi_alpha.Prelude.Text.text_eq
reconcile_lem_example =
    reconcile_lem one_known (b_ticker ∷ a_ticker ∷ b_ticker ∷ []) (pos 2) b_ticker

reconcile_after_startup_example :
    (is_clean
        (reconcile (observe_startup one_known (b_ticker ∷ []) (pos 2)).0 (a_ticker ∷ []) (pos 3)).1
      ≡ true)
    ↔ ((u : Ticker)
        → contains_ticker u (a_ticker ∷ []) ≡ true
        → (contains one_known u || contains_ticker u (b_ticker ∷ [])) ≡ true)
reconcile_after_startup_example =
    reconcile_after_startup one_known (b_ticker ∷ []) (a_ticker ∷ []) (pos 2) (pos 3)
