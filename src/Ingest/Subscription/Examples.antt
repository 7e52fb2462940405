-- ===== src/Ingest/Subscription/Examples.antt =====
-- The theorems on sequence streams at a subscription that has seen the number 7.
use kalshi_alpha.Prelude.{ℕ, ◌≡◌, refl, true, false, some, none, List, [], ◌∷◌, done, ℤ, pos}
use kalshi_alpha.Prelude.Text.{codes}
use kalshi_alpha.Ingest.Subscription.{
  SubscriptionState, SeqOutcome, in_order, gap, regression, observe_seq,
}
use kalshi_alpha.Ingest.Subscription.Streams.{observe_all, Accounts, observe_all-Accounts}

abbrev live : SubscriptionState
live = record {
  sid = 3;
  channel = codes "orderbook_delta";
  markets = codes "KXBTC" ∷ [];
  last_seq = some 7;
  valid = true;
  gaps = 0;
  invalid_since = none;
  invalid_total = pos 0;
}

-- After a gap at the time 20.
abbrev broken : SubscriptionState
broken = record live { last_seq = some 11; valid = false; gaps = 1; invalid_since = some (pos 20) }

abbrev messages : List (ℕ × ℤ)
messages = (8, pos 10) ∷ (11, pos 20) ∷ (9, pos 30) ∷ []

abbrev outcomes : List SeqOutcome
outcomes = in_order ∷ gap 9 11 2 ∷ regression 11 9 ∷ []

messages_result : observe_all live messages ≡ done (broken, outcomes)
unfolding observe_all
messages_result = refl

observe_all-Accounts_example : Accounts live 7 broken outcomes
observe_all-Accounts_example =
    observe_all-Accounts live messages broken outcomes 7 refl messages_result

gap_result : observe_seq live 11 (pos 20) ≡ done (broken, gap 8 11 3)
unfolding observe_seq
gap_result = refl
