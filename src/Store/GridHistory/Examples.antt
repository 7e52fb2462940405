-- ===== src/Store/GridHistory/Examples.antt =====
-- The hash and the history of crates/store/src/grid_history.rs at some observations.
use kalshi_alpha.Prelude.{◌+◌, ◌≡◌, refl, none, List, [], ◌∷◌}
use kalshi_alpha.Prelude.Text.{codes}
use kalshi_alpha.Store.GridHistory.{discovery, lifecycle, empty_history, grid_hash, observe}
use kalshi_alpha.Store.GridHistory.Changes.{
  Observation, observe_all, last_content, verdict_of, observe_all_lem,
}

-- The hash of no bytes is the offset of FNV-1a.
hash_of_nothing : grid_hash [] ≡ codes "cbf29ce484222325"
unfolding grid_hash
hash_of_nothing = refl

abbrev two_reads : List Observation
two_reads = (codes "KXA", (discovery, codes "[]")) ∷ (codes "KXA", (lifecycle, codes "[1]")) ∷ []

observe_all_lem_example :
    ((observe (observe_all empty_history two_reads) (codes "KXA") discovery (codes "[]")).1
      ≡ verdict_of (last_content none (codes "KXA", discovery) two_reads) (grid_hash (codes "[]")))
    × ((observe_all empty_history two_reads).changes_recorded
          + (observe_all empty_history two_reads).unchanged_observations
        ≡ 2)
observe_all_lem_example = observe_all_lem two_reads (codes "KXA") discovery (codes "[]")
