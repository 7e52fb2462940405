-- ===== src/Ingest/Client/Discovery/Ending.antt =====
-- Discovery in crates/ingest/src/rest.rs ends where the exchange's cursors run out.
use kalshi_alpha.Prelude.{
  ℕ, zero, suc, ◌<◌, ◌≡◌, refl, Bool, true, false, Option, none, some, List, [], ◌∷◌, arith,
  if◌then◌else◌, Result, ok, err, ℤ,
}
use mathlib.Core.Option
use kalshi_alpha.Prelude.Text.{Text}
use kalshi_alpha.Ingest.Client.{RestError, RestConfig, ResponseMeta, Network}
use kalshi_alpha.Ingest.Client.Discovery.{
  Json, is_empty_text, Crawl, get_page, after_page, crawl_pages, after_pass, crawl_passes,
  passes_of, empty_crawl, discover_markets,
}

-- It is not out of fuel.
abbrev pub Ended : {A : Type 0} → Option A → Type 0
Ended none = ⊥
Ended (some a) = Unit

module _ (json : Json) (net : Network) (config : RestConfig) (rank : net.State → Text → ℕ) where
  -- A page that names a next one is nearer to the end than `k`.
  abbrev pub Advances :
      ℕ → net.State × Result RestError ((List json.Value × Text) × ResponseMeta) → Type 0
  Advances k (n, err e) = Unit
  Advances k (n, ok ((values, next), meta)) = is_empty_text next ≡ false → rank n next < k

  Ended-if :
      (b : Bool) (x y : Option (net.State × Result RestError (Crawl json)))
      → Ended x
      → (b ≡ false → Ended y)
      → Ended (if b then x else y)
  Ended-if true x y h h' = h
  Ended-if false x y h h' = h' refl

  after_page-Ended :
      (fuel k : ℕ) (cursor : Text) (f : Crawl json)
      (continue : Text
        → net.State
        → Crawl json
        → Option (net.State × Result RestError (Crawl json)))
      (r : net.State × Result RestError ((List json.Value × Text) × ResponseMeta))
      → k < suc fuel
      → Advances k r
      → ((c : Text) (n : net.State) (g : Crawl json) → rank n c < fuel → Ended (continue c n g))
      → Ended (after_page json net config cursor f continue r)
  unfolding after_page
  after_page-Ended fuel k cursor f continue (n, err e) b a t = tt
  after_page-Ended fuel k cursor f continue (n, ok ((values, next), meta)) b a t =
      Ended-if (is_empty_text next) _ _ tt
        (λ e. let nearer = a e in t next n _ (omega (arith, nearer, b)))

  module _ (series : Text)
      (advances : (status : Option Text) (cursor : Text) (n : net.State)
        → Advances (rank n cursor) (get_page json net config series status cursor n)) where
    crawl_pages-Ended :
        (fuel : ℕ) (status : Option Text) (cursor : Text) (n : net.State) (f : Crawl json)
        → rank n cursor < fuel
        → Ended (crawl_pages json net config fuel series status cursor n f)
    unfolding crawl_pages
    crawl_pages-Ended zero status cursor n f h = absurd (omega (arith, h))
    crawl_pages-Ended (suc fuel) status cursor n f h =
        after_page-Ended fuel (rank n cursor) cursor f _
          (get_page json net config series status cursor n) h (advances status cursor n)
          λ c m g k. crawl_pages-Ended fuel status c m g k

    after_pass-Ended :
        (continue : net.State → Crawl json → Option (net.State × Result RestError (Crawl json)))
        (r : Option (net.State × Result RestError (Crawl json)))
        → Ended r
        → ((n : net.State) (g : Crawl json) → Ended (continue n g))
        → Ended (after_pass json net config continue r)
    after_pass-Ended continue none h t = absurd h
    after_pass-Ended continue (some (n, err e)) h t = tt
    after_pass-Ended continue (some (n, ok f)) h t = t n f

    module _ (fuel : ℕ) (enough : (n : net.State) → rank n [] < fuel) where
      crawl_passes-Ended :
          (statuses : List (Option Text)) (n : net.State) (f : Crawl json)
          → Ended (crawl_passes json net config fuel series statuses n f)
      unfolding crawl_passes
      crawl_passes-Ended [] n f = tt
      crawl_passes-Ended (s ∷ ss) n f =
          after_pass-Ended _ (crawl_pages json net config fuel series s [] n f)
            (crawl_pages-Ended fuel s [] n f (enough n)) λ m g. crawl_passes-Ended ss m g

      map-Ended : {A B : Type 0} (g : A → B) (r : Option A) → Ended r → Ended (Option.map g r)
      map-Ended g none h = absurd h
      map-Ended g (some a) h = tt

      -- When each page that names a next one brings the crawl nearer to its end, in a rank that
      -- starts below the fuel, discovery ends, with a pass or with the error of a page.
      pub discover_markets_ends :
          (statuses : List Text) (started finished : ℤ) (n : net.State)
          → Ended (discover_markets json net config fuel series statuses started finished n)
      unfolding discover_markets
      discover_markets_ends statuses started finished n =
          map-Ended _ _ (
            crawl_passes-Ended (passes_of json net config statuses) n (empty_crawl json net config))
