-- ===== src/Ingest/Client/Discovery/Unique.antt =====
-- Discovery in crates/ingest/src/rest.rs keeps one entry for each ticker, and its JSON beside it.
use kalshi_alpha.Prelude.{
  ℕ, zero, suc, ◌≡◌, inl, inr, refl, sym, ap, ap₂, subst, ◌∙◌, Bool, true, false, ◌||◌, Option,
  none, some, List, [], ◌∷◌, ◌++◌, map, arith, Bool-cases, if◌then◌else◌, Result, ok, err, ℤ,
}
use mathlib.Core.Option
use kalshi_alpha.Prelude.Text.{Text, text_eq, text_eq_sound, text_eq_refl}
use kalshi_alpha.Ingest.Client.{RestError, RestConfig, ResponseMeta, Network}
use kalshi_alpha.Ingest.Client.Discovery.{
  Market, Json, contains_text, is_empty_text, Crawl, DiscoveryPass, take_market, take_page,
  get_page, after_page, crawl_pages, after_pass, crawl_passes, passes_of, pass_of, empty_crawl,
  discover_markets,
}

-- Every text occurs once.
abbrev pub IsUnique : List Text → Type 0
IsUnique [] = Unit
IsUnique (t ∷ ts) = (contains_text t ts ≡ false) × IsUnique ts

contains_text-last :
    (t u : Text) (ts : List Text)
    → contains_text t (ts ++ (u ∷ [])) ≡ contains_text t ts || text_eq u t
contains_text-last t u [] = ground (arith)
contains_text-last t u (s ∷ ts) = ground (arith, contains_text-last t u ts)

last-IsUnique :
    (u : Text) (ts : List Text)
    → contains_text u ts ≡ false
    → IsUnique ts
    → IsUnique (ts ++ (u ∷ []))
last-IsUnique u [] h k = (refl, tt)
last-IsUnique u (t ∷ ts) h k = (
  ground (arith, contains_text-last t u ts, text_eq_sound u t, text_eq_refl t, k.0),
  last-IsUnique u ts (ground (arith)) k.1,
)

map-last :
    {A B : Type 0} (f : A → B) (xs : List A) (x : A)
    → map f (xs ++ (x ∷ [])) ≡ map f xs ++ (f x ∷ [])
map-last f [] x = refl
map-last f (y ∷ xs) x = ap (λ l. f y ∷ l) (map-last f xs x)

module _ (json : Json) where
  -- The tickers are unique, each market is what the value beside it parses to.
  abbrev pub IsListed : List Market → List json.Value → Type 0
  IsListed markets raws =
      IsUnique (map (λ m. m.ticker) markets)
      × (map (λ v. json.as_market v) raws ≡ map (λ m. some m) markets)

  abbrev pub IsCrawl : Crawl json → Type 0
  IsCrawl f =
      IsListed f.markets f.raw_markets
      × ((t : Text) → contains_text t f.seen ≡ contains_text t (map (λ m. m.ticker) f.markets))

  take_market-IsCrawl :
      (value : json.Value) (o : Option Market) (f : Crawl json)
      → json.as_market value ≡ o
      → IsCrawl f
      → IsCrawl (take_market json value o f)
  take_market-IsCrawl value none f e h = h
  take_market-IsCrawl value (some m) f e ((u, a), s) =
      elim (Bool-cases (contains_text m.ticker f.seen)) [
        | inl x ↦ rw x ((u, a), s)
        | inr x ↦ rw x (
          (
            rw (map-last (λ m. m.ticker) f.markets m)
                (last-IsUnique m.ticker (map (λ m. m.ticker) f.markets) (sym (s m.ticker) ∙ x) u),
            map-last (λ v. json.as_market v) f.raw_markets value
                ∙ ap₂ (λ l y. l ++ (y ∷ [])) a e
                ∙ sym (map-last (λ m. some m) f.markets m),
          ),
          λ t.
              rw
                (
                  map-last (λ m. m.ticker) f.markets m,
                  contains_text-last t m.ticker (map (λ m. m.ticker) f.markets),
                )
                (ground (arith, s t)),
        )
      ]

  take_page-IsCrawl :
      (values : List json.Value) (f : Crawl json) → IsCrawl f → IsCrawl (take_page json values f)
  unfolding take_page
  take_page-IsCrawl [] f h = h
  take_page-IsCrawl (v ∷ values) f h =
      take_page-IsCrawl values (take_market json v (json.as_market v) f)
        (take_market-IsCrawl v (json.as_market v) f refl h)

  module _ (net : Network) (config : RestConfig) where
    abbrev Crawls : Option (net.State × Result RestError (Crawl json)) → Type 0
    Crawls none = Unit
    Crawls (some (n, err e)) = Unit
    Crawls (some (n, ok f)) = IsCrawl f

    Crawls-if :
        (b : Bool) (x y : Option (net.State × Result RestError (Crawl json)))
        → Crawls x
        → Crawls y
        → Crawls (if b then x else y)
    Crawls-if true x y h h' = h
    Crawls-if false x y h h' = h'

    after_page-Crawls :
        (cursor : Text) (f : Crawl json)
        (continue : Text
          → net.State
          → Crawl json
          → Option (net.State × Result RestError (Crawl json)))
        (r : net.State × Result RestError ((List json.Value × Text) × ResponseMeta))
        → ((c : Text) (n : net.State) (g : Crawl json) → IsCrawl g → Crawls (continue c n g))
        → IsCrawl f
        → Crawls (after_page json net config cursor f continue r)
    unfolding after_page
    after_page-Crawls cursor f continue (n, err e) t h = tt
    after_page-Crawls cursor f continue (n, ok ((values, next), meta)) t h =
        let grown : Crawl json =
          take_page json values (record f { cursors = f.cursors ++ (cursor ∷ []) }) in
        let good : IsCrawl grown = take_page-IsCrawl values _ h in
        Crawls-if (is_empty_text next) (some (n, ok grown)) (continue next n grown) good
          (t next n grown good)

    crawl_pages-Crawls :
        (fuel : ℕ) (series : Text) (status : Option Text) (cursor : Text) (n : net.State)
        (f : Crawl json)
        → IsCrawl f
        → Crawls (crawl_pages json net config fuel series status cursor n f)
    unfolding crawl_pages
    crawl_pages-Crawls zero series status cursor n f h = tt
    crawl_pages-Crawls (suc fuel) series status cursor n f h =
        after_page-Crawls cursor f _ (get_page json net config series status cursor n)
          (λ c m g k. crawl_pages-Crawls fuel series status c m g k) h

    after_pass-Crawls :
        (continue : net.State → Crawl json → Option (net.State × Result RestError (Crawl json)))
        (r : Option (net.State × Result RestError (Crawl json)))
        → ((n : net.State) (g : Crawl json) → IsCrawl g → Crawls (continue n g))
        → Crawls r
        → Crawls (after_pass json net config continue r)
    after_pass-Crawls continue none t h = tt
    after_pass-Crawls continue (some (n, err e)) t h = tt
    after_pass-Crawls continue (some (n, ok f)) t h = t n f h

    crawl_passes-Crawls :
        (fuel : ℕ) (series : Text) (statuses : List (Option Text)) (n : net.State) (f : Crawl json)
        → IsCrawl f
        → Crawls (crawl_passes json net config fuel series statuses n f)
    unfolding crawl_passes
    crawl_passes-Crawls fuel series [] n f h = h
    crawl_passes-Crawls fuel series (s ∷ ss) n f h =
        after_pass-Crawls _ (crawl_pages json net config fuel series s [] n f)
          (λ m g k. crawl_passes-Crawls fuel series ss m g k)
          (crawl_pages-Crawls fuel series s [] n f h)

    abbrev Passes : Option (net.State × Result RestError (DiscoveryPass json)) → Type 0
    Passes none = Unit
    Passes (some (n, err e)) = Unit
    Passes (some (n, ok p)) = IsListed p.markets p.raw_markets

    map-Passes :
        (started finished : ℤ) (r : Option (net.State × Result RestError (Crawl json)))
        → Crawls r
        → Passes (Option.map (pass_of json net config started finished) r)
    map-Passes started finished none h = tt
    map-Passes started finished (some (n, err e)) h = tt
    map-Passes started finished (some (n, ok f)) h = h.0

    -- A discovery pass has each ticker once, whatever pages and statuses it was on, and beside each
    -- market the JSON value that parses to it.
    pub discover_markets_unique :
        (fuel : ℕ) (series : Text) (statuses : List Text) (started finished : ℤ) (n n' : net.State)
        (pass : DiscoveryPass json)
        → discover_markets json net config fuel series statuses started finished n
          ≡ some (n', ok pass)
        → IsListed pass.markets pass.raw_markets
    unfolding discover_markets
    discover_markets_unique fuel series statuses started finished n n' pass e = subst Passes e (
        map-Passes started finished _ (
          crawl_passes-Crawls fuel series (passes_of json net config statuses) n
            (empty_crawl json net config) ((tt, refl), λ t. refl)))
