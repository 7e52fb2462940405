-- ===== src/Ingest/Doubling.antt =====
-- Waits that double up to a limit, as those of crates/ingest/src/rest.rs and crates/ingest/src/ws.rs do.
use native.Mathlib.Nat.{pow-suc}
use kalshi_alpha.Prelude.{
  ℕ, zero, suc, ◌*◌, ◌^◌, ◌≤◌, ◌≡◌, refl, ap, ◌∙◌, List, [], ◌∷◌, arith, ltb, if◌then◌else◌,
}

-- `Ord::min`
abbrev pub min_of : ℕ → ℕ → ℕ
min_of a b = if ltb b a then b else a

-- `(wait * 2).min(max)`
abbrev pub doubled : ℕ → ℕ → ℕ
doubled max wait = min_of (wait * 2) max

-- The first waits, from the given one on.
abbrev pub waits : ℕ → ℕ → ℕ → List ℕ
waits max wait zero = []
waits max wait (suc n) = wait ∷ waits max (doubled max wait) n

-- The wait after n others.
abbrev pub nth_wait : ℕ → ℕ → ℕ → ℕ
nth_wait max wait zero = wait
nth_wait max wait (suc n) = nth_wait max (doubled max wait) n

double_capped : (max a : ℕ) → doubled max (min_of a max) ≡ min_of (a * 2) max
double_capped max a = ground (arith)

nth_wait_from : (max a n : ℕ) → nth_wait max (min_of a max) n ≡ min_of (a * 2 ^ n) max
nth_wait_from max a zero = ground (arith)
nth_wait_from max a (suc n) =
    rw (double_capped max a, pow-suc 2 n)
      (nth_wait_from max (a * 2) n ∙ ap (λ x. min_of x max) (grind (arith)))

-- The waits from the one after k others on, in closed form.
abbrev pub capped_waits : (max initial k n : ℕ) → List ℕ
capped_waits max initial k zero = []
capped_waits max initial k (suc n) =
    min_of (initial * 2 ^ k) max ∷ capped_waits max initial (suc k) n

waits_from : (max a k n : ℕ) → waits max (min_of (a * 2 ^ k) max) n ≡ capped_waits max a k n
waits_from max a k zero = refl
waits_from max a k (suc n) =
    ap (λ l. min_of (a * 2 ^ k) max ∷ l)
      (ap (λ x. waits max x n)
          (double_capped max (a * 2 ^ k)
            ∙ ap (λ x. min_of x max) (rw (pow-suc 2 k) (grind (arith))))
        ∙ waits_from max a (suc k) n)

pub waits_lem :
    (max initial n : ℕ) → initial ≤ max → waits max initial n ≡ capped_waits max initial 0 n
waits_lem max initial n h = ap (λ x. waits max x n) (ground (arith)) ∙ waits_from max initial 0 n

-- From a first wait within the limit, the wait after n others is the first one doubled n times, up
-- to the limit.
pub nth_wait_lem :
    (max initial n : ℕ) → initial ≤ max → nth_wait max initial n ≡ min_of (initial * 2 ^ n) max
nth_wait_lem max initial n h =
    ap (λ x. nth_wait max x n) (ground (arith)) ∙ nth_wait_from max initial n
