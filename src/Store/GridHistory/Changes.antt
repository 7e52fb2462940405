-- ===== src/Store/GridHistory/Changes.antt =====
-- What crates/store/src/grid_history.rs writes: the observations whose content is not the last one's.
use kalshi_alpha.Prelude.{
  ◌+◌, ◌≡◌, inl, inr, refl, sym, ap, subst, ◌∙◌, Bool, true, false, Option, none, some, List, [],
  ◌∷◌, length, arith, if◌then◌else◌, Bool-cases,
}
use kalshi_alpha.Prelude.Text.{Text, text_eq, text_eq_refl, text_eq_sound}
use kalshi_alpha.Store.GridHistory.{
  GridSource, discovery, lifecycle, GridVerdict, first_observation, changed, unchanged, grid_hash,
  Key, eq_key, get_hash, insert_hash, GridHistory, empty_history, record_hash, observe,
}

eq_key_refl : (k : Key) → eq_key k k ≡ true
eq_key_refl (t, discovery) = ground (arith, text_eq_refl t)
eq_key_refl (t, lifecycle) = ground (arith, text_eq_refl t)

eq_key_sound : (k j : Key) → eq_key k j ≡ true → k ≡ j
eq_key_sound (t, discovery) (u, discovery) h =
    ap (λ x. (x, discovery)) (text_eq_sound t u (ground (arith)))
eq_key_sound (t, lifecycle) (u, lifecycle) h =
    ap (λ x. (x, lifecycle)) (text_eq_sound t u (ground (arith)))
eq_key_sound (t, discovery) (u, lifecycle) h = absurd (let x : false ≡ true = ground (arith) in cc)
eq_key_sound (t, lifecycle) (u, discovery) h = absurd (let x : false ≡ true = ground (arith) in cc)

get-insert :
    (k j : Key) (h : Text) (m : List (Key × Text))
    → get_hash j (insert_hash k h m) ≡ (if eq_key k j then some h else get_hash j m)
unfolding get_hash insert_hash
get-insert k j h [] = refl
get-insert k j h ((i, g) ∷ m) = elim (Bool-cases (eq_key i k)) [
  | inl e ↦ rw (e, eq_key_sound i k e) (shadowed (eq_key k j) (some h) (some g) (get_hash j m))
  | inr e ↦ rw e (elim (Bool-cases (eq_key i j)) [
    | inl x ↦ rw (x, apart i j k e x) refl
    | inr x ↦ rw x (get-insert k j h m)
  ])
]
  where
    shadowed :
        (b : Bool) (x y z : Option Text)
        → (if b then x else z) ≡ (if b then x else if b then y else z)
    shadowed true x y z = refl
    shadowed false x y z = refl

    apart : (i j k : Key) → eq_key i k ≡ false → eq_key i j ≡ true → eq_key k j ≡ false
    apart i j k e x = elim (Bool-cases (eq_key k j)) [
      | inl y ↦
          let same : eq_key i k ≡ true =
            subst (λ z. eq_key i z ≡ true) (sym (eq_key_sound k j y)) x in
          absurd (cc)
      | inr y ↦ y
    ]

abbrev pub Observation : Type 0
Observation = Text × (GridSource × Text)

abbrev pub key_of : Observation → Key
key_of (market, (source, json)) = (market, source)

abbrev pub observe_one : GridHistory → Observation → GridHistory × GridVerdict
observe_one g (market, (source, json)) = observe g market source json

abbrev pub observe_all : GridHistory → List Observation → GridHistory
observe_all g [] = g
observe_all g (x ∷ xs) = observe_all (observe_one g x).0 xs

-- The hash of the last observation with the key, if there is one behind the given.
abbrev pub last_content : Option Text → Key → List Observation → Option Text
last_content o k [] = o
last_content o k (x ∷ xs) =
    last_content (if eq_key (key_of x) k then some (grid_hash x.1.1) else o) k xs

-- The verdict that the last content calls for.
abbrev pub verdict_of : Option Text → Text → GridVerdict
verdict_of none hash = first_observation
verdict_of (some previous) hash = if text_eq previous hash then unchanged else changed

record_hash-get :
    (g : GridHistory) (k j : Key) (hash : Text) (o : Option Text)
    → get_hash k g.last ≡ o
    → get_hash j (record_hash g k hash o).0.last
      ≡ (if eq_key k j then some hash else get_hash j g.last)
record_hash-get g k j hash none e = get-insert k j hash g.last
record_hash-get g k j hash (some previous) e = elim (Bool-cases (text_eq previous hash)) [
  | inl x ↦ rw x (elim (Bool-cases (eq_key k j)) [
    | inl y ↦ rw y (
        subst (λ z. get_hash z g.last ≡ some hash) (eq_key_sound k j y)
          (e ∙ ap (λ t. some t) (text_eq_sound previous hash x)))
    | inr y ↦ rw y refl
  ])
  | inr x ↦ rw x (get-insert k j hash g.last)
]

observe_all-get :
    (g : GridHistory) (xs : List Observation) (k : Key)
    → get_hash k (observe_all g xs).last ≡ last_content (get_hash k g.last) k xs
unfolding observe
observe_all-get g [] k = refl
observe_all-get g ((market, (source, json)) ∷ xs) k =
    observe_all-get (observe_one g (market, (source, json))).0 xs k
    ∙ ap (λ o. last_content o k xs)
        (record_hash-get g (market, source) k (grid_hash json) (get_hash (market, source) g.last)
          refl)

record_hash-count :
    (g : GridHistory) (k : Key) (hash : Text) (o : Option Text)
    → (record_hash g k hash o).0.changes_recorded
        + (record_hash g k hash o).0.unchanged_observations
      ≡ g.changes_recorded + g.unchanged_observations + 1
record_hash-count g k hash none = omega (arith)
record_hash-count g k hash (some previous) = elim (Bool-cases (text_eq previous hash)) [
  | inl x ↦ rw x (omega (arith))
  | inr x ↦ rw x (omega (arith))
]

observe_all-count :
    (g : GridHistory) (xs : List Observation)
    → (observe_all g xs).changes_recorded + (observe_all g xs).unchanged_observations
      ≡ g.changes_recorded + g.unchanged_observations + length xs
unfolding observe
observe_all-count g [] = omega (arith)
observe_all-count g ((market, (source, json)) ∷ xs) = omega (
  arith,
  observe_all-count (observe_one g (market, (source, json))).0 xs,
  record_hash-count g (market, source) (grid_hash json) (get_hash (market, source) g.last),
)

record_hash-verdict :
    (g : GridHistory) (k : Key) (hash : Text) (o : Option Text)
    → (record_hash g k hash o).1 ≡ verdict_of o hash
record_hash-verdict g k hash none = refl
record_hash-verdict g k hash (some previous) = elim (Bool-cases (text_eq previous hash)) [
  | inl x ↦ rw x refl
  | inr x ↦ rw x refl
]

-- After any observations from an empty history, the verdict on the next one depends on the last
-- of them with the same market and source alone: it is the first one, or it is unchanged exactly
-- when its hash is that one's; and the changes and the unchanged observations add up to all.
pub observe_all_lem :
    (xs : List Observation) (market : Text) (source : GridSource) (json : Text)
    → ((observe (observe_all empty_history xs) market source json).1
        ≡ verdict_of (last_content none (market, source) xs) (grid_hash json))
      × ((observe_all empty_history xs).changes_recorded
            + (observe_all empty_history xs).unchanged_observations
          ≡ length xs)
unfolding observe
observe_all_lem xs market source json = (
  record_hash-verdict (observe_all empty_history xs) (market, source) (grid_hash json) _
      ∙ ap (λ o. verdict_of o (grid_hash json)) (observe_all-get empty_history xs (market, source)),
  omega (arith, observe_all-count empty_history xs),
)
