-- ===== src/Daemon/Startup/Settled.antt =====
-- What is settled when `run_capture` of bin/capture.rs goes on.
use kalshi_alpha.Prelude.{
  ℕ, ◌≡◌, refl, sym, ap, subst, ◌∙◌, Bool, true, false, not, ◌||◌, List, [], ◌∷◌, arith, Result, ok,
  err, ◌>>=◌, ℤ, bind_ok, ok-injective, Bool-cases, inl, inr,
}
use kalshi_alpha.Prelude.Text.{Text, codes, text_eq, text_eq_sound}
use kalshi_alpha.Ingest.Auth.{from_pem_file}
use kalshi_alpha.Ingest.Connection.{
  PricingConvention, no_leg_pricing, yes_leg_pricing, convention_str, WsError, parse_convention,
}
use kalshi_alpha.Store.Session.{
  Calendar, Environment, demo, prod, environment_str, SessionMetadata, new_session, Provenance,
  clean, dirty, stale, unknown,
}
use kalshi_alpha.Daemon.Config.{Cli, Endpoint, AppConfig}
use kalshi_alpha.Daemon.Startup.{
  StartError, no_convention, no_session, no_credentials, empty_key_id, quarantine_failed,
  expand_tilde, session_of, with_session, provenance_gate, environment_gate, endpoint_of, is_blank,
  or_refused, or_configured, require, Prepared, Surroundings, prepare,
}

-- A production run is built from a known commit, unless the caller waives that.
abbrev pub IsShippable : Bool → Provenance → Type 0
IsShippable allow_dirty dirty = allow_dirty ≡ true
IsShippable allow_dirty clean = Unit
IsShippable allow_dirty (stale built_from head) = Unit
IsShippable allow_dirty (unknown reason) = Unit

abbrev pub Allowed : Cli → Provenance → Environment → Type 0
Allowed cli p demo = cli.env ≡ codes "demo"
Allowed cli p prod =
    (cli.env ≡ codes "prod")
    × ((cli.i_understand_this_is_production ≡ true) × IsShippable cli.allow_dirty_tree p)

provenance_gate-Allowed :
    (cli : Cli) (p : Provenance) (e : Environment) (b : Bool)
    → b ≡ cli.allow_dirty_tree
    → cli.env ≡ codes "prod"
    → cli.i_understand_this_is_production ≡ true
    → provenance_gate b p ≡ ok e
    → Allowed cli p e
unfolding provenance_gate
provenance_gate-Allowed cli clean e true same name known h =
    subst (Allowed cli clean) (ok-injective prod e h) (name, (known, tt))
provenance_gate-Allowed cli clean e false same name known h =
    subst (Allowed cli clean) (ok-injective prod e h) (name, (known, tt))
provenance_gate-Allowed cli (unknown r) e true same name known h =
    subst (Allowed cli (unknown r)) (ok-injective prod e h) (name, (known, tt))
provenance_gate-Allowed cli (unknown r) e false same name known h =
    subst (Allowed cli (unknown r)) (ok-injective prod e h) (name, (known, tt))
provenance_gate-Allowed cli dirty e true same name known h =
    subst (Allowed cli dirty) (ok-injective prod e h) (name, (known, sym same))
provenance_gate-Allowed cli dirty e false same name known h = absurd (cc)
provenance_gate-Allowed cli (stale f g) e true same name known h =
    subst (Allowed cli (stale f g)) (ok-injective prod e h) (name, (known, tt))
provenance_gate-Allowed cli (stale f g) e false same name known h =
    subst (Allowed cli (stale f g)) (ok-injective prod e h) (name, (known, tt))

environment_gate-Allowed :
    (cli : Cli) (p : Provenance) (e : Environment) → environment_gate cli p ≡ ok e → Allowed cli p e
unfolding environment_gate
environment_gate-Allowed cli p e h = elim (Bool-cases (text_eq cli.env (codes "demo"))) [
  | inl d ↦
      subst (Allowed cli p) (ok-injective {E = StartError} demo e (ground arith))
        (text_eq_sound cli.env (codes "demo") d)
  | inr d ↦ elim (Bool-cases (text_eq cli.env (codes "prod"))) [
    | inl q ↦ elim (Bool-cases cli.i_understand_this_is_production) [
      | inl k ↦
          provenance_gate-Allowed cli p e cli.allow_dirty_tree refl
            (text_eq_sound cli.env (codes "prod") q) k (ground arith)
      | inr k ↦ absurd (ground arith)
    ]
    | inr q ↦ absurd (ground arith)
  ]
]

parse_convention-str :
    (s : Text) (c : PricingConvention) → parse_convention s ≡ ok c → convention_str c ≡ s
unfolding parse_convention
parse_convention-str s c h = elim (Bool-cases (text_eq s (codes "no_leg"))) [
  | inl n ↦
      ap convention_str (sym (ok-injective {E = WsError} no_leg_pricing c (ground arith)))
      ∙ sym (text_eq_sound s (codes "no_leg") n)
  | inr n ↦ elim (Bool-cases (text_eq s (codes "yes_leg"))) [
    | inl y ↦
        ap convention_str (sym (ok-injective {E = WsError} yes_leg_pricing c (ground arith)))
        ∙ sym (text_eq_sound s (codes "yes_leg") y)
    | inr y ↦ absurd (ground arith)
  ]
]

or_refused-ok :
    {E A : Type 0} (f : E → StartError) (r : Result E A) (a : A) → or_refused f r ≡ ok a → r ≡ ok a
or_refused-ok f (ok b) a h = ap ok (ok-injective b a h)
or_refused-ok f (err e) a h = absurd (cc)

require-true : (b : Bool) (e : StartError) (u : Unit) → require b e ≡ ok u → b ≡ true
require-true true e u h = refl
require-true false e u h = absurd (cc)

-- What the session repeats of the settings of the run.
abbrev pub Describes : Environment → Text → ℕ → List Text → Text → SessionMetadata → Type 0
Describes environment convention shard_size channels ws m =
    (m.environment ≡ environment)
    × ((m.pricing_convention ≡ convention)
        × ((m.orderbook_shard_size ≡ shard_size) × ((m.channels ≡ channels) × (m.ws_url ≡ ws))))

new_session-Describes :
    (calendar : Calendar) (commit convention : Text) (e : Environment) (n : ℕ)
    (channels : List Text) (ws : Text) (now : ℤ) (m : SessionMetadata)
    → new_session calendar commit convention e n channels ws now ≡ ok m
    → Describes e convention n channels ws m
unfolding new_session
new_session-Describes calendar commit (c ∷ convention) e n (x ∷ xs) (w ∷ ws) now m h =
    subst (Describes e (c ∷ convention) n (x ∷ xs) (w ∷ ws)) (ok-injective _ m h)
      (refl, (refl, (refl, (refl, refl))))
new_session-Describes calendar commit [] e n channels ws now m h = absurd (cc)
new_session-Describes calendar commit (c ∷ convention) e n channels [] now m h = absurd (cc)
new_session-Describes calendar commit (c ∷ convention) e n [] (w ∷ ws) now m h = absurd (cc)

not-true : (b : Bool) → not b ≡ true → b ≡ false
not-true true h = sym h
not-true false h = refl

-- What holds of the settings that a run goes on with.
abbrev pub Sound : Surroundings → Cli → AppConfig → Prepared → Type 0
Sound s cli config p =
    Allowed cli s.provenance p.environment
    × ((endpoint_of (environment_str p.environment) config.endpoints ≡ ok p.endpoint)
        × ((convention_str p.convention ≡ config.websocket.pricing_convention)
            × ((is_blank config.auth.key_id ≡ false)
                × Describes p.environment config.websocket.pricing_convention p.shard_size
                    config.websocket.channels p.endpoint.ws p.session)))

session-Sound :
    (s : Surroundings) (cli : Cli) (config : AppConfig) (e : Environment) (w : Endpoint)
    (c : PricingConvention) (m : SessionMetadata) (p : Prepared)
    → Allowed cli s.provenance e
    → endpoint_of (environment_str e) config.endpoints ≡ ok w
    → convention_str c ≡ config.websocket.pricing_convention
    → is_blank config.auth.key_id ≡ false
    → Describes e
        (convention_str c)
        (or_configured config.websocket.orderbook_shard_size cli.orderbook_shard_size)
        config.websocket.channels
        w.ws
        m
    → with_session s cli config e w c m ≡ ok p
    → Sound s cli config p
session-Sound s cli config e w c m p allowed found told named whole h =
    let path = expand_tilde s.home config.auth.private_key_path in
    let (k, (hk, last)) =
      bind_ok
        (or_refused no_credentials
          (from_pem_file s.decode_key config.auth.key_id path (s.read_file path)))
        _ p h in
    subst (Sound s cli config) (ok-injective _ p last) (
      allowed,
      (
        found,
        (
          told,
          (
            named,
            subst
                (λ t.
                  Describes e t
                    (or_configured config.websocket.orderbook_shard_size cli.orderbook_shard_size)
                    config.websocket.channels w.ws m)
                told whole,
          ),
        ),
      ),
    )

-- When the settings of a run are accepted, its environment is demo, or it is prod, which was
-- acknowledged, and the build is not dirty unless a dirty tree was allowed; the endpoint is that of
-- the environment, the convention is the configured one, the key has a name, and the session
-- describes these settings.
pub prepare_lem :
    (s : Surroundings) (cli : Cli) (config : AppConfig) (p : Prepared)
    → prepare s cli config ≡ ok p
    → Sound s cli config p
unfolding prepare
prepare_lem s cli config p h =
    let (e, (he, h1)) = bind_ok (environment_gate cli s.provenance) _ p h in
    let (w, (hw, h2)) = bind_ok (endpoint_of (environment_str e) config.endpoints) _ p h1 in
    let (c, (hc, h3)) =
      bind_ok (or_refused no_convention (parse_convention config.websocket.pricing_convention)) _ p
        h2 in
    let (u, (hu, h4)) =
      bind_ok
        (require (not config.storage.quarantine_on_startup || s.scan_succeeds) quarantine_failed)
        (λ _. session_of s cli config e w c >>= λ m. keyed e w c m) p h3 in
    let (m, (hm, h5)) = bind_ok (session_of s cli config e w c) (λ m. keyed e w c m) p h4 in
    let (v, (hv, h6)) =
      bind_ok (require (not (is_blank config.auth.key_id)) empty_key_id)
        (λ _. with_session s cli config e w c m) p h5 in
    session-Sound s cli config e w c m p (environment_gate-Allowed cli s.provenance e he) hw
      (parse_convention-str _ c (or_refused-ok no_convention _ c hc))
      (not-true _ (require-true _ empty_key_id v hv))
      (new_session-Describes s.calendar s.built_from _ e _ config.websocket.channels w.ws s.now m
        (or_refused-ok no_session _ m hm))
      h6
  where
    keyed :
        Environment → Endpoint → PricingConvention → SessionMetadata → Result StartError Prepared
    keyed e w c m = require (not (is_blank config.auth.key_id)) empty_key_id >>= λ _.
        with_session s cli config e w c m
