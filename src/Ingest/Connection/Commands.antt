-- ===== src/Ingest/Connection/Commands.antt =====
-- What `subscribe` of crates/ingest/src/ws.rs sends, and the ids of the commands of a connection.
use kalshi_alpha.Prelude.{
  ℕ, suc, ◌+◌, ◌≤◌, ◌≡◌, refl, Bool, Option, none, some, List, [], ◌∷◌, ◌++◌, if◌then◌else◌, Result,
  ok, err, arith, Bool-cases, Result-cases, inl, inr, sym, ap, ◌∙◌, append-nil, append_assoc,
}
use kalshi_alpha.Prelude.Text.{Text, codes}
use kalshi_alpha.Ingest.Client.Discovery.{contains_text}
use kalshi_alpha.Ingest.Connection.{
  PricingConvention, use_yes_price, WsError, Command, subscribe_to, unsubscribe_from, snapshot_of,
  JsonWriter, Socket, Connection, to_json, send, subscribe,
}

abbrev pub id_of : Command → ℕ
id_of (subscribe_to id channels market_tickers flag) = id
id_of (unsubscribe_from id sids) = id
id_of (snapshot_of id sid market_tickers) = id

abbrev pub markets_of : Command → List Text
markets_of (subscribe_to id channels market_tickers flag) = market_tickers
markets_of (unsubscribe_from id sids) = []
markets_of (snapshot_of id sid market_tickers) = []

-- The markets of all subscriptions.
abbrev pub subscribed_in : List Command → List Text
subscribed_in [] = []
subscribed_in (c ∷ cs) = markets_of c ++ subscribed_in cs

-- The ids ascend strictly, from the first number on and below the second.
abbrev pub IsNumbered : ℕ → List Command → ℕ → Type 0
IsNumbered low [] high = low ≤ high
IsNumbered low (c ∷ cs) high = (low ≤ id_of c) × IsNumbered (suc (id_of c)) cs high

-- A subscription states the convention exactly when it is one to the order book.
abbrev pub flag_for : PricingConvention → List Text → Option Bool
flag_for convention channels =
    if contains_text (codes "orderbook_delta") channels
    then some (use_yes_price convention)
    else none

abbrev pub IsExplicit : PricingConvention → Command → Type 0
IsExplicit convention (subscribe_to id channels market_tickers flag) =
    flag ≡ flag_for convention channels
IsExplicit convention (unsubscribe_from id sids) = Unit
IsExplicit convention (snapshot_of id sid market_tickers) = Unit

pub IsNumbered-last :
    (low high : ℕ) (cs : List Command) (c : Command)
    → id_of c ≡ high
    → IsNumbered low cs high
    → IsNumbered low (cs ++ (c ∷ [])) (high + 1)
IsNumbered-last low high [] c e h = (omega arith, omega arith)
IsNumbered-last low high (d ∷ cs) c e h = (h.0, IsNumbered-last (suc (id_of d)) high cs c e h.1)

pub IsNumbered-later :
    (low high : ℕ) (cs : List Command) → IsNumbered low cs high → IsNumbered low cs (high + 1)
IsNumbered-later low high [] h = omega arith
IsNumbered-later low high (d ∷ cs) h = (h.0, IsNumbered-later (suc (id_of d)) high cs h.1)

pub subscribed_in-last :
    (cs : List Command) (c : Command)
    → subscribed_in (cs ++ (c ∷ [])) ≡ subscribed_in cs ++ markets_of c
subscribed_in-last [] c = append-nil (markets_of c)
subscribed_in-last (d ∷ cs) c =
    ap (λ l. markets_of d ++ l) (subscribed_in-last cs c)
    ∙ sym (append_assoc (markets_of d) (subscribed_in cs) (markets_of c))

module _ (w : JsonWriter) (socket : Socket) where
  -- The command that a call of `subscribe` is to send.
  abbrev pub subscription :
      List Text → List Text → PricingConvention → Connection w socket → Command
  subscription channels markets convention c =
      subscribe_to c.next_command_id channels markets (flag_for convention channels)

  -- The command is the last one sent, or the call failed; its id is used up either way.
  abbrev pub Subscribed :
      List Text
      → List Text
      → PricingConvention
      → Connection w socket
      → Connection w socket × Result WsError ℕ
      → Type 0
  Subscribed channels markets convention c (c', ok id) =
      (c'.next_command_id ≡ c.next_command_id + 1)
      × (c'.sent ≡ c.sent ++ (subscription channels markets convention c ∷ []))
  Subscribed channels markets convention c (c', err e) =
      (c'.next_command_id ≡ c.next_command_id + 1) × (c'.sent ≡ c.sent)

  pub subscribe_lem :
      (channels markets : List Text) (convention : PricingConvention) (c : Connection w socket)
      → Subscribed channels markets convention c (subscribe w socket channels markets convention c)
  unfolding subscribe send
  subscribe_lem channels markets convention c =
      elim (Result-cases (to_json w (subscription channels markets convention c))) [
        | inl (text, e) ↦ elim (Bool-cases (socket.send c.stream text).1) [
          | inl a ↦ rw (e, a) (refl, refl)
          | inr a ↦ rw (e, a) (refl, refl)
        ]
        | inr (x, e) ↦ rw e (refl, refl)
      ]
