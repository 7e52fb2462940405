-- ===== src/Ingest/Connection.antt =====
-- crates/ingest/src/ws.rs: the connection, its commands and what it reads. The socket is a
-- parameter, which takes each text or fails, and so is the JSON that `serde_json` writes and reads.
-- Command ids are unbounded numbers.
pub mod Commands
use kalshi_alpha.Prelude.{
  ℕ, suc, ◌+◌, Bool, true, false, Option, none, some, List, [], ◌∷◌, ◌++◌, if◌then◌else◌, Result,
  ok, err, ℤ, map,
}
use kalshi_alpha.Prelude.Text.{Text, codes, text_eq}
use kalshi_alpha.Ingest.Auth.{Credentials, SignedHeaders, as_pairs, sign_websocket_upgrade}
use kalshi_alpha.Ingest.Wire.{ServerMessage}
use kalshi_alpha.Ingest.Client.Discovery.{contains_text, is_empty_text}

pub data PricingConvention : Type 0 where
  no_leg_pricing yes_leg_pricing : PricingConvention

abbrev pub use_yes_price : PricingConvention → Bool
use_yes_price no_leg_pricing = false
use_yes_price yes_leg_pricing = true

abbrev pub convention_str : PricingConvention → Text
convention_str no_leg_pricing = codes "no_leg"
convention_str yes_leg_pricing = codes "yes_leg"

pub data WsError : Type 0 where
  auth transport encode : WsError
  request connect_failed : (url : Text) → WsError
  closed : (reason : Text) → WsError
  idle_timeout : (secs : ℕ) → WsError
  unknown_pricing_convention : (value : Text) → WsError

unfoldable pub parse_convention : Text → Result WsError PricingConvention
parse_convention s =
    if text_eq s (codes "no_leg")
    then ok no_leg_pricing
    else if text_eq s (codes "yes_leg")
    then ok yes_leg_pricing
    else err (unknown_pricing_convention s)

pub data Command : Type 0 where
  subscribe_to :
      (id : ℕ) (channels market_tickers : List Text) (use_yes_price : Option Bool) → Command
  unsubscribe_from : (id : ℕ) (sids : List ℕ) → Command
  snapshot_of : (id sid : ℕ) (market_tickers : List Text) → Command

-- How JSON values are built and written.
pub record JsonWriter : Type 1 where
  pub Value : Type 0
  pub text : Text → Value
  pub number : ℕ → Value
  pub flag : Bool → Value
  pub array : List Value → Value
  pub object : List (Text × Value) → Value
  pub to_string : Value → Option Text

module _ (w : JsonWriter) where
  abbrev pub texts : List Text → w.Value
  texts ts = w.array (map w.text ts)

  abbrev pub command_of : ℕ → Text → List (Text × w.Value) → w.Value
  command_of id cmd params = w.object (
      (codes "id", w.number id)
      ∷ (codes "cmd", w.text cmd)
      ∷ (codes "params", w.object params)
      ∷ [])

  abbrev pub market_params : List Text → List (Text × w.Value)
  market_params [] = []
  market_params (t ∷ ts) = (codes "market_tickers", texts (t ∷ ts)) ∷ []

  abbrev pub flag_params : Option Bool → List (Text × w.Value)
  flag_params none = []
  flag_params (some b) = (codes "use_yes_price", w.flag b) ∷ []

  abbrev pub json_of : Command → w.Value
  json_of (subscribe_to id channels market_tickers flag) =
      command_of id (codes "subscribe")
        ((codes "channels", texts channels) ∷ (market_params market_tickers ++ flag_params flag))
  json_of (unsubscribe_from id sids) =
      command_of id (codes "unsubscribe") ((codes "sids", w.array (map w.number sids)) ∷ [])
  json_of (snapshot_of id sid market_tickers) = command_of id (codes "update_subscription") (
      (codes "sids", w.array (w.number sid ∷ []))
      ∷ (codes "action", w.text (codes "get_snapshot"))
      ∷ (codes "market_tickers", texts market_tickers)
      ∷ [])

  unfoldable pub to_json : Command → Result WsError Text
  to_json command = elim (w.to_string (json_of command)) [ none ↦ err encode | some text ↦ ok text ]

-- `valid_header` is whether a text parses as the value of a header.
pub record Socket : Type 1 where
  pub State : Type 0
  pub send : State → Text → State × Bool
  pub is_request : Text → Bool
  pub valid_header : Text → Bool
  pub open_socket : (url : Text) → List (Text × Text) → Option State

module _ (w : JsonWriter) (socket : Socket) where
  -- `sent` is no field of the source: the commands that the socket has taken, for the theorems.
  pub record Connection : Type 0 where
    pub stream : socket.State
    pub next_command_id : ℕ
    pub sent : List Command

  abbrev pub valid_headers : List (Text × Text) → List (Text × Text)
  valid_headers [] = []
  valid_headers ((name, value) ∷ rest) =
      let later = valid_headers rest in
      if socket.valid_header value then (name, value) ∷ later else later

  abbrev pub connected : Text → Option socket.State → Result WsError Connection
  connected url none = err (connect_failed url)
  connected url (some stream) = ok (record { stream = stream; next_command_id = 1; sent = [] })

  unfoldable pub connect : Text → Credentials → Option ℕ → Result WsError Connection
  unfolding sign_websocket_upgrade as_pairs
  connect url credentials clock = elim (sign_websocket_upgrade credentials clock) [
    | err e ↦ err auth
    | ok headers ↦
        if socket.is_request url
        then connected url (socket.open_socket url (valid_headers (as_pairs headers)))
        else err (request url)
  ]

  -- `Connection::send`, from the text of the command.
  abbrev pub send_text :
      Command → Connection → Result WsError Text → Connection × Result WsError Unit
  send_text command c (err e) = (c, err e)
  send_text command c (ok text) =
      let (stream, accepted) = socket.send c.stream text in
      if accepted
      then (record c { stream = stream; sent = c.sent ++ (command ∷ []) }, ok tt)
      else (record c { stream = stream }, err transport)

  unfoldable pub send : Command → Connection → Connection × Result WsError Unit
  unfolding to_json
  send command c = send_text command c (to_json w command)

  abbrev pub take_command_id : Connection → Connection × ℕ
  take_command_id c = (record c { next_command_id = c.next_command_id + 1 }, c.next_command_id)

  -- `?` on what was sent, and the id of the command.
  abbrev pub answered : ℕ → Connection × Result WsError Unit → Connection × Result WsError ℕ
  answered id (c, ok _) = (c, ok id)
  answered id (c, err e) = (c, err e)

  unfoldable pub subscribe :
      List Text → List Text → PricingConvention → Connection → Connection × Result WsError ℕ
  unfolding send
  subscribe channels market_tickers convention c =
      let (c', id) = take_command_id c in
      let flag : Option Bool =
        if contains_text (codes "orderbook_delta") channels
        then some (use_yes_price convention)
        else none in
      answered id (send (subscribe_to id channels market_tickers flag) c')

  unfoldable pub request_snapshot : ℕ → List Text → Connection → Connection × Result WsError ℕ
  unfolding send
  request_snapshot sid market_tickers c =
      let (c', id) = take_command_id c in answered id (send (snapshot_of id sid market_tickers) c')

  unfoldable pub unsubscribe : List ℕ → Connection → Connection × Result WsError ℕ
  unfolding send
  unsubscribe sids c =
      let (c', id) = take_command_id c in answered id (send (unsubscribe_from id sids) c')

-- What the socket reads: a close frame has a code and a reason, or nothing.
pub data Frame : Type 0 where
  text_frame : (text : Text) → Frame
  ping pong binary raw_frame : Frame
  close_frame : Option (Text × Text) → Frame

pub data Read : Type 0 where
  frame : Frame → Read
  read_failed stream_ended : Read

module _ {V : Type 0} (parse_message : Text → Option (ServerMessage V)) where
  pub record ReceivedMessage : Type 0 where
    pub received_at : ℤ
    pub raw : Text
    pub parsed : Option (ServerMessage V)

  abbrev pub close_reason : Option (Text × Text) → Text
  close_reason none = codes "no close frame"
  close_reason (some (code, reason)) = code ++ (b' ' ∷ reason)

  abbrev pub of_frame : Frame → ℤ → Result WsError (Option ReceivedMessage)
  of_frame (text_frame raw) received_at =
      ok (some (record { received_at = received_at; raw = raw; parsed = parse_message raw }))
  of_frame (close_frame why) received_at = err (closed (close_reason why))
  of_frame ping received_at = ok none
  of_frame pong received_at = ok none
  of_frame binary received_at = ok none
  of_frame raw_frame received_at = ok none

  -- `next_message`, from what the socket reads and the clock behind it.
  unfoldable pub next_message : Read → ℤ → Result WsError (Option ReceivedMessage)
  next_message (frame f) received_at = of_frame f received_at
  next_message read_failed received_at = err transport
  next_message stream_ended received_at = err (closed (codes "stream ended"))
