-- ===== src/Ws/Client/Steps.antt =====
-- What happens to a WebSocket client between two awaits, as steps of all its tasks. `str` is
-- Python's `str` on numbers.
use eazy_sdk.Prelude.{
  ℕ, Bool, true, false, Option, none, String, List, [], ◌∷◌, is_some, if◌then◌else◌,
}
use eazy_sdk.Prelude.Outcome.{Outcome}
use eazy_sdk.Ws.Client.Reader.{Pong, received}
use eazy_sdk.Ws.Decisions.{
  ProtocolMessage, SessionState, connecting, ready, closing, failed, idle, is_handshaking,
}
use eazy_sdk.Ws.Subscription.{Subscription, Payload}
use eazy_sdk.Ws.Client.{
  SubscriptionRecord, Client, PendingKey, unwritten, write_cancelled, alter, enqueue_item,
  start_write, finish_write, register_call, finish_call, settle_write,
}
use eazy_sdk.Ws.Client.Table.{register_subscription, remove_subscription}
use eazy_sdk.Ws.Client.Failure.{change_subscription, fail_connection, break_write, give_up}
use eazy_sdk.Ws.Client.Connect.{
  begin_close, end_close, begin_connect, open_connection, fail_handshake, restore_one,
}

pub data Step : Type 0 where
  -- `_enqueue`: the frame, the exchange, `allow_handshaking`
  enqueue : ℕ → Option ℕ → Bool → Step
  -- `_writer_loop`
  take_write end_write : Step
  fail_write_at : ℕ → ℕ → Step
  -- a task that waits for a write is cancelled
  cancel_write : ℕ → Step
  -- `_call_once`
  call : Step
  end_call : PendingKey → ℕ → Step
  -- `subscribe`, the end of a subscription, and a method of the subscription of a record
  subscribe : Subscription → Option String → Step
  unsubscribe : ℕ → Step
  update : (Subscription → Subscription) → ℕ → Step
  -- `connect`
  start_connect opened handshake_done : Step
  handshake_failed : ℕ → Step
  connect_failed : Step
  -- `_fail_connection`: the cause, the generation, `fatal`, `reconnect`
  connection_failed : ℕ → ℕ → Bool → Bool → Step
  restore : ℕ → ℕ → Step
  -- `_route_message`: what the checks make of the message, the answer to a ping, the identity of
  -- the message, and the generation
  receive : (SubscriptionRecord → Outcome ℕ Payload) → Pong → ℕ → ProtocolMessage → ℕ → Step
  reconnect_exhausted : ℕ → Step
  -- `aclose`
  start_close : ℕ → Step
  closed_socket : Step

abbrev pub is_connecting : SessionState → Bool
is_connecting connecting = true
is_connecting _ = false

abbrev pub is_failed : SessionState → Bool
is_failed failed = true
is_failed _ = false

abbrev pub is_closing : SessionState → Bool
is_closing closing = true
is_closing _ = false

-- The writer takes a write when it has none, `connect` holds a lock from its first step to its
-- last, the delays are used up where the last `connect` failed, and `aclose` ends what it began;
-- elsewhere a step has no effect.
unfoldable pub step : (ℕ → String) → Step → Client → Client
step str (enqueue frame exchange allowed) c =
    (enqueue_item c
      record { frame = frame; completion = unwritten; exchange = exchange; started = false } allowed
      0).0
step str take_write c = if is_some c.active_write then c else start_write c
step str end_write c = finish_write c
step str (fail_write_at cause generation) c = break_write cause generation c
step str (cancel_write i) c = record c { items = alter (settle_write write_cancelled) i c.items }
step str call c = (register_call str c).1
step str (end_call key i) c = finish_call key i c
step str (subscribe subscription channel) c = (register_subscription str subscription channel c).1
step str (unsubscribe i) c = remove_subscription i c
step str (update f i) c = record c { records = alter (change_subscription f) i c.records }
step str start_connect c = if is_handshaking c.session then c else begin_connect c
step str opened c = if is_connecting c.session then open_connection c else c
step str connect_failed c = if is_connecting c.session then record c { session = failed } else c
step str handshake_done c = record c { session = ready }
step str (handshake_failed cause) c = fail_handshake cause c
step str (connection_failed cause generation fatal reconnect) c =
    fail_connection cause generation fatal reconnect c
step str (restore generation i) c = restore_one str generation i c
step str (receive prepare pong identity m generation) c =
    received prepare pong identity m generation c
step str (reconnect_exhausted cause) c = if is_failed c.session then give_up cause c else c
step str (start_close cause) c = begin_close cause c
step str closed_socket c = if is_closing c.session then end_close c else c

unfoldable pub run : (ℕ → String) → List Step → Client → Client
unfolding step
run str [] c = c
run str (s ∷ rest) c = run str rest (step str s c)

-- A new client, with `config.writer_queue_capacity` and `config.reconnect.delays`.
unfoldable pub new_client : ℕ → List ℕ → Client
new_client capacity delays = record {
  session = idle;
  generation = 0;
  capacity = capacity;
  delays = delays;
  queue = none;
  active_write = none;
  items = [];
  exchanges = [];
  pending = [];
  records = [];
  by_channel = [];
  by_correlation = [];
  next_correlation = 0;
  reconnect_scheduled = false;
}
