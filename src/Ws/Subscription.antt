-- ===== src/Ws/Subscription.antt =====
-- eazy_sdk/websocket/subscriptions.py: a bounded queue of events with recovery metadata. A method
-- returns the new object; the queue is `asyncio.Queue(maxsize=capacity)`, oldest item first.
pub mod Publish
pub mod Calls
pub mod Queue
pub mod Invariant
pub mod Reach
pub mod Pending
pub mod History
pub mod Delivery
pub mod Lossless
pub mod Gaps
use eazy_sdk.Prelude.{
  ℕ, ◌+◌, Bool, true, false, not, ◌&&◌, ◌||◌, Option, none, some, String, List, [], ◌∷◌, ◌++◌,
  length, ℤ, pos, ◌+ℤ◌, ltb_ℤ, leb, ◌==◌, str_eq, is_some, if◌then◌else◌,
}
use eazy_sdk.Ws.Policies.{
  OverflowPolicy, overflow_fail, drop_oldest, drop_newest, ResubscribePolicy, never_resubscribe,
  resubscribe_from_start, recover_by_sequence, recover_by_token,
}

-- The value of a field of a decoded payload: `None`, an `int`, or another object, by identity.
pub data FieldValue : Type 0 where
  null : FieldValue
  int : ℤ → FieldValue
  other : ℕ → FieldValue

-- A decoded payload: a `dict`, or an object that is none.
pub data Payload : Type 0 where
  dict : List (String × FieldValue) → Payload
  no_dict : ℕ → Payload

pub data SubscriptionError : Type 0 where
  type_error value_error : SubscriptionError
  recovery_gap : ℤ → ℤ → ℕ → SubscriptionError
  overflow_error : ℕ → SubscriptionError
  -- an error that the connection hands in, by identity
  given : ℕ → SubscriptionError

pub record Event : Type 0 where
  pub value : Payload
  pub generation : ℕ
  pub recovered : Bool
  pub last_position : Option FieldValue
  pub gap : Bool

pub data SubscriptionState : Type 0 where
  active disconnected resubscribing recovering completed failed cancelled : SubscriptionState

-- An event, or `_Terminal`.
pub data QueueItem : Type 0 where
  event : Event → QueueItem
  terminal : Option SubscriptionError → QueueItem

pub record Subscription : Type 0 where
  pub resubscribe : ResubscribePolicy
  pub capacity : ℕ
  pub overflow : OverflowPolicy
  pub queue : List QueueItem
  pub state : SubscriptionState
  pub generation : ℕ
  pub recovered_generation : Option ℕ
  pub last_position : Option FieldValue
  pub gap_pending : Bool
  pub closed : Bool

-- `__init__`: `none` where it raises `ValueError`.
unfoldable pub new : ResubscribePolicy → ℕ → OverflowPolicy → ℕ → Option Subscription
new resubscribe capacity overflow generation =
    if capacity == 0
    then none
    else some (record {
      resubscribe = resubscribe;
      capacity = capacity;
      overflow = overflow;
      queue = [];
      state = active;
      generation = generation;
      recovered_generation = none;
      last_position = none;
      gap_pending = false;
      closed = false;
    })

-- `Queue.full`
unfoldable pub full : Subscription → Bool
full s = leb s.capacity (length s.queue)

-- `Queue.get_nowait`, whose item is dropped.
unfoldable pub drop_first : List QueueItem → List QueueItem
drop_first [] = []
drop_first (x ∷ q) = q

unfoldable pub put_terminal : Subscription → Option SubscriptionError → Subscription
unfolding full drop_first
put_terminal s e =
    let room = if full s then drop_first s.queue else s.queue in
    record s { queue = room ++ terminal e ∷ [] }

abbrev pub is_final : SubscriptionState → Bool
is_final completed = true
is_final failed = true
is_final cancelled = true
is_final _ = false

-- `_fail`
unfoldable pub fail : Subscription → SubscriptionError → Subscription
fail s e =
    if is_final s.state
    then s
    else put_terminal (record s { state = failed; closed = true }) (some e)

-- `_complete`
unfoldable pub complete : Subscription → Subscription
complete s =
    if s.closed then s else put_terminal (record s { state = completed; closed = true }) none

-- `aclose`, without the call that cancels the subscription at the server.
unfoldable pub aclose : Subscription → Subscription
aclose s = if s.closed then s else put_terminal (record s { state = cancelled; closed = true }) none

unfoldable pub mark_disconnected : Subscription → Subscription
mark_disconnected s = if s.closed then s else record s { state = disconnected }

abbrev starts_over : ResubscribePolicy → Bool
starts_over resubscribe_from_start = true
starts_over _ = false

unfoldable pub mark_restoring : Subscription → ℕ → Bool → Subscription
mark_restoring s generation recovered =
    if recovered
    then record s {
      generation = generation;
      state = recovering;
      recovered_generation = some generation;
    }
    else record s {
      generation = generation;
      state = resubscribing;
      recovered_generation = none;
      last_position = if starts_over s.resubscribe then none else s.last_position;
    }

unfoldable pub mark_active : Subscription → Subscription
mark_active s = if s.closed then s else record s { state = active }

-- `_recovery_token`, before it is frozen.
unfoldable pub recovery_token : Subscription → Option FieldValue
recovery_token s = s.last_position

-- `value[field]` where the field is there.
unfoldable pub field_of : String → List (String × FieldValue) → Option FieldValue
field_of name [] = none
field_of name ((key, v) ∷ rest) = if str_eq key name then some v else field_of name rest

-- What a position field holds, for the reader of `_extract_position`.
pub data Position : Type 0 where
  no_position : Position
  position : FieldValue → Position
  bad : SubscriptionError → Position

unfoldable pub sequence_position : FieldValue → Position
sequence_position (int n) = position (int n)
sequence_position _ = bad type_error

-- `None` is no position.
unfoldable pub token_position : FieldValue → Position
token_position null = no_position
token_position v = position v

unfoldable pub read_position : String → Payload → (FieldValue → Position) → Position
unfolding field_of
read_position name (no_dict n) read = bad type_error
read_position name (dict fields) read = elim (field_of name fields) [
  | none ↦ bad value_error
  | some v ↦ read v
]

-- `_extract_position`
unfoldable pub extract_position : ResubscribePolicy → Payload → Position
unfolding read_position sequence_position token_position
extract_position (recover_by_sequence name) value = read_position name value sequence_position
extract_position (recover_by_token name) value = read_position name value token_position
extract_position _ value = no_position

-- The test for a gap: the expected position, and the one that came, where one was skipped.
unfoldable pub skipped : ResubscribePolicy → Option FieldValue → FieldValue → Option (ℤ × ℤ)
skipped (recover_by_sequence name) (some (int previous)) (int n) =
    if ltb_ℤ (previous +ℤ pos 1) n then some (previous +ℤ pos 1, n) else none
skipped _ previous v = none
