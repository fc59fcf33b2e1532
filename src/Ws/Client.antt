-- ===== src/Ws/Client.antt =====
-- The state of a WebSocket client: eazy_sdk/websocket/_state.py, with the parts of
-- eazy_sdk/websocket/_outbound.py and _connection.py that write frames and register calls. Objects
-- that are shared (write items, pending exchanges, subscription records) stand in heaps, and the
-- queue and the registries hold their places. Each function is the code between two awaits. The
-- registries' keys leave out the namespace of the protocol, which is one for a client.
pub mod Table
pub mod Failure
pub mod Connect
pub mod Registry
pub mod Dropped
pub mod Emptied
pub mod Writes
pub mod Delivered
pub mod Queued
pub mod Broken
pub mod Steps
pub mod Routed
pub mod Subscribed
pub mod Lifecycle
pub mod Reached
pub mod Registered
pub mod Reader
pub mod Answered
pub mod Received
pub mod Promises
pub mod Examples
use eazy_sdk.Prelude.{
  ℕ, zero, suc, ◌+◌, Bool, true, false, not, ◌&&◌, Option, none, some, String, List, [], ◌∷◌, ◌++◌,
  ◌==◌, get_elem?, length, leb, str_eq, is_some, map, elem, if◌then◌else◌,
}
use eazy_sdk.Dict.{lookup, put, remove}
use eazy_sdk.Ws.Replay.{AttemptDeliveryFailure}
use eazy_sdk.Ws.Decisions.{SessionState, idle, write_admitted}
use eazy_sdk.Ws.Subscription.{Subscription}

-- The future of a write.
pub data Completion : Type 0 where
  unwritten written write_cancelled : Completion
  write_failed : AttemptDeliveryFailure → Completion

-- The future of a reply: a message, by identity, a failure in delivery, or an error that the server
-- sent.
pub data Reply : Type 0 where
  unanswered reply_cancelled : Reply
  answered : ℕ → Reply
  undelivered : AttemptDeliveryFailure → Reply
  refused : ℕ → Reply

-- `_PendingExchange`
pub record PendingExchange : Type 0 where
  pub reply : Reply
  pub send_started : Bool

-- `_WriteItem`, whose exchange is a place in the heap of exchanges.
pub record WriteItem : Type 0 where
  pub frame : ℕ
  pub completion : Completion
  pub exchange : Option ℕ
  pub started : Bool

-- `_SubscriptionRecord`, with the fields that the registries read.
pub record SubscriptionRecord : Type 0 where
  pub subscription : Subscription
  pub correlation : Option String
  pub channel : Option String

-- `_PendingKey`: the generation and the correlation.
abbrev pub PendingKey : Type 0
PendingKey = ℕ × String

unfoldable pub same_key : PendingKey → PendingKey → Bool
same_key a b = a.0 == b.0 && str_eq a.1 b.1

pub record Client : Type 0 where
  pub session : SessionState
  pub generation : ℕ
  -- `config.writer_queue_capacity` and `config.reconnect.delays`
  pub capacity : ℕ
  pub delays : List ℕ
  -- `None` where there is no connection
  pub queue : Option (List ℕ)
  pub active_write : Option ℕ
  pub items : List WriteItem
  pub exchanges : List PendingExchange
  pub pending : List (PendingKey × ℕ)
  pub records : List SubscriptionRecord
  pub by_channel : List (String × ℕ)
  pub by_correlation : List (String × ℕ)
  pub next_correlation : ℕ
  -- `_reconnect_task` is there and not done
  pub reconnect_scheduled : Bool

-- A change of the object at a place of a heap.
unfoldable pub alter : {A : Type 0} → (A → A) → ℕ → List A → List A
alter f i [] = []
alter f zero (a ∷ heap) = f a ∷ heap
alter f (suc i) (a ∷ heap) = a ∷ alter f i heap

unfoldable pub alter_all : {A : Type 0} → (A → A) → List ℕ → List A → List A
unfolding alter
alter_all f [] heap = heap
alter_all f (i ∷ rest) heap = alter_all f rest (alter f i heap)

-- What `_enqueue` raises: an `_AttemptDeliveryFailure`, or `WsQueueOverflowError`.
pub data EnqueueError : Type 0 where
  not_ready : AttemptDeliveryFailure → EnqueueError
  queue_overflow : ℕ → EnqueueError

-- "WebSocket connection is not ready"; `cause` is the `RuntimeError`.
abbrev pub unsent : ℕ → AttemptDeliveryFailure
unsent cause = record { cause = cause; timed_out = false; may_have_been_sent = false }

-- `_enqueue` of a new item.
unfoldable pub enqueue_item : Client → WriteItem → Bool → ℕ → Client × Option EnqueueError
enqueue_item c item allow_handshaking cause =
    if write_admitted c.session allow_handshaking (is_some c.queue)
    then elim (c.queue) [
      | none ↦ (c, some (not_ready (unsent cause)))
      | some queue ↦
          if leb c.capacity (length queue) then (c, some (queue_overflow c.capacity)) else (
            record c { items = c.items ++ item ∷ []; queue = some (queue ++ length c.items ∷ []) },
            none,
          )
    ]
    else (c, some (not_ready (unsent cause)))

-- `item.pending.send_started = True`
unfoldable pub mark_sent : Option ℕ → List PendingExchange → List PendingExchange
unfolding alter
mark_sent none heap = heap
mark_sent (some i) heap = alter (λ (p : PendingExchange). record p { send_started = true }) i heap

-- `_writer_loop`, from `queue.get` to the send.
unfoldable pub start_write : Client → Client
unfolding mark_sent alter
start_write c = elim (c.queue) [
  | none ↦ c
  | some [] ↦ c
  | some (i ∷ queue) ↦ elim (get_elem? c.items i) [
    | none ↦ c
    | some item ↦ record c {
      queue = some queue;
      active_write = some i;
      items = alter (λ (w : WriteItem). record w { started = true }) i c.items;
      exchanges = mark_sent item.exchange c.exchanges;
    }
  ]
]

-- `if not item.completion.done(): …`
unfoldable pub settle_write : Completion → WriteItem → WriteItem
settle_write outcome item = elim (item.completion) [
  | unwritten ↦ record item { completion = outcome }
  | _ ↦ item
]

unfoldable pub settle_active : Completion → Client → Client
unfolding settle_write alter
settle_active outcome c = elim (c.active_write) [
  | none ↦ c
  | some i ↦ record c { items = alter (settle_write outcome) i c.items }
]

-- `_writer_loop`, after a send that returned.
unfoldable pub finish_write : Client → Client
unfolding settle_active
finish_write c = record (settle_active written c) { active_write = none }

-- `_allocate_correlation`; `str` is that of Python on numbers.
unfoldable pub allocate_correlation : (ℕ → String) → Client → String × Client
allocate_correlation str c =
    (str (c.next_correlation + 1), record c { next_correlation = c.next_correlation + 1 })

-- `_call_once`, up to `self._pending[key] = pending`.
unfoldable pub register_call : (ℕ → String) → Client → PendingKey × Client
unfolding allocate_correlation same_key put
register_call str c =
    let allocated = allocate_correlation str c in
    (
      (c.generation, allocated.0),
      record allocated.1 {
        exchanges = c.exchanges ++ record { reply = unanswered; send_started = false } ∷ [];
        pending = put same_key (c.generation, allocated.0) (length c.exchanges) c.pending;
      },
    )

-- The `finally` of `_call_once`.
unfoldable pub cancel_reply : PendingExchange → PendingExchange
cancel_reply p = elim (p.reply) [ unanswered ↦ record p { reply = reply_cancelled } | _ ↦ p ]

unfoldable pub finish_call : PendingKey → ℕ → Client → Client
unfolding cancel_reply alter remove
finish_call key place c = record c {
  pending = remove same_key key c.pending;
  exchanges = alter cancel_reply place c.exchanges;
}
