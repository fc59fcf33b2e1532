-- ===== src/Ws/Client/Examples.antt =====
-- A client that connects, subscribes and writes.
use eazy_sdk.Prelude.{
  ℕ, ◌≡◌, ◌≢◌, refl, true, false, none, some, String, List, [], ◌∷◌, ◌==◌, if◌then◌else◌,
}
use eazy_sdk.Ws.Policies.{never_resubscribe, overflow_fail}
use eazy_sdk.Ws.Subscription.{Subscription, active}
use eazy_sdk.Ws.Client.{Client, enqueue_item, start_write, WriteItem, unwritten, write_failed}
use eazy_sdk.Ws.Client.Table.{register_subscription}
use eazy_sdk.Ws.Client.Failure.{fail_connection, delivery_failure}
use eazy_sdk.Ws.Client.Connect.{begin_connect, open_connection, begin_close}
use eazy_sdk.Ws.Decisions.{write_admitted}
use eazy_sdk.Ws.Client.Registry.{IsRegistered}
use eazy_sdk.Prelude.Outcome.{ok, err}
use eazy_sdk.Ws.Decisions.{ProtocolMessage, reply, control, ping, route_reader_message}
use eazy_sdk.Prelude.{◌⊎◌}
use eazy_sdk.Ws.Client.Reader.{
  Effect, ReaderError, enveloped, route_message, discard_pending, registered,
}
use eazy_sdk.Ws.Client.Answered.{Blames, route_message-returns}
use eazy_sdk.Ws.Client.Steps.{
  call, Step, start_connect, opened, handshake_done, enqueue, take_write, subscribe,
  connection_failed, run, new_client,
}
use eazy_sdk.Ws.Client.Promises.{
  reached, run-IsRegistered, fail_connection-settles, unsent-not_started, begin_close-empties,
}

abbrev str : ℕ → String
str n = if n == 1 then "1" else "2"

abbrev news : Subscription
news = record {
  resubscribe = never_resubscribe;
  capacity = 4;
  overflow = overflow_fail;
  queue = [];
  state = active;
  generation = 1;
  recovered_generation = none;
  last_position = none;
  gap_pending = false;
  closed = false;
}

-- Of two frames the first is on its way.
abbrev steps : List Step
steps =
    start_connect
    ∷ opened
    ∷ handshake_done
    ∷ subscribe news (some "news")
    ∷ subscribe news none
    ∷ enqueue 7 none false
    ∷ enqueue 8 none false
    ∷ take_write
    ∷ []

abbrev client : Client
client = reached str steps 2 (1 ∷ [])

run-IsRegistered_example : IsRegistered client
run-IsRegistered_example = run-IsRegistered str steps 2 (1 ∷ [])

abbrev cut : WriteItem
cut = record {
  frame = 8;
  completion = write_failed (delivery_failure 5 false);
  exchange = none;
  started = false;
}

fail_connection-settles_example : cut.completion ≢ unwritten
unfolding run new_client begin_connect open_connection register_subscription enqueue_item
    write_admitted start_write fail_connection
fail_connection-settles_example =
    fail_connection-settles str steps 2 (1 ∷ []) 5 false true 1 cut refl refl

unsent-not_started_example : cut.started ≡ false
unfolding run new_client begin_connect open_connection register_subscription enqueue_item
    write_admitted start_write fail_connection
unsent-not_started_example =
    unsent-not_started str
      (start_connect
        ∷ opened
        ∷ handshake_done
        ∷ enqueue 7 none false
        ∷ enqueue 8 none false
        ∷ take_write
        ∷ connection_failed 5 1 false true
        ∷ [])
      2 (1 ∷ []) 1 cut (delivery_failure 5 false) refl refl refl

begin_close-empties_example :
    ((begin_close 6 client).by_channel ≡ []) × ((begin_close 6 client).by_correlation ≡ [])
unfolding run new_client begin_connect open_connection register_subscription enqueue_item
    write_admitted start_write
begin_close-empties_example = begin_close-empties str steps 2 (1 ∷ []) 6 refl

-- A reply to the one call of a client.
abbrev answer : ProtocolMessage
answer = record {
  kind = reply;
  correlation = some "1";
  channel = none;
  control = none;
  terminal_error = none;
}

abbrev caller : Client
caller = reached str (start_connect ∷ opened ∷ handshake_done ∷ call ∷ []) 2 []

-- A ping for this client.
abbrev knock : ProtocolMessage
knock = record answer { kind = control; correlation = none; control = some ping }

route_message-returns_example :
    ((out : Client × Effect) × (route_message (λ r. err 0) (enveloped (ok 4)) 9 knock 1 caller
        ≡ ok out))
    ⊎ ((e : ReaderError) × (route_message (λ r. err 0) (enveloped (ok 4)) 9 knock 1 caller ≡ err e)
        × (knock.kind ≡ control)
        × (knock.control ≡ some ping)
        × Blames
            (enveloped (ok 4))
            (discard_pending knock 1 caller
              (route_reader_message knock (registered knock 1 caller)).1)
            e)
route_message-returns_example =
    route_message-returns (λ r. err 0) (enveloped (ok 4)) 9 knock 1 caller
