-- ===== src/Ws/Policies.antt =====
-- eazy_sdk/websocket/policies.py: replay, reconnect, overflow and resubscribe policies.
use eazy_sdk.Prelude.{
  ℕ, String, Bool, true, false, not, Option, none, some, ltb, leb, str_eq, if◌then◌else◌,
}

pub data WsReplayPolicy : Type 0 where
  never_replay : ℕ → WsReplayPolicy
  replay_if_unsent : ℕ → WsReplayPolicy
  replay_with_deduplication : String → ℕ → WsReplayPolicy

-- `policy.max_replays`
unfoldable pub max_replays : WsReplayPolicy → ℕ
max_replays (never_replay n) = n
max_replays (replay_if_unsent n) = n
max_replays (replay_with_deduplication key n) = n

-- `__post_init__` of the policies: `none` where it raises `ValueError`.
unfoldable pub validated : WsReplayPolicy → Option WsReplayPolicy
validated (never_replay n) = some (never_replay n)
validated (replay_if_unsent n) = if ltb n 1 then none else some (replay_if_unsent n)
validated (replay_with_deduplication key n) =
    if str_eq key "" then none else if ltb n 1 then none else some (replay_with_deduplication key n)

unfoldable pub replay_allowed : WsReplayPolicy → Bool → ℕ → Bool
unfolding max_replays
replay_allowed policy may_have_been_sent replays =
    if leb (max_replays policy) replays then false else elim policy [
      | replay_with_deduplication key n ↦ true
      | replay_if_unsent n ↦ not may_have_been_sent
      | never_replay n ↦ false
    ]

pub data OverflowPolicy : Type 0 where
  overflow_fail drop_oldest drop_newest : OverflowPolicy

pub data ResubscribePolicy : Type 0 where
  never_resubscribe resubscribe_from_start : ResubscribePolicy
  recover_by_sequence : String → ResubscribePolicy
  recover_by_token : String → ResubscribePolicy
