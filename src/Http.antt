-- ===== src/Http.antt =====
-- The HTTP execution path: eazy_sdk/clients/attempts.py, eazy_sdk/clients/_decisions.py and the
-- attempt loop of eazy_sdk/clients/executor.py.
pub mod Failure
pub mod Response
pub mod Attempts
pub mod Decide
pub mod Exec
pub mod Replay
pub mod Options
pub mod Signals
pub mod Execute
pub mod Examples
