-- ===== src/Launch.antt =====
-- src/launch: how a child is started.
pub mod Invocation
pub mod Server
use maestro_llamacpp.Common.Text.{Text}

-- src/launch.rs: why a child could not be had.
pub data Failure : Type 0 where
  not_ready unavailable refused contended : Text → Failure
