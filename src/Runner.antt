-- ===== src/Runner.antt =====
-- pkg/runner/runner.go: from a recipe and the caller's arguments to a `make` process and its result.
-- The process itself is outside: a run is a parameter from the command to what happened.
pub mod Args
pub mod Stream
