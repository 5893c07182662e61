-- ===== src/Telemetry.antt =====
-- pkg/telemetry: the instruments and what the server records with them, and the set-up of the providers. The
-- OpenTelemetry library is outside: a record is the value that is handed to it.
pub mod Metrics
pub mod Setup
pub mod Instruments
