-- ===== src/Go.antt =====
-- The parts of Go's standard library, beyond `strings`, that the program's results depend on.
pub mod Mime
pub mod Strconv
pub mod Path
pub mod Float
