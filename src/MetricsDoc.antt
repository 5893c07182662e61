-- ===== src/MetricsDoc.antt =====
-- cmd/gen-metrics-doc/main.go: the generator of the page on the metrics. The Go parser and the template are
-- outside; the trees are those of go/ast, as far as the generator asks.
pub mod Tree
pub mod Keys
pub mod Labels
pub mod Defs
pub mod Page
pub mod Run
