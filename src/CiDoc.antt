-- ===== src/CiDoc.antt =====
-- cmd/gen-ci-doc/main.go: the generator of the page on the CI workflows. The YAML and JSON decoders, the
-- glob and the template are outside.
pub mod Workflow
pub mod Graph
pub mod Ruleset
pub mod Newlines
pub mod Page
pub mod Files
pub mod Run
