-- ===== src/Tests/Covering.antt =====
-- Tests and examples of the coverage check.
use make_mcp.Common.{
  ℕ, ◌*◌, ◌≡◌, refl, true, false, not, Option, none, some, List, [], ◌∷◌, map, leb, ◌==◌, is_nil,
  if◌then◌else◌,
}
use mathlib.Core.List.{Permᴰ}
use make_mcp.Text.{Text, codes, ◌=?◌, is_space}
use make_mcp.Dict.{Dict}
use make_mcp.Telemetry.Setup.{trace_provider, metric_provider}
use make_mcp.TestTelemetry.{run_main, shutdown_warning, start_span}
use make_mcp.Go.Strconv.{pos}
use make_mcp.Common.Outcome.{ok}
use make_mcp.CoverCheck.{
  Scan, FileEntry, add_lines, Floats, statement_coverage, report_result, wrap,
}
use make_mcp.CoverCheck.Sums.{sum, statements, run_statements, statement_coverage-lines}

-- The numbers of the three blocks of the profile below.
abbrev scan : Scan
scan rest =
    if rest =? codes "1.1,3.2 4 1"
    then some (4, 1)
    else if rest =? codes "5.1,6.2 2 0"
    then some (2, 0)
    else if rest =? codes "1.1,2.2 3 7"
    then some (3, 7)
    else none

abbrev profile : List Text
profile =
    codes "mode: set"
    ∷ codes "a.go:1.1,3.2 4 1"
    ∷ codes "b.go:1.1,2.2 3 7"
    ∷ codes "a.go:5.1,6.2 2 0"
    ∷ codes "no block"
    ∷ []

abbrev entries : Dict FileEntry
entries =
    (codes "a.go", record { covered = 4; total = 6 })
    ∷ (codes "b.go", record { covered = 3; total = 3 })
    ∷ []

add_lines_test : add_lines scan [] profile ≡ entries
unfolding add_lines ◌=?◌
add_lines_test = refl

-- Fractions as pairs, with 0/1 for 0 and nothing for -1.
abbrev fractions : Floats (Option (ℕ × ℕ))
fractions = record {
  quotient = λ a b. some (a, b);
  zero_float = some (0, 1);
  minus_one = none;
  at_least = λ x y. elim x [
    | none ↦ false
    | some (a, b) ↦ elim y [ none ↦ true | some (c, d) ↦ leb (c * b) (a * d) ]
  ];
}

-- 7 of 9 statements are not enough for 95 percent, so tests that pass end with 1.
report_result_test :
    report_result fractions true none (ok entries) (pos 0) (some (95, 100)) ≡ record {
      files = (codes "a.go", some (4, 6), false) ∷ (codes "b.go", some (3, 3), true) ∷ [];
      summary = some (some (7, 9), false);
      code = pos 1;
    }
unfolding report_result ◌=?◌
report_result_test = refl

statement_coverage-lines_example :
    statement_coverage fractions (
      (codes "b.go", record { covered = 3; total = 3 })
      ∷ (codes "a.go", record { covered = 4; total = 6 })
      ∷ [])
    ≡ (let covered = wrap (sum (map (run_statements scan) profile)) in
        let total = wrap (sum (map (statements scan) profile)) in
        if total == 0 then fractions.minus_one else fractions.quotient covered total)
unfolding add_lines ◌=?◌
statement_coverage-lines_example =
    statement_coverage-lines fractions scan profile _ (Permᴰ.swap refl refl)

-- Whatever telemetry does, the exit code is that of the report.
run_main_test :
    run_main
      (λ name. codes "http://localhost:4317")
      (record {
        resource = true;
        trace_exporter = true;
        metric_exporter = true;
        prometheus_exporter = true;
        instruments = true;
      })
      (λ c. some (codes "refused"))
      (pos 1)
    ≡ record {
      warnings = shutdown_warning (codes "refused") ∷ [];
      closed = metric_provider ∷ trace_provider ∷ [];
      code = pos 1;
    }
unfolding run_main is_space
run_main_test = refl

-- A context is its text here, and only a text is valid.
start_span_test :
    start_span [] (λ c. not (is_nil c)) (λ t. t) (λ name. codes " 00-ab-cd-01 ") (codes "TestFoo")
    ≡ (codes "TestFoo", some (codes "00-ab-cd-01"))
unfolding start_span is_space
start_span_test = refl

start_span_alone :
    start_span [] (λ c. not (is_nil c)) (λ t. t) (λ name. codes "  ") (codes "TestFoo")
    ≡ (codes "TestFoo", none)
unfolding start_span is_space
start_span_alone = refl
