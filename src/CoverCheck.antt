-- ===== src/CoverCheck.antt =====
-- internal/covercheck/covercheck.go: the coverage that a test run reports, and its exit code. The numbers that
-- `fmt.Sscanf` reads in a line of the profile and the arithmetic of `float64` are arguments; an `int` is a
-- word of 64 bits in two's complement.
pub mod Sums
use make_mcp.Common.{
  ℕ, zero, ◌+◌, ◌%◌, ◌^◌, Bool, not, ◌&&◌, ◌||◌, Option, none, some, List, [], ◌∷◌, map, ltb, ◌==◌,
  if◌then◌else◌,
}
use make_mcp.Common.Outcome.{Outcome, ok, fail}
use make_mcp.Text.{Text, codes, has_prefix}
use make_mcp.Dict.{Dict, lookup, insert}
use make_mcp.Go.Strconv.{ℤ, pos, negsuc}
use make_mcp.Parser.Files.{FileSystem, scan_lines}
use make_mcp.MetricsDoc.Page.{sort_strings}

abbrev pub wrap : ℕ → ℕ
wrap n = n % 2 ^ 64

-- `n > 0` of an `int`.
abbrev pub is_positive : ℕ → Bool
is_positive n = ltb 0 n && ltb n (2 ^ 63)

-- `fileEntry`.
pub record FileEntry : Type 0 where
  pub covered : ℕ
  pub total : ℕ

-- The text before and behind the last occurrence: `strings.LastIndex`.
unfoldable pub cut_last : ℕ → Text → Option (Text × Text)
cut_last sep [] = none
cut_last sep (c ∷ s) = elim (cut_last sep s) [
  | some (a, b) ↦ some (c ∷ a, b)
  | none ↦ if c == sep then some ([], s) else none
]

-- `numStmts` and `count` of the text behind the file, where `Sscanf` reads all six numbers.
abbrev pub Scan : Type 0
Scan = Text → Option (ℕ × ℕ)

-- The file, the statements and the count of a line; `none` where the loop goes on with the next line.
unfoldable pub counted : Scan → Text → Option (Text × ℕ × ℕ)
unfolding cut_last has_prefix
counted scan line = if has_prefix (codes "mode:") line then none else elim (cut_last b':' line) [
  | none ↦ none
  | some (file, rest) ↦ elim (scan rest) [ none ↦ none | some (n, count) ↦ some (file, n, count) ]
]

abbrev pub entry_or_new : Option FileEntry → FileEntry
entry_or_new none = record { covered = 0; total = 0 }
entry_or_new (some e) = e

-- The two additions to an entry.
abbrev pub grow : ℕ → ℕ → FileEntry → FileEntry
grow n count e = record {
  covered = if is_positive count then wrap (e.covered + n) else e.covered;
  total = wrap (e.total + n);
}

-- One round of the loop of `parseProfile`.
unfoldable pub add_line : Scan → Dict FileEntry → Text → Dict FileEntry
unfolding counted lookup insert
add_line scan entries line = elim (counted scan line) [
  | none ↦ entries
  | some (file, n, count) ↦ insert file (grow n count (entry_or_new (lookup file entries))) entries
]

unfoldable pub add_lines : Scan → Dict FileEntry → List Text → Dict FileEntry
unfolding add_line
add_lines scan entries [] = entries
add_lines scan entries (line ∷ lines) = add_lines scan (add_line scan entries line) lines

pub data ProfileError : Type 0 where
  not_opened scan_failed : ProfileError

-- `parseProfile`, whose entries are only used without an error.
unfoldable pub parse_profile : Scan → FileSystem → Text → Outcome ProfileError (Dict FileEntry)
unfolding add_lines scan_lines
parse_profile scan fs path = elim (fs path) [
  | none ↦ fail not_opened
  | some src ↦
      let scanned = scan_lines src.text in
      if scanned.1 || src.read_fails then fail scan_failed else ok (add_lines scan [] scanned.0)
]

-- The sums of `statementCoverage`, over the entries in the order in which Go hands them out.
unfoldable pub sums_from : ℕ × ℕ → Dict FileEntry → ℕ × ℕ
sums_from s [] = s
sums_from s ((file, e) ∷ rest) = sums_from (wrap (s.0 + e.covered), wrap (s.1 + e.total)) rest

-- `float64`: the quotient of two words, 0 and -1, and `>=`.
pub record Floats (F : Type 0) : Type 0 where
  pub quotient : ℕ → ℕ → F
  pub zero_float : F
  pub minus_one : F
  pub at_least : F → F → Bool

module _ {F : Type 0} (floats : Floats F) where
  -- `statementCoverage`.
  unfoldable pub statement_coverage : Dict FileEntry → F
  unfolding sums_from
  statement_coverage entries =
      let s = sums_from (0, 0) entries in
      if s.1 == 0 then floats.minus_one else floats.quotient s.0 s.1

  abbrev pub file_coverage : FileEntry → F
  file_coverage e =
      if is_positive e.total then floats.quotient e.covered e.total else floats.zero_float

  -- `printPerFile`: each file with its coverage, and whether it passes.
  unfoldable pub print_files : Dict FileEntry → F → List Text → List (Text × F × Bool)
  unfolding lookup
  print_files entries threshold [] = []
  print_files entries threshold (file ∷ files) =
      let cov = file_coverage (entry_or_new (lookup file entries)) in
      (file, cov, floats.at_least cov threshold) ∷ print_files entries threshold files

  unfoldable pub print_per_file : Dict FileEntry → F → List (Text × F × Bool)
  unfolding print_files sort_strings
  print_per_file entries threshold =
      print_files entries threshold (sort_strings (map (λ m. m.0) entries))

  -- `if t := statementCoverage(entries); t >= 0`.
  unfoldable pub total_coverage : F → Outcome ProfileError (Dict FileEntry) → F
  unfolding statement_coverage
  total_coverage block (fail e) = block
  total_coverage block (ok entries) =
      let t = statement_coverage entries in if floats.at_least t floats.zero_float then t else block

  -- What is printed, with the summary behind the files, and the exit code.
  pub record Report : Type 0 where
    pub files : List (Text × F × Bool)
    pub summary : Option (F × Bool)
    pub code : ℤ

  abbrev pub files_of : Outcome ProfileError (Dict FileEntry) → F → List (Text × F × Bool)
  files_of (fail e) threshold = []
  files_of (ok entries) threshold = print_per_file entries threshold

  -- `if rc == 0 && !pass`.
  abbrev pub code_of : ℤ → Bool → ℤ
  code_of (pos zero) pass = if pass then pos 0 else pos 1
  code_of rc pass = rc

  -- `reportResult` at the coverage mode, `testing.Coverage()` and the profile; an unset flag is as a profile
  -- that does not open.
  unfoldable pub report_result : Bool → F → Outcome ProfileError (Dict FileEntry) → ℤ → F → Report
  unfolding print_per_file total_coverage
  report_result cover block profile rc threshold =
      if not cover
      then record { files = []; summary = none; code = rc }
      else let total = total_coverage block profile in
        let pass = floats.at_least total threshold in
        record {
          files = files_of profile threshold;
          summary = some (total, pass);
          code = code_of rc pass;
        }
