-- ===== src/Parser/Files.antt =====
-- The reads of `ParseMakefile`, `ParseMakefilePath` and `ParseMakefiles`.
pub mod Scan
pub mod Sound
pub mod Quiet
use make_mcp.Common.{
  ℕ, Bool, true, false, ◌||◌, Option, none, some, List, [], ◌∷◌, map, leb, ◌==◌, if◌then◌else◌,
  is_nil,
}
use make_mcp.Common.Outcome.{Outcome, ok, fail, ◌>>=◌}
use make_mcp.Text.{Text, split_at, byte_len}
use make_mcp.Schema.{Recipe, ValidationError, ParseResult}
use make_mcp.Parser.Lines.{ParseOptions, parse_lines}
use make_mcp.Parser.Lines.Merge.{merge}

-- A file that opens: its text up to the end or up to the first read that fails.
pub record Source : Type 0 where
  pub text : Text
  pub read_fails : Bool

-- The files by path; `none` where `os.Open` fails.
abbrev pub FileSystem : Type 0
FileSystem = Text → Option Source

pub data FileError : Type 0 where
  open_failed : Text → FileError
  scan_failed : FileError

-- `bufio.MaxScanTokenSize`.
abbrev pub max_token : ℕ
max_token = 65536

unfoldable pub drop_cr : Text → Text
drop_cr [] = []
drop_cr (c ∷ []) = if c == 13 then [] else c ∷ []
drop_cr (c ∷ d ∷ s) = c ∷ drop_cr (d ∷ s)

unfoldable pub is_too_long : Text → Bool
unfolding byte_len
is_too_long s = leb max_token (byte_len s)

-- The tokens of `bufio.Scanner` over the pieces between newlines, and whether it stopped at a piece
-- that fills its buffer. An empty last piece is no token.
unfoldable pub scan_pieces : Text → List Text → List Text × Bool
unfolding is_too_long drop_cr
scan_pieces p [] =
    if is_nil p then ([], false) else if is_too_long p then ([], true) else (drop_cr p ∷ [], false)
scan_pieces p (q ∷ r) =
    let rest = scan_pieces q r in if is_too_long p then ([], true) else (drop_cr p ∷ rest.0, rest.1)

unfoldable pub scan_lines : Text → List Text × Bool
unfolding scan_pieces split_at
scan_lines s = scan_pieces (split_at 10 s).0 (split_at 10 s).1

-- `ParseMakefile`.
unfoldable pub parse_makefile : ParseOptions → Source → Outcome FileError ParseResult
parse_makefile opts src =
    let scanned = scan_lines src.text in
    if scanned.1 || src.read_fails then fail scan_failed else ok (parse_lines opts scanned.0)

abbrev pub tag_recipe : Text → Recipe → Recipe
tag_recipe path r = record r { source_file = path }

abbrev pub tag_error : Text → ValidationError → ValidationError
tag_error path e = record e { source_file = path }

unfoldable pub tag : Text → ParseResult → ParseResult
tag path r = record {
  recipes = map (tag_recipe path) r.recipes;
  errors = map (tag_error path) r.errors;
}

-- `ParseMakefilePath`.
unfoldable pub parse_makefile_path :
    FileSystem → ParseOptions → Text → Outcome FileError ParseResult
unfolding tag
parse_makefile_path fs opts path = elim (fs path) [
  | none ↦ fail (open_failed path)
  | some src ↦ parse_makefile opts src >>= λ r. ok (tag path r)
]

abbrev pub no_result : ParseResult
no_result = record { recipes = []; errors = [] }

-- The loop of `ParseMakefiles`, from the result merged so far.
unfoldable pub parse_from :
    FileSystem → ParseOptions → ParseResult → List Text → Outcome FileError ParseResult
parse_from fs opts merged [] = ok merged
parse_from fs opts merged (path ∷ paths) =
    parse_makefile_path fs opts path >>= λ r. parse_from fs opts (merge merged r) paths

-- `ParseMakefiles`.
unfoldable pub parse_makefiles :
    FileSystem → ParseOptions → List Text → Outcome FileError ParseResult
unfolding parse_from parse_makefile_path parse_makefile scan_lines parse_lines
parse_makefiles fs opts paths = parse_from fs opts no_result paths
