-- ===== src/Tests/Parsing.antt =====
-- Tests and examples of the parser, the configuration and the recipe.
use make_mcp.Common.{
  ℕ, ◌≡◌, refl, ap, ◌↔◌, inl, inr, Bool, true, false, not, some, List, [], ◌∷◌, ◌++◌, arith, ◌==◌,
  All,
}
use make_mcp.Common.Outcome.{ok, ◌>>=◌}
use make_mcp.Common.Spans.{AllPass}
use make_mcp.Text.{Text, codes, ◌=?◌, is_space, trim_space, has_prefix}
use make_mcp.Go.Mime.{media_type_error}
use make_mcp.Schema.{validate, valid, validate_content_type, is_risk}
use make_mcp.Schema.Validate.{IsValidRecipe, validate_iff}
use make_mcp.Parser.Annotation.{extract_annotation, is_dot, is_letter, is_key_char}
use make_mcp.Parser.Annotation.Find.{
  IsAnnotation, extract_annotation_sound, extract_annotation_complete,
}
use make_mcp.Parser.Annotation.Print.{annotation_line, extract_annotation-annotation_line}
use make_mcp.Parser.Target.{match_target_line, is_target_char}
use make_mcp.Parser.Target.Shape.{IsTarget, match_target_line_iff, match_target_line-double_colon}
use make_mcp.Parser.Params.{parse_param, is_param_name, all_chars}
use make_mcp.Parser.Params as Params
use make_mcp.Parser.Params.Print.{param_line, parse_param-param_line}
use make_mcp.Parser.Lines.{
  Pending, no_pending, add_annotation, make_recipe, recipe_errors, run, parse_lines, delimiter_of,
}
use make_mcp.Parser.Lines.Sound.{IsSound, parse_lines-IsSound}
use make_mcp.Parser.Lines.Blocks.{Block, note, done, IsTargetLine, run-Block_target}
use make_mcp.Parser.Lines.Merge
use make_mcp.Parser.Lines.Merge.{IsBlank, parse_lines-append_blank}
use make_mcp.Parser.Files.{scan_lines, is_too_long, drop_cr}
use make_mcp.Parser.Files.Scan.{unlines, IsLine, scan_lines-unlines}
use make_mcp.Config as Config
use make_mcp.Config.{load_config, zero_config, default_config}
use make_mcp.Config.Merge.{merge_monoid, load_config_reload}
use make_mcp.Tests.{note_lines, recipe_from, build, lax, sample_line, empty_file}

-- A test of all the characters, for a concrete text.
passes : (p : ℕ → Bool) (s : Text) → all_chars p s ≡ true → AllPass p s
unfolding all_chars
passes p [] h = tt
passes p (c ∷ s) h = (ground arith, passes p s (ground arith))

abbrev build_lines : List Text
build_lines = note_lines ++ codes "build: main.go" ∷ []

parse_lines_test :
    parse_lines lax build_lines ≡ record { recipes = recipe_from [] ∷ []; errors = [] }
unfolding parse_lines ◌=?◌ is_space validate_content_type media_type_error is_risk
parse_lines_test = refl

build_is_valid : valid (parse_lines lax build_lines) ≡ true
unfolding valid
build_is_valid = ap valid parse_lines_test

parse_lines-IsSound_test : All (IsSound lax.strict) (parse_lines lax build_lines).recipes
parse_lines-IsSound_test = parse_lines-IsSound lax build_lines build_is_valid

spaces-IsBlank : IsBlank (delimiter_of lax) (codes "  ")
unfolding delimiter_of extract_annotation trim_space is_space
spaces-IsBlank = (refl, refl)

parse_lines-append_blank_example :
    parse_lines lax (build_lines ++ codes "  " ∷ build_lines)
    ≡ Merge.merge (parse_lines lax build_lines) (parse_lines lax build_lines)
parse_lines-append_blank_example =
    parse_lines-append_blank lax build_lines (codes "  ") build_lines spaces-IsBlank

validate_iff_example : (validate build ≡ []) ↔ IsValidRecipe build
validate_iff_example = validate_iff build

-- A block of two notes.
abbrev two_notes : List Text
two_notes = codes "# @ name: Build" ∷ codes "# @ risk: low" ∷ []

abbrev pending_two : Pending
pending_two =
    add_annotation (codes "risk") (codes "low")
      (add_annotation (codes "name") (codes "Build") no_pending)

first_note :
    extract_annotation (codes "@") (codes "# @ name: Build") ≡ some (codes "name", codes "Build")
unfolding extract_annotation is_space trim_space
first_note = refl

second_note :
    extract_annotation (codes "@") (codes "# @ risk: low") ≡ some (codes "risk", codes "low")
unfolding extract_annotation is_space trim_space
second_note = refl

two_notes-Block : Block (codes "@") pending_two no_pending two_notes
two_notes-Block = note first_note (note second_note (done refl))

two_notes_in_block : pending_two.in_block ≡ true
unfolding add_annotation
two_notes_in_block = refl

build-IsTargetLine : IsTargetLine (codes "@") (codes "build") (codes "build: main.go")
unfolding extract_annotation has_prefix trim_space match_target_line is_space
build-IsTargetLine = record { no_note = refl; no_comment = refl; target = refl }

run-Block_target_example :
    run
      (codes "@")
      false
      (record { pending = no_pending; result = record { recipes = []; errors = [] } })
      (two_notes ++ codes "build: main.go" ∷ codes "x = 1" ∷ [])
    ≡ run
        (codes "@")
        false
        (record {
          pending = no_pending;
          result = record {
            recipes = [] ++ make_recipe (codes "build") pending_two ∷ [];
            errors = [] ++ recipe_errors false (codes "build") pending_two;
          };
        })
        (codes "x = 1" ∷ [])
run-Block_target_example =
    run-Block_target (codes "@") false (record { recipes = []; errors = [] }) (codes "build")
      (codes "build: main.go") (codes "x = 1" ∷ []) two_notes-Block two_notes_in_block
      build-IsTargetLine (unfold has_prefix in refl)

extract_annotation_sound_example :
    (raw : Text) × IsAnnotation (codes "@") (codes "x = 1 # @ risk: low ") (codes "risk") raw
    × (codes "low" ≡ trim_space raw)
extract_annotation_sound_example =
    extract_annotation_sound (codes "@") (codes "x = 1 # @ risk: low ")
      (unfold extract_annotation trim_space is_space in refl)

extract_annotation_complete_example :
    ¬ IsAnnotation (codes "@") (codes "# @risk: low") (codes "risk") (codes "low")
extract_annotation_complete_example =
    extract_annotation_complete (codes "@") (codes "# @risk: low")
      (unfold extract_annotation is_space in refl)

-- A delimiter of two characters.
abbrev at_mcp : Text
at_mcp = codes "@m"

extract_annotation-annotation_line_test :
    extract_annotation at_mcp (annotation_line at_mcp (codes "output-type") (codes "text/plain"))
    ≡ some (codes "output-type", codes "text/plain")
extract_annotation-annotation_line_test =
    extract_annotation-annotation_line at_mcp (codes "output-type") (codes "text/plain") (λ e. cc)
      (unfold is_space in refl)
      (
        unfold is_letter in refl,
        passes is_key_char (codes "utput-type") (unfold all_chars is_key_char in refl),
      )
      (passes is_dot (codes "text/plain") (unfold all_chars is_dot in refl))
      (unfold trim_space is_space in refl)

match_target_line_iff_example :
    (match_target_line (codes "a b : c") ≡ some (codes "a b"))
    ↔ IsTarget (codes "a b : c") (codes "a b")
match_target_line_iff_example = match_target_line_iff (codes "a b : c") (codes "a b")

match_target_line-double_colon_test :
    match_target_line (codes "X " ++ b':' ∷ b':' ∷ b'=' ∷ codes " 1")
    ≡ some (trim_space (codes "X "))
match_target_line-double_colon_test =
    match_target_line-double_colon (codes "X ") (codes " 1")
      (passes is_target_char (codes "X ") (unfold all_chars is_target_char in refl)) (λ e. cc)

parse_param-param_line_test :
    parse_param (param_line (codes "jobs") (codes "int") (codes " Parallel jobs"))
    ≡ Params.ok (record {
      name = codes "jobs";
      type = codes "int";
      description = trim_space (codes " Parallel jobs");
    })
parse_param-param_line_test =
    parse_param-param_line (codes "jobs") (codes "int") (codes " Parallel jobs")
      (unfold is_param_name in refl) (inr (inl refl))

plain_text-IsLine :
    (l : Text)
    → all_chars (λ c. not (c == 10)) l ≡ true
    → drop_cr l ≡ l
    → is_too_long l ≡ false
    → IsLine l
plain_text-IsLine l n r t = record {
  no_newline = passes (λ c. not (c == 10)) l n;
  no_return = r;
  short = t;
}

two_notes-IsLine : IsLine (codes "# @ name: Build") × IsLine (codes "# @ risk: low")
unfolding all_chars drop_cr is_too_long
two_notes-IsLine = (
  plain_text-IsLine (codes "# @ name: Build") refl refl refl,
  plain_text-IsLine (codes "# @ risk: low") refl refl refl,
)

scan_lines-unlines_test : scan_lines (unlines two_notes) ≡ (two_notes, false)
scan_lines-unlines_test =
    scan_lines-unlines two_notes (two_notes-IsLine.0, (two_notes-IsLine.1, tt))

merge_monoid_test :
    (Config.merge (Config.merge default_config sample_line.flags) zero_config
      ≡ Config.merge default_config (Config.merge sample_line.flags zero_config))
    × (Config.merge default_config zero_config ≡ default_config)
    × (Config.merge zero_config default_config ≡ default_config)
merge_monoid_test = merge_monoid default_config sample_line.flags zero_config

load_config_reload_test :
    (load_config empty_file (codes "make-mcp.yml") zero_config >>= λ c.
    ok (Config.merge c sample_line.flags))
    ≡ load_config empty_file (codes "make-mcp.yml") sample_line.flags
load_config_reload_test = load_config_reload empty_file (codes "make-mcp.yml") sample_line.flags
