-- ===== src/Tests/Printing.antt =====
-- Tests and examples of printed recipes.
use make_mcp.Common.{◌≡◌, refl, inl, inr, true, false, some, [], ◌∷◌, arith}
use make_mcp.Text.{codes, is_space, trim_space, has_prefix}
use make_mcp.Schema.{Recipe, validate, validate_content_type, is_risk}
use make_mcp.Schema.Validate.{validate_iff}
use make_mcp.Go.Strconv.{format_bool}
use make_mcp.Go.Mime.{media_type_error}
use make_mcp.Parser.Annotation.{is_dot, is_letter}
use make_mcp.Parser.Params.{is_param_name}
use make_mcp.Parser.Target.{is_target_char}
use make_mcp.Parser.Lines.{ParseOptions, delimiter_of, parse_lines}
use make_mcp.Parser.Lines.Sound.{AllHints}
use make_mcp.Parser.Print.{recipe_lines, makefile_lines, IsPrintableParam, IsPrintable}
use make_mcp.Parser.Print.Reads.{parse_lines-makefile_lines}
use make_mcp.Tests.{jobs, recipe_from}

abbrev strict : ParseOptions
strict = record { delimiter = codes "@mcp"; strict = true }

abbrev hinted : Recipe
hinted = record (recipe_from []) {
  tool_hints = record {
    read_only = some false;
    destructive = some false;
    idempotent = some true;
    open_world = some false;
  };
}

abbrev clean : Recipe
clean = record hinted { id = codes "clean"; risk = codes "high"; params = some [] }

hinted-lines :
    recipe_lines (codes "@mcp") hinted
    ≡ codes "# @mcp name: Build"
      ∷ codes "# @mcp description: Compile"
      ∷ codes "# @mcp risk: low"
      ∷ codes "# @mcp output: Log"
      ∷ codes "# @mcp output-type: text/plain"
      ∷ codes "# @mcp read-only: false"
      ∷ codes "# @mcp destructive: false"
      ∷ codes "# @mcp idempotent: true"
      ∷ codes "# @mcp open-world: false"
      ∷ codes "# @mcp param: jobs int | Parallel jobs"
      ∷ codes "build:"
      ∷ []
unfolding format_bool
hinted-lines = refl

jobs-IsPrintableParam : IsPrintableParam jobs
unfolding is_param_name trim_space is_space is_dot
jobs-IsPrintableParam = record {
  named = refl;
  typed = inr (inl refl);
  described = λ e. cc;
  plain = record { one_line = ground arith; trimmed = refl };
}

all_hints : AllHints hinted.tool_hints
all_hints = record {
  read_only = λ e. cc;
  destructive = λ e. cc;
  idempotent = λ e. cc;
  open_world = λ e. cc;
}

hinted-IsPrintable : IsPrintable true hinted
unfolding trim_space is_space is_dot is_target_char is_letter has_prefix validate
    validate_content_type media_type_error is_risk
hinted-IsPrintable = record {
  valid = (validate_iff hinted).0 refl;
  no_source = refl;
  name = record { one_line = ground arith; trimmed = refl };
  description = record { one_line = ground arith; trimmed = refl };
  output = record { one_line = ground arith; trimmed = refl };
  output_type = record { one_line = ground arith; trimmed = refl };
  params = (jobs-IsPrintableParam, tt);
  target = ground arith;
  target_trimmed = refl;
  not_special = refl;
  hints = λ e. all_hints;
}

clean-IsPrintable : IsPrintable true clean
unfolding trim_space is_space is_dot is_target_char is_letter has_prefix validate
    validate_content_type media_type_error is_risk
clean-IsPrintable = record {
  valid = (validate_iff clean).0 refl;
  no_source = refl;
  name = record { one_line = ground arith; trimmed = refl };
  description = record { one_line = ground arith; trimmed = refl };
  output = record { one_line = ground arith; trimmed = refl };
  output_type = record { one_line = ground arith; trimmed = refl };
  params = tt;
  target = ground arith;
  target_trimmed = refl;
  not_special = refl;
  hints = λ e. all_hints;
}

parse_lines-makefile_lines_example :
    parse_lines strict (makefile_lines (delimiter_of strict) (hinted ∷ clean ∷ []))
    ≡ record { recipes = hinted ∷ clean ∷ []; errors = [] }
unfolding is_space delimiter_of
parse_lines-makefile_lines_example =
    parse_lines-makefile_lines strict (hinted ∷ clean ∷ []) refl
      (hinted-IsPrintable, (clean-IsPrintable, tt))
