-- ===== src/Parser/Lines.antt =====
-- `ParseMakefile`: the scan over the lines, as a step on the pending annotation block and the
-- result so far.
pub mod PendingBlock
pub mod Sound
pub mod Blocks
pub mod Merge
use make_mcp.Common.{
  Bool, true, false, not, ◌&&◌, ◌||◌, none, some, List, [], ◌∷◌, ◌++◌, map, if◌then◌else◌, is_nil,
}
use make_mcp.Text.{Text, codes, ◌=?◌, trim_space, has_prefix}
use make_mcp.Dict.{Dict, lookup, insert}
use make_mcp.Schema.{Recipe, ValidationError, ParseResult, validate}
use make_mcp.Parser.Annotation.{extract_annotation}
use make_mcp.Parser.Target.{match_target_line}
use make_mcp.Parser.Params.{build_params, at_recipe}
use make_mcp.Parser.Hints.{build_tool_hints, validate_strict}

pub record ParseOptions : Type 0 where
  pub delimiter : Text
  pub strict : Bool

-- The variables of the scan.
pub record Pending : Type 0 where
  pub meta : Dict Text
  pub param_strings : List Text
  pub params_seen : Bool
  pub param_none_seen : Bool
  pub in_block : Bool

pub record State : Type 0 where
  pub pending : Pending
  pub result : ParseResult

-- `resetState`.
abbrev pub no_pending : Pending
no_pending = record {
  meta = [];
  param_strings = [];
  params_seen = false;
  param_none_seen = false;
  in_block = false;
}

abbrev pub reset : State → State
reset s = record s { pending = no_pending }

-- `pendingMeta[key]`, the empty text where it is missing.
unfoldable pub meta_text : Dict Text → Text → Text
meta_text m key = elim (lookup key m) [ none ↦ [] | some v ↦ v ]

-- `case isAnnotation`.
unfoldable pub add_annotation : Text → Text → Pending → Pending
unfolding insert ◌=?◌
add_annotation key val p =
    if key =? codes "param"
    then (if val =? codes "none"
        then record p { params_seen = true; param_none_seen = true; in_block = true }
        else record p {
          params_seen = true;
          param_strings = p.param_strings ++ val ∷ [];
          in_block = true;
        })
    else record p { meta = insert key val p.meta; in_block = true }

-- The recipe that a target line makes of the pending block.
unfoldable pub make_recipe : Text → Pending → Recipe
unfolding meta_text build_params build_tool_hints
make_recipe id p = record {
  source_file = [];
  id = id;
  name = meta_text p.meta (codes "name");
  description = meta_text p.meta (codes "description");
  risk = meta_text p.meta (codes "risk");
  params = (build_params id p.params_seen p.param_none_seen p.param_strings).0;
  output = meta_text p.meta (codes "output");
  output_type = meta_text p.meta (codes "output-type");
  tool_hints = (build_tool_hints id p.meta).0;
}

-- The violations that a target line reports, in their order.
unfoldable pub recipe_errors : Bool → Text → Pending → List ValidationError
unfolding make_recipe build_params build_tool_hints validate_strict validate
recipe_errors strict id p =
    (build_params id p.params_seen p.param_none_seen p.param_strings).1
    ++ ((build_tool_hints id p.meta).1
        ++ (validate_strict id p.meta strict ++ map (at_recipe id) (validate (make_recipe id p))))

-- `case isTarget`.
unfoldable pub at_target : Bool → Text → State → State
unfolding has_prefix
at_target strict id s =
    let p = s.pending in
    if not p.in_block || is_nil p.meta && not p.params_seen
    then reset s
    else if has_prefix (codes ".") id
    then reset s
    else record {
      pending = no_pending;
      result = record {
        recipes = s.result.recipes ++ make_recipe id p ∷ [];
        errors = s.result.errors ++ recipe_errors strict id p;
      };
    }

-- The cases behind `isAnnotation`: a comment, a target, a blank line, anything else.
unfoldable pub plain_line : Bool → Text → State → State
plain_line strict trimmed s =
    if has_prefix (codes "#") trimmed then s else elim (match_target_line trimmed) [
      | some id ↦ at_target strict id s
      | none ↦ if is_nil trimmed then (if s.pending.in_block then reset s else s) else reset s
    ]

-- One round of the scan.
unfoldable pub step : Text → Bool → State → Text → State
step delim strict s line = elim (extract_annotation delim line) [
  | some (key, val) ↦ record s { pending = add_annotation key val s.pending }
  | none ↦ plain_line strict (trim_space line) s
]

unfoldable pub run : Text → Bool → State → List Text → State
run delim strict s [] = s
run delim strict s (line ∷ lines) = run delim strict (step delim strict s line) lines

abbrev pub start : State
start = record { pending = no_pending; result = record { recipes = []; errors = [] } }

-- The delimiter in use: `@` where none is given.
unfoldable pub delimiter_of : ParseOptions → Text
delimiter_of opts = if is_nil opts.delimiter then codes "@" else opts.delimiter

-- `ParseMakefile` on the lines of a Makefile.
unfoldable pub parse_lines : ParseOptions → List Text → ParseResult
unfolding run delimiter_of step plain_line at_target make_recipe recipe_errors add_annotation
    extract_annotation match_target_line has_prefix trim_space
parse_lines opts lines = (run (delimiter_of opts) opts.strict start lines).result
