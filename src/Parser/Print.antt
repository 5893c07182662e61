-- ===== src/Parser/Print.antt =====
-- The annotated block of a recipe as a team writes it in a Makefile, for the round trip with `ParseMakefile`.
pub mod Texts
pub mod Notes
pub mod Params
pub mod Block
pub mod Readable
pub mod Reads
use make_mcp.Common.{
  ◌≡◌, ◌≢◌, ◌⊎◌, Bool, true, false, Option, none, some, List, [], ◌∷◌, ◌++◌, map, All,
}
use make_mcp.Text.{Text, codes, trim_space, has_prefix}
use make_mcp.Go.Strconv.{format_bool}
use make_mcp.Schema.{Param, Recipe, type_string, type_int, type_bool}
use make_mcp.Schema.Validate.{IsValidRecipe}
use make_mcp.Parser.Annotation.{is_dot}
use make_mcp.Parser.Annotation.Print.{annotation_line}
use make_mcp.Parser.Params.{is_param_name}
use make_mcp.Parser.Params.Print.{param_line}
use make_mcp.Parser.Target.{is_target_char}
use make_mcp.Parser.Hints.{key_read_only, key_destructive, key_idempotent, key_open_world}
use make_mcp.Parser.Lines.Sound.{AllHints}

-- The notes are pairs of a key and a value.
abbrev pub text_notes : Recipe → List (Text × Text)
text_notes r =
    (codes "name", r.name)
    ∷ (codes "description", r.description)
    ∷ (codes "risk", r.risk)
    ∷ (codes "output", r.output)
    ∷ (codes "output-type", r.output_type)
    ∷ []

abbrev pub hint_note : Text → Option Bool → List (Text × Text)
hint_note key none = []
hint_note key (some b) = (key, format_bool b) ∷ []

abbrev pub print_param : Param → Text
print_param p = param_line p.name p.type p.description

abbrev pub param_notes : Option (List Param) → List (Text × Text)
param_notes none = []
param_notes (some []) = (codes "param", codes "none") ∷ []
param_notes (some (p ∷ ps)) = map (λ q. (codes "param", print_param q)) (p ∷ ps)

abbrev pub notes : Recipe → List (Text × Text)
notes r =
    text_notes r
    ++ (hint_note key_read_only r.tool_hints.read_only
        ++ (hint_note key_destructive r.tool_hints.destructive
            ++ (hint_note key_idempotent r.tool_hints.idempotent
                ++ (hint_note key_open_world r.tool_hints.open_world ++ param_notes r.params))))

abbrev pub note_lines : Text → List (Text × Text) → List Text
note_lines delim = map (λ n. annotation_line delim n.0 n.1)

-- The annotation lines of a recipe, and its target line.
abbrev pub recipe_lines : Text → Recipe → List Text
recipe_lines delim r = note_lines delim (notes r) ++ (r.id ++ b':' ∷ []) ∷ []

abbrev pub makefile_lines : Text → List Recipe → List Text
makefile_lines delim [] = []
makefile_lines delim (r ∷ rs) = recipe_lines delim r ++ makefile_lines delim rs

-- A text that stands on one line and has no space at its ends.
pub record IsPlain (s : Text) : Type 0 where
  pub one_line : All (λ c. is_dot c ≡ true) s
  pub trimmed : trim_space s ≡ s

pub record IsPrintableParam (p : Param) : Type 0 where
  pub named : is_param_name p.name ≡ true
  pub typed : (p.type ≡ type_string) ⊎ (p.type ≡ type_int) ⊎ (p.type ≡ type_bool)
  pub described : p.description ≢ []
  pub plain : IsPlain p.description

abbrev pub listed : Option (List Param) → List Param
listed none = []
listed (some ps) = ps

-- A valid recipe of which each text can stand in its place, for the strict mode with all its hints.
pub record IsPrintable (strict : Bool) (r : Recipe) : Type 0 where
  pub valid : IsValidRecipe r
  pub no_source : r.source_file ≡ []
  pub name : IsPlain r.name
  pub description : IsPlain r.description
  pub output : IsPlain r.output
  pub output_type : IsPlain r.output_type
  pub params : All IsPrintableParam (listed r.params)
  pub target : All (λ c. is_target_char c ≡ true) r.id
  pub target_trimmed : trim_space r.id ≡ r.id
  pub not_special : has_prefix (codes ".") r.id ≡ false
  pub hints : strict ≡ true → AllHints r.tool_hints
