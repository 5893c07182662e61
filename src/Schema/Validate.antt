-- ===== src/Schema/Validate.antt =====
-- `Recipe.Validate` reports nothing exactly for the recipes whose fields are all well formed.
use make_mcp.Common.{◌≡◌, ◌≢◌, ◌↔◌, ◌⊎◌, true, none, [], arith}
use make_mcp.Text.{Text}
use make_mcp.Text.Equal.{=?_iff}
use make_mcp.Go.Mime.{media_type_error}
use make_mcp.Schema.{
  Recipe, validate, is_risk, risk_low, risk_medium, risk_high, validate_content_type,
}

pub record IsValidRecipe (r : Recipe) : Type 0 where
  pub has_id : r.id ≢ []
  pub has_name : r.name ≢ []
  pub has_description : r.description ≢ []
  pub has_params : r.params ≢ none
  pub has_output : r.output ≢ []
  pub has_output_type : r.output_type ≢ []
  pub content_type : media_type_error r.output_type ≡ none
  pub risk_level : (r.risk ≡ risk_low) ⊎ (r.risk ≡ risk_medium) ⊎ (r.risk ≡ risk_high)

is_risk_iff :
    (r : Text) → (is_risk r ≡ true) ↔ ((r ≡ risk_low) ⊎ (r ≡ risk_medium) ⊎ (r ≡ risk_high))
unfolding is_risk
is_risk_iff r = ground (arith, =?_iff r risk_low, =?_iff r risk_medium, =?_iff r risk_high)

validate-sound : (r : Recipe) → validate r ≡ [] → IsValidRecipe r
unfolding validate validate_content_type
validate-sound r h = ground (arith, is_risk_iff r.risk)

validate_complete : (r : Recipe) → IsValidRecipe r → validate r ≡ []
unfolding validate validate_content_type
validate_complete r h = ground (arith, is_risk_iff r.risk)

-- `Validate` reports no violation exactly for a recipe with an identifier, a name, a description,
-- declared parameters, an output, a well-formed content type and one of the three risk levels.
pub validate_iff : (r : Recipe) → (validate r ≡ []) ↔ IsValidRecipe r
validate_iff r = (validate-sound r, validate_complete r)
