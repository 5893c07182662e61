-- ===== src/CiDoc/Ruleset.antt =====
-- `parseRuleset`: the rules of a decoded ruleset, and `boolYesNo`.
use make_mcp.Common.{Bool, true, false, Option, none, some, List, [], ◌∷◌, ◌++◌, if◌then◌else◌}
use make_mcp.Text.{Text, codes, ◌=?◌}
use make_mcp.Go.Strconv.{ℤ, format_int}

-- `parameters` of a rule.
pub record Parameters : Type 0 where
  pub dismiss_stale : Bool
  pub last_push_approval : Bool
  pub review_count : ℤ
  pub thread_resolution : Bool
  pub status_checks : List Text

-- A rule of `rulesetJSON`; nil parameters are `none`.
pub record Rule : Type 0 where
  pub type : Text
  pub parameters : Option Parameters

pub record BranchRule : Type 0 where
  pub rule : Text
  pub setting : Text

pub record BranchProtection : Type 0 where
  pub rules : List BranchRule
  pub required_checks : List Text

-- `boolYesNo`.
unfoldable pub bool_yes_no : Bool → Text
bool_yes_no true = codes "Yes"
bool_yes_no false = codes "No"

abbrev rule_with : Text → Text → BranchRule
rule_with rule setting = record { rule = rule; setting = setting }

-- The rows of a `pull_request` rule.
unfoldable pub review_rules : Option Parameters → List BranchRule
unfolding bool_yes_no format_int
review_rules none = []
review_rules (some p) =
    rule_with (codes "Required approving reviews") (format_int p.review_count)
    ∷ rule_with (codes "Dismiss stale reviews on push") (bool_yes_no p.dismiss_stale)
    ∷ rule_with (codes "Require last-push approval") (bool_yes_no p.last_push_approval)
    ∷ rule_with (codes "Required conversation resolution") (bool_yes_no p.thread_resolution)
    ∷ []

abbrev checks_of : Option Parameters → List Text
checks_of none = []
checks_of (some p) = p.status_checks

abbrev add_rules : BranchProtection → List BranchRule → BranchProtection
add_rules bp rules = record bp { rules = bp.rules ++ rules }

-- One round of the loop over the rules.
unfoldable pub add_rule : BranchProtection → Rule → BranchProtection
unfolding ◌=?◌ review_rules
add_rule bp r =
    if r.type =? codes "deletion"
    then add_rules bp (rule_with (codes "Deletion") (codes "Blocked") ∷ [])
    else if r.type =? codes "non_fast_forward"
    then add_rules bp (rule_with (codes "Force push") (codes "Blocked") ∷ [])
    else if r.type =? codes "required_linear_history"
    then add_rules bp (rule_with (codes "Required linear history") (codes "Yes") ∷ [])
    else if r.type =? codes "pull_request"
    then add_rules bp (review_rules r.parameters)
    else if r.type =? codes "required_status_checks"
    then record bp { required_checks = bp.required_checks ++ checks_of r.parameters }
    else bp

-- `parseRuleset` behind the decoder.
unfoldable pub parse_ruleset : BranchProtection → List Rule → BranchProtection
unfolding add_rule
parse_ruleset bp [] = bp
parse_ruleset bp (r ∷ rules) = parse_ruleset (add_rule bp r) rules
