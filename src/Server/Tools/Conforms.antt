-- ===== src/Server/Tools/Conforms.antt =====
-- The input schema that a tool announces, and the arguments that `buildArgs` takes for it.
use make_mcp.Common.{◌≡◌, true, Option, none, some, List, [], All}
use make_mcp.Text.{Text}
use make_mcp.Dict.{Dict, lookup, is_some}
use make_mcp.Schema.{Param}
use make_mcp.Runner.Args.{Value, allowed}
use make_mcp.Runner.Args.Order.{Declared}
use make_mcp.Runner.Args.Accepts.{Accepts}
use make_mcp.Server.Tools.JsonType.{has_type, has_fitting, fits}
use make_mcp.Server.Tools.{Property, schema_type}

-- The arguments conform to the schema, in the sense of JSON Schema: each that is a property is of its type. The
-- schema announces neither required nor closed properties.
abbrev pub Conforms : Dict Property → Dict Value → Type 0
Conforms properties provided =
    (k : Text) (v : Value) (p : Property)
    → lookup k provided ≡ some v
    → lookup k properties ≡ some p
    → has_type p.type v ≡ true

-- No argument is beside the properties.
abbrev pub AllKnown : Dict Property → Dict Value → Type 0
AllKnown properties provided =
    (k : Text) (v : Value) → lookup k provided ≡ some v → is_some (lookup k properties) ≡ true

-- No argument is a float out of the range of `int64`.
abbrev pub AllFit : Dict Value → Type 0
AllFit provided = (k : Text) (v : Value) → lookup k provided ≡ some v → fits v ≡ true

-- The three together, key by key.
abbrev Closed : Dict Property → Dict Value → Type 0
Closed properties provided =
    (k : Text) (v : Value)
    → lookup k provided ≡ some v
    → (p : Property) × (lookup k properties ≡ some p) × (has_fitting p.type v ≡ true)

abbrev property_of : Param → Property
property_of p = record { type = schema_type p.type; description = p.description }

abbrev property_in : Option Param → Option Property
property_in none = none
property_in (some p) = some (property_of p)

-- What the loop over the keys and the loop over the parameters ask for together.
record Takes (ps : List Param) (provided : Dict Value) : Type 0 where
  declared : Declared (allowed ps []) provided
  printed : All (Accepts provided) ps
