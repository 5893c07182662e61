-- ===== src/MetricsDoc/Tree.antt =====
-- Trees of go/ast and `ast.Inspect`.
use make_mcp.Common.{Bool, Option, List, [], ◌∷◌, ◌++◌}
use make_mcp.Text.{Text}

mutual
  -- `ast.Node`, by the types that the generator asks for. `other` is any other node, with its children.
  pub data Node : Type 0 where
    ident : Text → Node
    -- Whether `Kind` is `token.STRING`, and `Value`.
    basic_lit : Bool → Text → Node
    -- `X`, and the name of `Sel`.
    selector_expr : Node → Text → Node
    -- `Fun` and `Args`.
    call_expr : Node → Nodes → Node
    -- `Lhs`, `Tok` and `Rhs`.
    assign_stmt : Nodes → AssignToken → Nodes → Node
    -- `Init`, of at most one statement, and the other parts.
    if_stmt : Nodes → Nodes → Node
    other : Nodes → Node

  pub data Nodes : Type 0 where
    no_nodes : Nodes
    more : Node → Nodes → Nodes

  -- `token.ASSIGN`, `token.DEFINE`, and the tokens such as `+=`.
  pub data AssignToken : Type 0 where
    plain define other_token : AssignToken

-- `ast.FuncDecl`: its name and its body, if it has one.
pub record FuncDecl : Type 0 where
  pub name : Text
  pub body : Option Node

-- `ast.Decl`.
pub data Decl : Type 0 where
  func_decl : FuncDecl → Decl
  other_decl : Decl

-- The nodes that `ast.Inspect` visits where its callback always returns true: each before its children.
unfoldable mutual
  pub visits : Node → List Node
  visits (ident x) = ident x ∷ []
  visits (basic_lit is_string v) = basic_lit is_string v ∷ []
  visits (selector_expr x sel) = selector_expr x sel ∷ (visits x ++ ident sel ∷ [])
  visits (call_expr f args) = call_expr f args ∷ (visits f ++ visits_all args)
  visits (assign_stmt lhs tok rhs) = assign_stmt lhs tok rhs ∷ (visits_all lhs ++ visits_all rhs)
  visits (if_stmt init rest) = if_stmt init rest ∷ (visits_all init ++ visits_all rest)
  visits (other children) = other children ∷ visits_all children

  pub visits_all : Nodes → List Node
  visits_all no_nodes = []
  visits_all (more n ns) = visits n ++ visits_all ns
