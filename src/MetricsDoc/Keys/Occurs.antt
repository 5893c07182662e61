-- ===== src/MetricsDoc/Keys/Occurs.antt =====
-- `collectAttrKeys` finds the keys of all attribute calls in a tree, and no other.
use make_mcp.Common.{◌≡◌, refl, ap, ◌↔◌, inl, inr, true, List, [], ◌∷◌, arith, Bool-cases}
use mathlib.Core.List.{Memᴰ}
use mathlib.Core.List.Memᴰ as Memᴰ
use make_mcp.Text.{Text, codes}
use make_mcp.Text.Equal.{=?_iff}
use make_mcp.MetricsDoc.Tree.{
  Node, Nodes, AssignToken, ident, basic_lit, selector_expr, call_expr, assign_stmt, if_stmt, other,
  no_nodes, more, visits, visits_all,
}
use make_mcp.MetricsDoc.Keys.{attr_key, attr_keys, collect_attr_keys, contains, trim_quotes}
use make_mcp.MetricsDoc.Keys.Union.{contains-append}

mutual
  -- `n` is a node of the tree.
  pub data Within (n : Node) : Node → Type 0 where
    self : {e : Node} → n ≡ e → Within n e
    in_x : {x : Node} {sel : Text} → Within n x → Within n (selector_expr x sel)
    in_sel : {x : Node} {sel : Text} → n ≡ ident sel → Within n (selector_expr x sel)
    in_fun : {f : Node} {args : Nodes} → Within n f → Within n (call_expr f args)
    in_args : {f : Node} {args : Nodes} → WithinSome n args → Within n (call_expr f args)
    in_lhs : {l r : Nodes} {t : AssignToken} → WithinSome n l → Within n (assign_stmt l t r)
    in_rhs : {l r : Nodes} {t : AssignToken} → WithinSome n r → Within n (assign_stmt l t r)
    in_init : {i r : Nodes} → WithinSome n i → Within n (if_stmt i r)
    in_rest : {i r : Nodes} → WithinSome n r → Within n (if_stmt i r)
    in_other : {c : Nodes} → WithinSome n c → Within n (other c)

  pub data WithinSome (n : Node) : Nodes → Type 0 where
    first : {e : Node} {es : Nodes} → Within n e → WithinSome n (more e es)
    later : {e : Node} {es : Nodes} → WithinSome n es → WithinSome n (more e es)

visits_self : (e : Node) → Memᴰ e (visits e)
unfolding visits
visits_self (ident x) = Memᴰ.head refl
visits_self (basic_lit s v) = Memᴰ.head refl
visits_self (selector_expr x sel) = Memᴰ.head refl
visits_self (call_expr f args) = Memᴰ.head refl
visits_self (assign_stmt l t r) = Memᴰ.head refl
visits_self (if_stmt i r) = Memᴰ.head refl
visits_self (other c) = Memᴰ.head refl

mutual
  unfolding visits

  Within-visits : {n e : Node} → Within n e → Memᴰ n (visits e)
  Within-visits {n} {e} (self same) = Memᴰ.cast same (visits_self e)
  Within-visits {n} (in_x {x = x} {sel = sel} h) =
      Memᴰ.tail (Memᴰ.append_left (ident sel ∷ []) (Within-visits h))
  Within-visits {n} (in_sel {x = x} {sel = sel} same) =
      Memᴰ.tail (Memᴰ.append_right (visits x) (Memᴰ.head same))
  Within-visits {n} (in_fun {args = args} h) =
      Memᴰ.tail (Memᴰ.append_left (visits_all args) (Within-visits h))
  Within-visits {n} (in_args {f = f} h) =
      Memᴰ.tail (Memᴰ.append_right (visits f) (WithinSome-visits h))
  Within-visits {n} (in_lhs {r = r} h) =
      Memᴰ.tail (Memᴰ.append_left (visits_all r) (WithinSome-visits h))
  Within-visits {n} (in_rhs {l = l} h) =
      Memᴰ.tail (Memᴰ.append_right (visits_all l) (WithinSome-visits h))
  Within-visits {n} (in_init {r = r} h) =
      Memᴰ.tail (Memᴰ.append_left (visits_all r) (WithinSome-visits h))
  Within-visits {n} (in_rest {i = i} h) =
      Memᴰ.tail (Memᴰ.append_right (visits_all i) (WithinSome-visits h))
  Within-visits {n} (in_other h) = Memᴰ.tail (WithinSome-visits h)

  WithinSome-visits : {n : Node} {es : Nodes} → WithinSome n es → Memᴰ n (visits_all es)
  WithinSome-visits {n} (first {es = es} h) = Memᴰ.append_left (visits_all es) (Within-visits h)
  WithinSome-visits {n} (later {e = e} h) = Memᴰ.append_right (visits e) (WithinSome-visits h)

mutual
  unfolding visits

  visits-Within : {n : Node} (e : Node) → Memᴰ n (visits e) → Within n e
  visits-Within (ident x) m = self (Memᴰ.eq_of_singleton m)
  visits-Within (basic_lit s v) m = self (Memᴰ.eq_of_singleton m)
  visits-Within (selector_expr x sel) m = elim (Memᴰ.cases_cons m) [
    | inl same ↦ self same
    | inr r ↦ elim (Memᴰ.append_cases (visits x) r) [
      | inl a ↦ in_x (visits-Within x a)
      | inr b ↦ in_sel (Memᴰ.eq_of_singleton b)
    ]
  ]
  visits-Within (call_expr f args) m = elim (Memᴰ.cases_cons m) [
    | inl same ↦ self same
    | inr r ↦ elim (Memᴰ.append_cases (visits f) r) [
      | inl a ↦ in_fun (visits-Within f a)
      | inr b ↦ in_args (visits-WithinSome args b)
    ]
  ]
  visits-Within (assign_stmt l t r) m = elim (Memᴰ.cases_cons m) [
    | inl same ↦ self same
    | inr q ↦ elim (Memᴰ.append_cases (visits_all l) q) [
      | inl a ↦ in_lhs (visits-WithinSome l a)
      | inr b ↦ in_rhs (visits-WithinSome r b)
    ]
  ]
  visits-Within (if_stmt i r) m = elim (Memᴰ.cases_cons m) [
    | inl same ↦ self same
    | inr q ↦ elim (Memᴰ.append_cases (visits_all i) q) [
      | inl a ↦ in_init (visits-WithinSome i a)
      | inr b ↦ in_rest (visits-WithinSome r b)
    ]
  ]
  visits-Within (other c) m = elim (Memᴰ.cases_cons m) [
    | inl same ↦ self same
    | inr q ↦ in_other (visits-WithinSome c q)
  ]

  visits-WithinSome : {n : Node} (es : Nodes) → Memᴰ n (visits_all es) → WithinSome n es
  visits-WithinSome no_nodes m = absurd (Memᴰ.not-nil m)
  visits-WithinSome (more e es) m = elim (Memᴰ.append_cases (visits e) m) [
    | inl a ↦ first (visits-Within e a)
    | inr b ↦ later (visits-WithinSome es b)
  ]

-- Somewhere in the tree stands `attribute.X("key", ...)`.
pub record HasKey (key : Text) (e : Node) : Type 0 where
  pub function : Text
  pub value : Text
  pub args : Nodes
  pub within :
      Within
        (call_expr
          (selector_expr (ident (codes "attribute")) function)
          (more (basic_lit true value) args))
        e
  pub trimmed : key ≡ trim_quotes value

attr_key_shape :
    (key : Text) (n : Node)
    → contains key (attr_key n) ≡ true
    → (function : Text) × (value : Text) × (args : Nodes) × (call_expr
          (selector_expr (ident (codes "attribute")) function)
          (more (basic_lit true value) args)
        ≡ n)
      × (key ≡ trim_quotes value)
unfolding attr_key contains
attr_key_shape key (call_expr (selector_expr (ident pkg) sel) (more (basic_lit true value) args))
      h =
    (
      sel,
      value,
      args,
      ground (arith, =?_iff pkg (codes "attribute")),
      ground (arith, =?_iff key (trim_quotes value)),
    )
attr_key_shape key _ h = absurd (ground arith)

attr_keys-source :
    (key : Text) (ns : List Node)
    → contains key (attr_keys ns) ≡ true
    → (n : Node) × Memᴰ n ns × (contains key (attr_key n) ≡ true)
unfolding attr_keys
attr_keys-source key [] h = absurd (unfold contains in ground arith)
attr_keys-source key (n ∷ ns) h = elim (Bool-cases (contains key (attr_key n))) [
  | inl here ↦ (n, Memᴰ.head refl, here)
  | inr not_here ↦
      let below : contains key (attr_keys ns) ≡ true =
        ground (arith, contains-append key (attr_key n) (attr_keys ns)) in
      let found = attr_keys-source key ns below in (found.0, Memᴰ.tail found.1, found.2)
]

attr_keys-Mem :
    (key : Text) {n : Node} {ns : List Node}
    → Memᴰ n ns
    → contains key (attr_key n) ≡ true
    → contains key (attr_keys ns) ≡ true
unfolding attr_keys
attr_keys-Mem key {n} (Memᴰ.head {x = x} {xs = xs} same) h =
    ground (arith, contains-append key (attr_key x) (attr_keys xs), ap attr_key same)
attr_keys-Mem key {n} (Memᴰ.tail {x = x} {xs = xs} m) h =
    ground (arith, contains-append key (attr_key x) (attr_keys xs), attr_keys-Mem key m h)

attr_key_call :
    (function value : Text) (args : Nodes)
    → contains (trim_quotes value) (
        attr_key (
          call_expr
            (selector_expr (ident (codes "attribute")) function)
            (more (basic_lit true value) args)))
      ≡ true
unfolding attr_key contains
attr_key_call function value args = ground (arith, =?_iff (trim_quotes value) (trim_quotes value))

-- A key is collected from an expression exactly if somewhere in the expression, at any depth, stands a call
-- of a function of the package `attribute` whose first argument is a string literal that is the key in
-- quotation marks.
pub collect_attr_keys_iff :
    (key : Text) (e : Node) → (contains key (collect_attr_keys e) ≡ true) ↔ HasKey key e
unfolding collect_attr_keys
collect_attr_keys_iff key e = (
  λ h.
      let found = attr_keys-source key (visits e) h in
      let shape = attr_key_shape key found.0 found.2 in
      record {
        function = shape.0;
        value = shape.1;
        args = shape.2;
        within = visits-Within e (Memᴰ.cast shape.3 found.1);
        trimmed = shape.4;
      },
  λ k. ground (
    arith,
    attr_keys-Mem key (Within-visits k.within)
        (rw k.trimmed (attr_key_call k.function k.value k.args)),
  ),
)
