-- ===== src/Policy/Ast.antt =====
-- The checked syntax tree of a CEL expression, with one constructor for each kind of expression that
-- cel-go distinguishes, and the traversal that internal/policy/engine.go asks cel-go for.
use gh_token_broker.Base.{ℕ, suc, Bool, List, [], ◌∷◌, ◌++◌, Str, codes, ◌==◌, if◌then◌else◌, any}

pub data Literal : Type 0 where
  text : Str → Literal
  -- a literal of another type, as it is written
  other : Str → Literal

mutual
  pub data Expr : Type 0 where
    literal : Literal → Expr
    ident : Str → Expr
    -- operand, field, and whether only its presence is tested
    select : Expr → Str → Bool → Expr
    call : Str → Exprs → Expr
    -- target, function and arguments of a call with a target
    member : Expr → Str → Exprs → Expr
    list : Exprs → Expr
    -- keys and values in turn
    mapping : Exprs → Expr
    -- type name, field names and values
    message : Str → List Str → Exprs → Expr
    -- the two iteration variables, the accumulator, the range, the accumulator's start, the loop's
    -- condition, its step, and the result
    comprehension : Str → Str → Str → Expr → Expr → Expr → Expr → Expr → Expr

  pub data Exprs : Type 0 where
    nil : Exprs
    cons : Expr → Exprs → Exprs

abbrev pub entries : Exprs → List Expr
entries nil = []
entries (cons e es) = e ∷ entries es

-- `Children()`
abbrev pub children : Expr → List Expr
children (literal l) = []
children (ident name) = []
children (select operand field test_only) = operand ∷ []
children (call fn args) = entries args
children (member target fn args) = target ∷ entries args
children (list elements) = entries elements
children (mapping es) = entries es
children (message name fields values) = entries values
children (comprehension i j a range init condition step result) =
    range ∷ init ∷ condition ∷ step ∷ result ∷ []

-- A node of the tree with its ancestors, the parent first, each with the position of the child on
-- the way to the node. In a tree the position tells a child from its siblings, like its id.
pub record Node : Type 0 where
  pub expr : Expr
  pub above : List (Expr × ℕ)

-- The node and its descendants, the children before their parent.
unfoldable mutual
  pub nodes : List (Expr × ℕ) → Expr → List Node
  nodes up (literal l) = record { expr = literal l; above = up } ∷ []
  nodes up (ident name) = record { expr = ident name; above = up } ∷ []
  nodes up (select operand field test_only) =
      nodes ((select operand field test_only, 0) ∷ up) operand
      ++ (record { expr = select operand field test_only; above = up } ∷ [])
  nodes up (call fn args) =
      nodes_in up (call fn args) 0 args ++ (record { expr = call fn args; above = up } ∷ [])
  nodes up (member target fn args) =
      nodes ((member target fn args, 0) ∷ up) target
      ++ (nodes_in up (member target fn args) 1 args
          ++ (record { expr = member target fn args; above = up } ∷ []))
  nodes up (list elements) =
      nodes_in up (list elements) 0 elements ++ (record { expr = list elements; above = up } ∷ [])
  nodes up (mapping es) =
      nodes_in up (mapping es) 0 es ++ (record { expr = mapping es; above = up } ∷ [])
  nodes up (message name fields values) =
      nodes_in up (message name fields values) 0 values
      ++ (record { expr = message name fields values; above = up } ∷ [])
  nodes up (comprehension i j a range init condition step result) =
      let e = comprehension i j a range init condition step result in
      nodes ((e, 0) ∷ up) range
      ++ (nodes ((e, 1) ∷ up) init
          ++ (nodes ((e, 2) ∷ up) condition
              ++ (nodes ((e, 3) ∷ up) step
                  ++ (nodes ((e, 4) ∷ up) result ++ (record { expr = e; above = up } ∷ [])))))

  pub nodes_in : List (Expr × ℕ) → Expr → ℕ → Exprs → List Node
  nodes_in up parent position nil = []
  nodes_in up parent position (cons e es) =
      nodes ((parent, position) ∷ up) e ++ nodes_in up parent (suc position) es

-- `celast.MatchDescendants`
abbrev pub keep : (Node → Bool) → List Node → List Node
keep p [] = []
keep p (n ∷ ns) = if p n then n ∷ keep p ns else keep p ns

unfoldable pub match_descendants : Expr → (Node → Bool) → List Node
unfolding nodes
match_descendants e p = keep p (nodes [] e)

-- The names of the operators.
abbrev pub logical_or : Str
logical_or = codes "_||_"

abbrev pub logical_and : Str
logical_and = codes "_&&_"

abbrev pub equals : Str
equals = codes "_==_"

abbrev pub op_in : Str
op_in = codes "@in"

abbrev pub add : Str
add = codes "_+_"

abbrev pub index : Str
index = codes "_[_]"

abbrev pub is_ordering : Str → Bool
is_ordering fn = any (λ o. fn == o) (codes "_<_" ∷ codes "_<=_" ∷ codes "_>_" ∷ codes "_>=_" ∷ [])

abbrev pub is_text_test : Str → Bool
is_text_test fn =
    any (λ o. fn == o)
      (codes "startsWith" ∷ codes "endsWith" ∷ codes "contains" ∷ codes "matches" ∷ [])
