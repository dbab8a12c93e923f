-- ===== src/Transform/Flattening.antt =====
-- The loop over the stack gives the leaves, and ends.
use var_track.Prelude.{
  ℕ, zero, suc, ◌+◌, ◌≤◌, String, ◌≡◌, refl, ap, ◌∙◌, some, List, [], ◌∷◌, arith,
}
use var_track.Prelude.Texts.{show}
use var_track.Prelude.Dict.{Dict}
use var_track.Value.{
  Value, null, bool, num, text, list, dict, Items, no_item, item, Fields, no_field, field,
}
use var_track.Transform.{
  Frame, below, push_fields, push_items, flatten_loop, nodes, nodes_of_fields, nodes_of_items,
  py_flatten,
}
use var_track.Transform.Reference.{leaves, leaves_of_fields, leaves_of_items}

-- The leaves of what is on a stack, its top first
unfoldable pub leaves_of_stack : List Frame → Dict String String → Dict String String
leaves_of_stack [] out = out
leaves_of_stack ((v, pfx) ∷ stack) out = leaves_of_stack stack (leaves v pfx out)

unfoldable pub nodes_of_stack : List Frame → ℕ
nodes_of_stack [] = 0
nodes_of_stack ((v, pfx) ∷ stack) = nodes v + nodes_of_stack stack

leaves-push_fields :
    (pfx : String) (fs : Fields) (stack : List Frame) (out : Dict String String)
    → leaves_of_stack (push_fields pfx fs stack) out
      ≡ leaves_of_stack stack (leaves_of_fields fs pfx out)
unfolding leaves_of_stack push_fields leaves
leaves-push_fields pfx no_field stack out = refl
leaves-push_fields pfx (field key v fs) stack out =
    leaves-push_fields pfx fs ((v, below pfx key) ∷ stack) out

leaves-push_items :
    (pfx : String) (i : ℕ) (vs : Items) (stack : List Frame) (out : Dict String String)
    → leaves_of_stack (push_items pfx i vs stack) out
      ≡ leaves_of_stack stack (leaves_of_items vs pfx i out)
unfolding leaves_of_stack push_items leaves
leaves-push_items pfx i no_item stack out = refl
leaves-push_items pfx i (item v vs) stack out =
    leaves-push_items pfx (suc i) vs ((v, below pfx (show i)) ∷ stack) out

nodes-push_fields :
    (pfx : String) (fs : Fields) (stack : List Frame)
    → nodes_of_stack (push_fields pfx fs stack) ≡ nodes_of_fields fs + nodes_of_stack stack
unfolding nodes_of_stack push_fields nodes
nodes-push_fields pfx no_field stack = omega arith
nodes-push_fields pfx (field key v fs) stack =
    omega (arith, nodes-push_fields pfx fs ((v, below pfx key) ∷ stack))

nodes-push_items :
    (pfx : String) (i : ℕ) (vs : Items) (stack : List Frame)
    → nodes_of_stack (push_items pfx i vs stack) ≡ nodes_of_items vs + nodes_of_stack stack
unfolding nodes_of_stack push_items nodes
nodes-push_items pfx i no_item stack = omega arith
nodes-push_items pfx i (item v vs) stack =
    omega (arith, nodes-push_items pfx (suc i) vs ((v, below pfx (show i)) ∷ stack))

-- As many turns as there are values on the stack are enough.
flatten_loop-leaves :
    (n : ℕ) (stack : List Frame) (out : Dict String String)
    → nodes_of_stack stack ≤ n
    → flatten_loop n stack out ≡ some (leaves_of_stack stack out)
unfolding flatten_loop leaves_of_stack leaves nodes_of_stack nodes
flatten_loop-leaves n [] out h = refl
flatten_loop-leaves zero ((dict fs, pfx) ∷ stack) out h = absurd (omega (arith, h))
flatten_loop-leaves zero ((list vs, pfx) ∷ stack) out h = absurd (omega (arith, h))
flatten_loop-leaves zero ((null, pfx) ∷ stack) out h = absurd (omega (arith, h))
flatten_loop-leaves zero ((bool b, pfx) ∷ stack) out h = absurd (omega (arith, h))
flatten_loop-leaves zero ((num m, pfx) ∷ stack) out h = absurd (omega (arith, h))
flatten_loop-leaves zero ((text s, pfx) ∷ stack) out h = absurd (omega (arith, h))
flatten_loop-leaves (suc n) ((dict fs, pfx) ∷ stack) out h =
    flatten_loop-leaves n (push_fields pfx fs stack) out
      (omega (arith, nodes-push_fields pfx fs stack, h))
    ∙ ap some (leaves-push_fields pfx fs stack out)
flatten_loop-leaves (suc n) ((list vs, pfx) ∷ stack) out h =
    flatten_loop-leaves n (push_items pfx 0 vs stack) out
      (omega (arith, nodes-push_items pfx 0 vs stack, h))
    ∙ ap some (leaves-push_items pfx 0 vs stack out)
flatten_loop-leaves (suc n) ((null, pfx) ∷ stack) out h =
    flatten_loop-leaves n stack (leaves null pfx out) (omega (arith, h))
flatten_loop-leaves (suc n) ((bool b, pfx) ∷ stack) out h =
    flatten_loop-leaves n stack (leaves (bool b) pfx out) (omega (arith, h))
flatten_loop-leaves (suc n) ((num m, pfx) ∷ stack) out h =
    flatten_loop-leaves n stack (leaves (num m) pfx out) (omega (arith, h))
flatten_loop-leaves (suc n) ((text s, pfx) ∷ stack) out h =
    flatten_loop-leaves n stack (leaves (text s) pfx out) (omega (arith, h))

-- The loop of _py_flatten ends, within as many turns as the data has values, and gives every leaf under the
-- path that leads to it, the first child's laid over the later ones'.
pub py_flatten-leaves : (v : Value) (pfx : String) → py_flatten v pfx ≡ some (leaves v pfx [])
unfolding py_flatten leaves_of_stack nodes_of_stack
py_flatten-leaves v pfx = flatten_loop-leaves (nodes v) ((v, pfx) ∷ []) [] (omega arith)
