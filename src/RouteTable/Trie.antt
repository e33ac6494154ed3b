-- ===== src/RouteTable/Trie.antt =====
-- The segment trie of src/route_table.rs (`Node`), over any type `V` of stored matches. The
-- children of a node are the entries of its `BTreeMap`; only `get` and `entry` read them, so their
-- order is left as it arose.
pub mod Lookup
pub mod Deepest
pub mod Prefix
use pingora_reverse_proxy.Prelude.{
  Bool, true, false, if◌then◌else◌, Option, none, some, List, [], ◌∷◌, Text, text_eq, or_else,
}

mutual
  pub data Node (V : Type 0) : Type 0 where
    node : Option V → Children V → Node V

  pub data Children (V : Type 0) : Type 0 where
    nil : Children V
    child : Text → Node V → Children V → Children V

module _ {V : Type 0} where
  -- `Node::default()`.
  abbrev pub empty : Node V
  empty = node none nil

  abbrev pub route : Node V → Option V
  route (node r cs) = r

  abbrev pub children : Node V → Children V
  children (node r cs) = cs

  -- `children.get(segment)`.
  unfoldable pub get_child : Text → Children V → Option (Node V)
  get_child s nil = none
  get_child s (child t n cs) = if text_eq s t then some n else get_child s cs

  -- `children.entry(segment).or_default()`, changed by what the loop goes on to do below it.
  unfoldable pub update_child : Text → (Node V → Node V) → Children V → Children V
  update_child s f nil = child s (f empty) nil
  update_child s f (child t n cs) =
      if text_eq s t then child t (f n) cs else child t n (update_child s f cs)

  -- The inner loop of `from_ordered_routes`, and the write to `node.route` that follows it.
  unfoldable pub store : List Text → V → Node V → Node V
  unfolding update_child
  store [] v (node r cs) = node (some v) cs
  store (s ∷ path) v (node r cs) = node r (update_child s (store path v) cs)

  -- The loop of `resolve`.
  unfoldable pub walk : Node V → Option V → List Text → Option V
  unfolding get_child
  walk n matched [] = matched
  walk n matched (s ∷ path) = elim (get_child s (children n)) [
    | none ↦ matched
    | some c ↦ walk c (or_else (route c) matched) path
  ]

  unfoldable pub resolve : Node V → List Text → Option V
  unfolding walk
  resolve n path = walk n (route n) path
