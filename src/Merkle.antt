-- ===== src/Merkle.antt =====
-- ossa-core/src/util/merkle_tree.rs: the tree of hashes that a peer fills while it downloads a store's
-- metadata. The nodes stand in a list, breadth first: the children of `i` are `2 * i + 1` and `2 * i + 2`.
pub mod Checked
pub mod Validate
pub mod Complete
pub mod Missing
pub mod Leaves
pub mod Build
mod Tests
use ossa.Prelude.{
  ℕ, zero, suc, ◌+◌, ◌-◌, ◌*◌, ◌/◌, Bool, true, false, Option, none, some, List, [], ◌∷◌, length,
  get_elem?, set, replicate, Run, done, panic, ◌>>=◌, leb, ◌==◌, Ord, beq, if◌then◌else◌,
}

-- trait `Hash`
pub record Hash (N : Type 0) : Type 1 where
  pub HashState : Type 0
  pub new : HashState
  pub update : HashState → List ℕ → HashState
  pub finalize : HashState → N
  pub as_ref : N → List ℕ

-- `Potential`, with its constructor `None`
pub data Potential (N : Type 0) : Type 0 where
  absent : Potential N
  unverified : N → Potential N
  verified : N → Potential N

unfoldable pub is_none : {N : Type 0} → Potential N → Bool
is_none absent = true
is_none (unverified v) = false
is_none (verified v) = false

-- `2 * 0 - 1` overflows; where overflow wraps, the vector of so many nodes panics instead
unfoldable pub node_count_for_leaf_count : ℕ → Run ℕ
node_count_for_leaf_count zero = panic
node_count_for_leaf_count (suc n) = done (2 * suc n - 1)

-- a tree has at least one leaf, so that the subtraction does not wrap
unfoldable pub is_leaf : ℕ → ℕ → Bool
is_leaf leaf_count index = leb (leaf_count - 1) index

unfoldable pub leaf_count : {N : Type 0} → List N → ℕ
leaf_count nodes = (length nodes + 1) / 2

unfoldable pub new_with_capacity : {N : Type 0} → N → ℕ → Run (List (Potential N))
unfolding node_count_for_leaf_count
new_with_capacity merkle_root leaves = node_count_for_leaf_count leaves >>= λ n.
    done (set (replicate n absent) 0 (verified merkle_root))

-- the indices of the nodes from one on that are missing
unfoldable pub missing_from : {N : Type 0} → ℕ → List (Potential N) → List ℕ
unfolding is_none
missing_from i [] = []
missing_from i (p ∷ ps) = if is_none p then i ∷ missing_from (i + 1) ps else missing_from (i + 1) ps

unfoldable pub missing_indices : {N : Type 0} → List (Potential N) → List ℕ
unfolding missing_from
missing_indices nodes = missing_from 0 nodes

unfoldable pub try_complete : {N : Type 0} → List (Potential N) → Option (List N)
try_complete [] = some []
try_complete (absent ∷ ps) = none
try_complete (unverified v ∷ ps) = none
try_complete (verified v ∷ ps) = elim (try_complete ps) [ none ↦ none | some vs ↦ some (v ∷ vs) ]

-- what `validate_children` finds at a node: nothing to check yet, or children that match or do not
pub data Check (N : Type 0) : Type 0 where
  pending : Check N
  valid : (left : N) → (right : N) → Check N
  invalid : Check N

module _ {N : Type 0} ⦃o : Ord N⦄ (hash : Hash N) where
  -- the hash of two hashes
  unfoldable pub combine : N → N → N
  combine left right =
      hash.finalize (hash.update (hash.update hash.new (hash.as_ref left)) (hash.as_ref right))

  unfoldable pub check_siblings : N → Option (Potential N) → Option (Potential N) → Run (Check N)
  unfolding combine
  check_siblings h none r = panic
  check_siblings h (some absent) none = panic
  check_siblings h (some absent) (some q) = done pending
  check_siblings h (some (unverified l)) none = panic
  check_siblings h (some (unverified l)) (some absent) = done pending
  check_siblings h (some (unverified l)) (some (unverified r)) =
      done (if beq h (combine l r) then valid l r else invalid)
  check_siblings h (some (unverified l)) (some (verified r)) = panic
  check_siblings h (some (verified l)) none = panic
  check_siblings h (some (verified l)) (some absent) = done pending
  check_siblings h (some (verified l)) (some (unverified r)) = panic
  check_siblings h (some (verified l)) (some (verified r)) = panic

  unfoldable pub check_children :
      Option (Potential N) → Option (Potential N) → Option (Potential N) → Run (Check N)
  unfolding check_siblings
  check_children none l r = panic
  check_children (some absent) l r = done pending
  check_children (some (unverified v)) l r = done pending
  check_children (some (verified h)) l r = check_siblings h l r

  -- `validate_children`, on fuel for its recursive calls; running out of fuel counts as a panic
  unfoldable pub validate_children :
      ℕ → List (Potential N) → ℕ → Run (Option Bool × List (Potential N))
  unfolding is_leaf leaf_count check_children
  validate_children zero nodes index = panic
  validate_children (suc fuel) nodes index =
      if is_leaf (leaf_count nodes) index
      then done (none, nodes)
      else (check_children (get_elem? nodes index) (get_elem? nodes (2 * index + 1))
            (get_elem? nodes (2 * index + 2))
          >>= λ c. elim c [
            | pending ↦ done (none, nodes)
            | invalid ↦
                done (some false, set (set nodes (2 * index + 1) absent) (2 * index + 2) absent)
            | valid l r ↦
                validate_children fuel
                  (set (set nodes (2 * index + 1) (verified l)) (2 * index + 2) (verified r))
                  (2 * index + 1)
                >>= λ a. validate_children fuel a.1 (2 * index + 2) >>= λ b. done (some true, b.1)
          ])

  -- the answer of `set` for what `validate_children` says
  unfoldable pub accepted : Option Bool × List (Potential N) → Bool × List (Potential N)
  accepted (none, nodes) = (true, nodes)
  accepted (some v, nodes) = (v, nodes)

  -- the `match` of `set` on the node, and what follows; the fuel is one round for each leaf
  unfoldable pub set_node :
      Option (Potential N) → List (Potential N) → ℕ → N → Run (Bool × List (Potential N))
  unfolding validate_children accepted
  set_node none nodes index potential_value = done (false, nodes)
  set_node (some (unverified prev)) nodes index potential_value = done (true, nodes)
  set_node (some (verified prev)) nodes index potential_value =
      done (beq prev potential_value, nodes)
  set_node (some absent) nodes index potential_value =
      if index == 0
      then panic
      else (validate_children (leaf_count nodes) (set nodes index (unverified potential_value))
            ((index - 1) / 2)
          >>= λ r. done (accepted r))

  -- `MerkleTree::set`
  unfoldable pub set_potential : List (Potential N) → ℕ → N → Run (Bool × List (Potential N))
  unfolding set_node
  set_potential nodes index potential_value =
      set_node (get_elem? nodes index) nodes index potential_value
