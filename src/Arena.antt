-- ===== src/Arena.antt =====
-- The arena of the undo tree (crates/matcha-core/src/history.rs): its nodes, and the state of a
-- history.
pub mod Prune
use matcha.Common.{ℕ, Bool, true, false, Option, none, some, List, [], ◌∷◌}
use matcha.Transaction.{EditOp}

pub data OpClass : Type 0 where
  type delete other : OpClass

abbrev pub same_class : OpClass → OpClass → Bool
same_class type type = true
same_class delete delete = true
same_class other other = true
same_class _ _ = false

pub record GroupingHint : Type 0 where
  pub op : OpClass
  pub seal_before : Bool
  pub seal_after : Bool

abbrev pub mergeable : OpClass → GroupingHint
mergeable op = record { op = op; seal_before = false; seal_after = false }

abbrev pub discrete : GroupingHint
discrete = record { op = other; seal_before = true; seal_after = true }

pub record Step : Type 0 where
  pub forward : List EditOp
  pub inverse : List EditOp

pub record Element : Type 0 where
  pub steps : List Step
  pub op : OpClass
  pub alt_before : ℕ
  pub alt_after : ℕ

pub record UndoNode : Type 0 where
  pub parent : Option ℕ
  pub children : List ℕ
  pub preferred_child : Option ℕ
  pub elem : Option Element

-- `is_open` is the field `open`.
pub record History : Type 0 where
  pub nodes : List UndoNode
  pub current : ℕ
  pub is_open : Bool
  pub alt : ℕ
  pub alt_seq : ℕ
  pub saved_alt : ℕ
  pub max_undo : Option ℕ

abbrev pub base_node : UndoNode
base_node = record { parent = none; children = []; preferred_child = none; elem = none }

abbrev pub empty_history : History
empty_history = record {
  nodes = base_node ∷ [];
  current = 0;
  is_open = false;
  alt = 0;
  alt_seq = 0;
  saved_alt = 0;
  max_undo = none;
}
