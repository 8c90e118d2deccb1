-- ===== src/Tree.antt =====
-- internal/tree.go: the subject trees that Expand returns, and their protobuf messages.
use access_controller.Tuple.{Subject, SubjectMessage, subject_to_proto}

-- NodeType; `no_type` is the empty string, which a node has whose rule has no operation
pub data NodeType : Type 0 where
  union_node intersection_node leaf_node no_type : NodeType

-- SubjectTree, with its children in order
mutual
  pub data SubjectTree : Type 0 where
    node : NodeType → Subject → Trees → SubjectTree

  pub data Trees : Type 0 where
    no_trees : Trees
    ◌▹◌ : SubjectTree → Trees → Trees

infixr 20 ◌▹◌
-- append(tree.Children, …)
unfoldable pub join_trees : Trees → Trees → Trees
join_trees no_trees us = us
join_trees (t ▹ ts) us = t ▹ join_trees ts us

-- NodeType of the API
pub data ProtoType : Type 0 where
  proto_leaf proto_union proto_intersection proto_unspecified : ProtoType

-- NodeType.ToProto
unfoldable pub type_to_proto : NodeType → ProtoType
type_to_proto leaf_node = proto_leaf
type_to_proto union_node = proto_union
type_to_proto intersection_node = proto_intersection
type_to_proto no_type = proto_unspecified

mutual
  pub data TreeMessage : Type 0 where
    message : ProtoType → SubjectMessage → TreeMessages → TreeMessage

  pub data TreeMessages : Type 0 where
    no_messages : TreeMessages
    one_message : TreeMessage → TreeMessages → TreeMessages

-- SubjectTree.ToProto: a leaf is sent without children
unfoldable mutual
  pub tree_to_proto : SubjectTree → TreeMessage
  tree_to_proto (node leaf_node s ts) = message proto_leaf (subject_to_proto s) no_messages
  tree_to_proto (node union_node s ts) =
      message (type_to_proto union_node) (subject_to_proto s) (trees_to_proto ts)
  tree_to_proto (node intersection_node s ts) =
      message (type_to_proto intersection_node) (subject_to_proto s) (trees_to_proto ts)
  tree_to_proto (node no_type s ts) =
      message (type_to_proto no_type) (subject_to_proto s) (trees_to_proto ts)

  pub trees_to_proto : Trees → TreeMessages
  trees_to_proto no_trees = no_messages
  trees_to_proto (t ▹ ts) = one_message (tree_to_proto t) (trees_to_proto ts)
