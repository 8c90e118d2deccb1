-- ===== src/Examples/Data.antt =====
-- A small cluster: the namespace "doc" with the relations "viewer" and "member", and one node.
use access_controller.Prelude.{ℕ, false, ◌&&◌, none, some, [], ◌∷◌, map, if◌then◌else◌, In-map}
use access_controller.Text.{Text, bytes, text_eq}
use access_controller.Time.{Time}
use access_controller.Status.{unknown}
use access_controller.Config.{Relation, NamespaceConfig}
use access_controller.Tuple.{SubjectSet}
use access_controller.Snapshots.{ConfigStore}
use access_controller.Check.{TupleReader, Node}
use access_controller.Check.Types.{Query}
use access_controller.Check.Join.{finished, Scheduler}
use access_controller.Check.Join.Results.{In-finished}
use access_controller.Check.Proxy.{Peers, refused}

abbrev pub at : ℕ → Time
at n = record { instant = n; location = 0; monotonic = none }

abbrev pub doc : Text
doc = bytes "doc"

abbrev pub plain_relation : Text → Relation
plain_relation name = record { name = name; rewrite = none }

abbrev pub sample_config : NamespaceConfig
sample_config = record {
  name = doc;
  relations = plain_relation (bytes "viewer") ∷ plain_relation (bytes "member") ∷ [];
}

abbrev pub sample_store : ConfigStore
sample_store = (bytes "a", (doc, (at 5, sample_config) ∷ []) ∷ []) ∷ []

-- readme#viewer holds the users of team#member, and amy is one of them.
abbrev pub team : SubjectSet
team = record { namespace = doc; object = bytes "team"; relation = bytes "member" }

abbrev pub sample_tuples : TupleReader
sample_tuples = record {
  row_count = λ o relations user.
      some (if text_eq o.id (bytes "team") && text_eq user (bytes "amy") then 1 else 0);
  subject_sets = λ o relations. some (if text_eq o.id (bytes "readme") then team ∷ [] else []);
}

-- every object is this node's
abbrev pub alone : Peers
alone = record {
  locate = λ i object. bytes "a";
  has_client = λ i node. false;
  call = λ i node ctx q. refused unknown;
}

-- children end in the order in which they stand
abbrev pub in_order : Scheduler
in_order = record {
  arrange = λ q r os. map finished os;
  only = λ q r os o. In-finished o os;
  every = λ q r os o. In-map finished o os;
}

abbrev pub sample_node : Node
sample_node = record {
  server_id = bytes "a";
  configs = sample_store;
  tuples = sample_tuples;
  ring_checksum = λ i ctx q. 7;
  peers = alone;
  scheduler = in_order;
}

abbrev pub sample_query : Query
sample_query = record {
  namespace = doc;
  object = bytes "readme";
  relation = bytes "viewer";
  user = bytes "amy";
}
