-- ===== src/Status.antt =====
-- The errors that the RPCs return: gRPC status codes, the NamespaceConfigError of
-- internal/namespace-manager/namespacemgr.go and its translation into a status. A message is
-- represented by its format string (a constructor) and the values that are formatted.
use access_controller.Prelude.{ℕ, List}
use access_controller.Text.{Text}
use access_controller.Time.{Time}

-- google.golang.org/grpc/codes, those that the code names; `code_of` stands for the others.
pub data Code : Type 0 where
  canceled unknown invalid_argument not_found failed_precondition internal : Code
  code_of : ℕ → Code

pub data Message : Type 0 where
  -- "An internal error has occurred. Please try again shortly."
  internal_error : Message
  -- "'%s' is a required field and cannot be empty", or "cannot be nil"
  field_required : Text → Message
  -- "invalid mutation at index '%d' - '%s' is a required field and cannot be empty"
  mutation_field_required : ℕ → Text → Message
  -- "one or more mutations must be provided"
  no_mutations : Message
  -- "'%s' namespace is undefined. …"
  namespace_undefined : Text → Message
  -- "'%s' relation is undefined in namespace '%s' at snapshot config timestamp '%s'. …"
  relation_undefined : Text → Text → Time → Message
  -- "SubjectSet '%s' references the '%s' namespace which is undefined. …"
  set_namespace_undefined : Text → Text → Message
  -- "SubjectSet '%s' references relation '%s' which is undefined in the namespace '%s' …"
  set_relation_undefined : Text → Text → Text → Time → Message
  -- "'%s' relation is referenced but undefined in the provided namespace config"
  reference_undefined : Text → Message
  -- "unexpected rewrite operation - …" and "unexpected rewrite operation child - …"
  unexpected_operation unexpected_child : Message
  -- "Relation(s) [%v] cannot be removed while one or more relation tuples reference them. …"
  relations_referenced : List Text → Message
  -- "The namespace '%s' does not exist. …"
  namespace_not_found : Text → Message

-- NamespaceConfigErrorType
pub data ConfigErrorType : Type 0 where
  namespace_already_exists namespace_doesnt_exist : ConfigErrorType
  namespace_relation_undefined namespace_update_failed_precondition : ConfigErrorType

-- A value of Go's `error`: a gRPC status, a NamespaceConfigError, or the error of a context that is
-- done (ctx.Err()).
pub data Failure : Type 0 where
  status : Code → Message → Failure
  config_error : ConfigErrorType → Message → Failure
  context_done : Failure

-- internalErrorStatus
abbrev pub internal_status : Failure
internal_status = status internal internal_error

-- NamespaceConfigError.ToStatus
unfoldable pub to_status : ConfigErrorType → Message → Failure
to_status namespace_doesnt_exist m = status invalid_argument m
to_status namespace_update_failed_precondition m = status invalid_argument m
to_status namespace_relation_undefined m = status invalid_argument m
to_status _ m = status unknown m
