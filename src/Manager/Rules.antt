-- ===== src/Manager/Rules.antt =====
-- GetRewrite against the reading of a rule by a check.
use access_controller.Prelude.{
  ◌≡◌, refl, ap, Bool, Option, none, some, if◌then◌else◌, List, [], ◌∷◌,
}
use access_controller.Text.{Text, text_eq}
use access_controller.Config.{
  NamespaceConfig, Relation, Rewrite, rewrite_from_config, find_rewrite, or_self,
}
use access_controller.Handler.ConfigRpc.{TxnError}
use access_controller.Manager.{
  Postgres, Answer, gives, errs, Scope, get_config, find_rule, get_rewrite, rewrite_in, or_this,
}

same_default :
    (o : Option Rewrite) (c : Bool) (rest : Option Rewrite)
    → (if c then some (or_this o) else rest) ≡ (if c then some (or_self o) else rest)
same_default none c rest = refl
same_default (some r) c rest = refl

find_rule_lem :
    (relation : Text) (rs : List Relation) → find_rule relation rs ≡ find_rewrite relation rs
unfolding find_rule find_rewrite
find_rule_lem relation [] = refl
find_rule_lem relation (r ∷ rs) =
    rw (find_rule_lem relation rs)
      (same_default r.rewrite (text_eq r.name relation) (find_rewrite relation rs))

module _ {D T J : Type 0} (p : Postgres D T J) (relation : Text) where
  rule_given :
      (r : Answer NamespaceConfig × Scope D T) (config : NamespaceConfig)
      → r.0 ≡ gives config
      → (rewrite_in p relation r).0 ≡ gives (find_rewrite relation config.relations)
  unfolding get_rewrite
  rule_given (gives c, x) config h =
      let same : c ≡ config = cc in rw same (ap gives (find_rule_lem relation config.relations))
  rule_given (errs e, x) config h = cc

  rule_missing :
      (r : Answer NamespaceConfig × Scope D T) (e : TxnError)
      → r.0 ≡ errs e
      → (rewrite_in p relation r).0 ≡ errs e
  unfolding get_rewrite
  rule_missing (gives c, x) e h = cc
  rule_missing (errs f, x) e h = cc

-- The rule that GetRewrite gives is the one that a check reads from the config that GetConfig gives,
-- in whatever transaction, and their errors are the same.
pub get_rewrite-get_config :
    {D T J : Type 0} (p : Postgres D T J) (namespace relation : Text) (s : Scope D T)
    → ((config : NamespaceConfig)
        → (get_config p namespace s).0 ≡ gives config
        → (get_rewrite p namespace relation s).0
          ≡ gives (rewrite_from_config relation (some config)))
      × ((e : TxnError)
          → (get_config p namespace s).0 ≡ errs e
          → (get_rewrite p namespace relation s).0 ≡ errs e)
unfolding get_rewrite rewrite_from_config
get_rewrite-get_config p namespace relation s = (
  rule_given p relation (get_config p namespace s),
  rule_missing p relation (get_config p namespace s),
)
