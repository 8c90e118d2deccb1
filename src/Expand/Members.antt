-- ===== src/Expand/Members.antt =====
-- The users in the tree that an expansion returns are those who are granted the relation.
use access_controller.Prelude.{ℕ, zero, suc, ◌≡◌, refl, subst, ap, ◌↔◌, ◌≢◌, [], Option, none, some}
use access_controller.Text.{Text}
use access_controller.Config.{Rewrite}
use access_controller.Tuple.{SubjectSet}
use access_controller.Result.{returns, fails}
use access_controller.Choose.{ConfigSnapshot, choose}
use access_controller.Check.{TupleReader}
use access_controller.Check.Semantics.{Rules, Granted, by_rule, Holds}
use access_controller.Check.Types.{Query}
use access_controller.Tree.{SubjectTree}
use access_controller.Expand.{Source, Pending, some_tree, expand_rule, expand_at, expand}
use access_controller.Expand.Meaning.{Contains, IsUnionRule, rule_at, chosen_rules, query_of, Agree}
use access_controller.Expand.Sound.{IsSoundCall, rewrite_holds}
use access_controller.Expand.Complete.{IsCompleteCall, rewrite_covers}

-- The rule by which a query is granted.
rule_of :
    (tuples : TupleReader) (rules : Rules) (q : Query)
    → Granted tuples rules q
    → (r : Rewrite) × (rules q.namespace q.relation ≡ some r) × Holds tuples rules r q
rule_of tuples rules q (by_rule {r} e h) = (r, e, h)

some_tree-returns :
    (p : Pending SubjectTree) (o : Option SubjectTree)
    → some_tree p ≡ some (returns o)
    → (t : SubjectTree) × (p ≡ some (returns t)) × (o ≡ some t)
some_tree-returns none o e = cc
some_tree-returns (some (fails f)) o e = cc
some_tree-returns (some (returns t)) o e = (t, refl, cc)

-- No rule of the namespaces is an intersection or follows a tupleset.
abbrev pub AreUnionRules : Source → Type 0
AreUnionRules source =
    (namespace relation : Text) (r : Rewrite)
    → chosen_rules source.configs namespace relation ≡ some r
    → IsUnionRule r

module _ (source : Source) (tuples : TupleReader) (user : Text) (union_only : AreUnionRules source)
    (agree : Agree tuples source.list user) where
  rule_sound :
      (fuel : ℕ) (target : SubjectSet) (depth : ℕ) (rule : Option Rewrite) (t : SubjectTree)
      → IsSoundCall tuples (chosen_rules source.configs) source.list user (expand source fuel)
      → target.object ≢ []
      → chosen_rules source.configs target.namespace target.relation ≡ rule
      → expand_rule (expand source fuel) source.list target depth rule ≡ some (returns (some t))
      → Contains t user
      → Granted tuples (chosen_rules source.configs) (query_of target user)
  rule_sound fuel target depth none t sound full c e h = cc
  rule_sound fuel target depth (some r) t sound full c e h =
      let (u, k, same) = some_tree-returns _ _ e in
      let one : t ≡ u = cc in
      by_rule c (
        rewrite_holds tuples _ source.list user agree (expand source fuel) target depth r u sound
          full (union_only _ _ r c) k (subst (λ x. Contains x user) one h))

  at_sound :
      (fuel : ℕ) (target : SubjectSet) (depth : ℕ) (s : Option ConfigSnapshot) (t : SubjectTree)
      → IsSoundCall tuples (chosen_rules source.configs) source.list user (expand source fuel)
      → target.object ≢ []
      → choose source.configs target.namespace ≡ s
      → expand_at (expand source fuel) source.list target depth s ≡ some (returns (some t))
      → Contains t user
      → Granted tuples (chosen_rules source.configs) (query_of target user)
  at_sound fuel target depth none t sound full c e h = cc
  at_sound fuel target depth (some s) t sound full c e h =
      rule_sound fuel target depth _ t sound full (ap (rule_at target.relation) c) e h

  expand_sound :
      (fuel : ℕ)
      → IsSoundCall tuples (chosen_rules source.configs) source.list user (expand source fuel)
  unfolding expand
  expand_sound zero target depth t full e h = cc
  expand_sound (suc fuel) target depth t full e h =
      at_sound fuel target depth _ t (expand_sound fuel) full refl e h

  rule_complete :
      (fuel : ℕ) (target : SubjectSet) (depth : ℕ) (rule : Option Rewrite) (o : Option SubjectTree)
      → IsCompleteCall tuples (chosen_rules source.configs) source.list user (expand source fuel)
      → target.object ≢ []
      → chosen_rules source.configs target.namespace target.relation ≡ rule
      → expand_rule (expand source fuel) source.list target depth rule ≡ some (returns o)
      → Granted tuples (chosen_rules source.configs) (query_of target user)
      → (t : SubjectTree) × (o ≡ some t) × Contains t user
  rule_complete fuel target depth none o complete full c e g =
      let (r, k, h) = rule_of tuples _ _ g in cc
  rule_complete fuel target depth (some rule) o complete full c e g =
      let (r, k, h) = rule_of tuples _ _ g in
      let one : r ≡ rule = cc in
      let (u, k', same) = some_tree-returns _ _ e in
      (
        u,
        same,
        rewrite_covers tuples _ source.list user agree (expand source fuel) target depth rule u
            complete full (union_only _ _ rule c) k'
            (subst (λ x. Holds tuples (chosen_rules source.configs) x (query_of target user)) one
              h),
      )

  at_complete :
      (fuel : ℕ) (target : SubjectSet) (depth : ℕ) (s : Option ConfigSnapshot)
      (o : Option SubjectTree)
      → IsCompleteCall tuples (chosen_rules source.configs) source.list user (expand source fuel)
      → target.object ≢ []
      → choose source.configs target.namespace ≡ s
      → expand_at (expand source fuel) source.list target depth s ≡ some (returns o)
      → Granted tuples (chosen_rules source.configs) (query_of target user)
      → (t : SubjectTree) × (o ≡ some t) × Contains t user
  at_complete fuel target depth none o complete full c e g = cc
  at_complete fuel target depth (some s) o complete full c e g =
      rule_complete fuel target depth _ o complete full (ap (rule_at target.relation) c) e g

  expand_complete :
      (fuel : ℕ)
      → IsCompleteCall tuples (chosen_rules source.configs) source.list user (expand source fuel)
  unfolding expand
  expand_complete zero target depth o full e g = cc
  expand_complete (suc fuel) target depth o full e g =
      at_complete fuel target depth _ o (expand_complete fuel) full refl e g

-- If no rule of the namespaces is an intersection or follows a tupleset, the object has a name, the
-- three methods of the tuple store agree, and the expansion of an object's relation returns a result, a tree or nil,
-- then the users in the tree are those who are granted the relation: nobody is in a nil tree.
pub expand-Contains :
    (source : Source) (tuples : TupleReader) (user : Text) (fuel : ℕ) (target : SubjectSet)
    (depth : ℕ) (o : Option SubjectTree)
    → target.object ≢ []
    → AreUnionRules source
    → Agree tuples source.list user
    → expand source fuel target depth ≡ some (returns o)
    → ((t : SubjectTree) × (o ≡ some t) × Contains t user)
      ↔ Granted tuples (chosen_rules source.configs) (query_of target user)
expand-Contains source tuples user fuel target depth o full union_only agree e = (
  λ (t, k, h).
      expand_sound source tuples user union_only agree fuel target depth t full
        (subst (λ x. expand source fuel target depth ≡ some (returns x)) k e) h,
  λ g. expand_complete source tuples user union_only agree fuel target depth o full e g,
)
