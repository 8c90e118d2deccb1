-- ===== src/Check/Cycle.antt =====
-- A cycle in the stored tuples is followed for ever: `check` keeps no record of what it visited and
-- has no bound on its depth.
use access_controller.Prelude.{
  ℕ, zero, suc, ◌≡◌, refl, sym, ap, ◌∙◌, Bool, true, false, Option, none, some, List, [], ◌∷◌, In,
  inl, inr, subst, All, All-of_In,
}
use access_controller.Text.{text_key}
use access_controller.Time.{Time}
use access_controller.Map.{beq_refl}
use access_controller.Config.{NamespaceConfig, this, self_rewrite, rewrite_from_config}
use access_controller.Snapshots.{get_snapshot}
use access_controller.Context.{Context, checksum_of}
use access_controller.Check.Pins.{pin_again}
use access_controller.Check.{
  Node, Call, object_of, pin, checksum_differs, check_step, check, check_rewrite, check_leaf,
  check_subjects,
}
use access_controller.Check.Types.{Query, Outcome}
use access_controller.Check.Join.{Arrival, finished, done, select_first, join}

-- While children run and nothing is sent, nothing is received.
select_running :
    (decisive : Bool) (arrivals : List Arrival)
    → All (λ a. a ≡ finished none) arrivals
    → select_first decisive true arrivals ≡ none
unfolding select_first
select_running decisive [] h = refl
select_running decisive (finished none ∷ rest) h = select_running decisive rest h.1
select_running decisive (finished (some o) ∷ rest) h = cc (h.0)
select_running decisive (done ∷ rest) h = cc (h.0)

join_running :
    (decisive : Bool) (arrivals : List Arrival)
    → All (λ a. a ≡ finished none) arrivals
    → In (finished none) arrivals
    → join decisive arrivals ≡ none
unfolding join
join_running decisive [] h k = absurd k
join_running decisive (finished none ∷ rest) h k = select_running decisive rest h.1
join_running decisive (finished (some o) ∷ rest) h k = cc (h.0)
join_running decisive (done ∷ rest) h k = cc (h.0)

-- `q` asks for a relation whose rule is `_this` on an object of this node; the namespace has a config,
-- the one that the context pins or else the one that is chosen and pinned; the ring's checksum is the
-- one that the context carries, if it carries one; the only tuple of the object and the relation names
-- the set itself; the user has no tuple; and the context is not canceled.
pub record IsSelfReferring (n : Node) (ctx : Context) (q : Query) : Type 0 where
  pub ts : Time
  pub after : Context
  pub cfg : NamespaceConfig
  pub same_ring : (c : Context) → checksum_of c ≡ checksum_of ctx → checksum_differs n c q ≡ false
  pub pinned : pin n ctx q.namespace ≡ some (ts, after)
  pub defined : get_snapshot n.configs n.server_id q.namespace ts ≡ some cfg
  pub plain : rewrite_from_config q.relation (some cfg) ≡ some self_rewrite
  pub local : n.peers.locate 0 q.object ≡ n.server_id
  pub absent : n.tuples.row_count (object_of q) (q.relation ∷ []) q.user ≡ some 0
  pub cyclic :
      n.tuples.subject_sets (object_of q) (q.relation ∷ [])
      ≡ some (record { namespace = q.namespace; object = q.object; relation = q.relation } ∷ [])
  pub open_context :
      (os : List (Option Outcome)) → ¬ (In done (n.scheduler.arrange q self_rewrite os))

module _ (n : Node) (ctx : Context) (q : Query) (c : IsSelfReferring n ctx q) where
  -- the one child `_this`, while the check that it calls runs
  leaf_runs : (call : Call) → call q ≡ none → check_leaf call n.tuples this q ≡ none
  unfolding check_leaf check_subjects
  leaf_runs call e = rw (c.absent, c.cyclic, e)

  arrivals_run :
      (os : List (Option Outcome)) (a : Arrival)
      → os ≡ none ∷ []
      → In a (n.scheduler.arrange q self_rewrite os)
      → a ≡ finished none
  arrivals_run os done e k = absurd (c.open_context os k)
  arrivals_run os (finished o) e k =
      elim (subst (In o) e (n.scheduler.only q self_rewrite os o k)) [
        | inl p ↦ ap finished p
        | inr none_left ↦ absurd none_left
      ]

  rule_runs :
      (call : Call) → call q ≡ none → check_rewrite n.scheduler call n.tuples self_rewrite q ≡ none
  unfolding check_rewrite
  rule_runs call e =
      let os = check_leaf call n.tuples this q ∷ [] in
      let one : os ≡ none ∷ [] = ap (λ o. o ∷ []) (leaf_runs call e) in
      join_running true (n.scheduler.arrange q self_rewrite os)
        (All-of_In (λ a. a ≡ finished none) _ (λ a k. arrivals_run os a one k))
        (n.scheduler.every q self_rewrite os none (inl (sym (leaf_runs call e))))

  step_runs :
      (call : Context → Call) (start : Context)
      → checksum_of start ≡ checksum_of ctx
      → pin n start q.namespace ≡ some (c.ts, c.after)
      → call c.after q ≡ none
      → check_step n call start q ≡ none
  unfolding check_step
  step_runs call start sum pinned e =
      rw (c.same_ring start sum, pinned, c.defined, c.plain, c.local, beq_refl n.server_id)
        (rule_runs (call c.after) e)

  -- The first call pins the namespace, and the calls behind it find it pinned.
  cycle_runs :
      (fuel : ℕ) (start : Context)
      → checksum_of start ≡ checksum_of ctx
      → pin n start q.namespace ≡ some (c.ts, c.after)
      → check n fuel start q ≡ none
  unfolding check
  cycle_runs zero start sum pinned = refl
  cycle_runs (suc fuel) start sum pinned =
      let (again, kept) = pin_again n start c.after q.namespace c.ts pinned in
      step_runs (check n fuel) start sum pinned (cycle_runs fuel c.after (kept ∙ sum) again)

-- On a node that owns the object and whose config for the namespace gives the relation the rule `_this`,
-- a check of a user who has no tuple, by a context that is not canceled and whose checksum, if it has
-- one, is the ring's, is followed for ever if the only tuple of the object and the relation names that
-- set itself: no amount of fuel gives a result. The context may be an external request's, which pins
-- no timestamp yet.
pub cycle_diverges :
    (n : Node) (ctx : Context) (q : Query) (fuel : ℕ)
    → IsSelfReferring n ctx q
    → check n fuel ctx q ≡ none
cycle_diverges n ctx q fuel c = cycle_runs n ctx q c fuel ctx refl c.pinned
