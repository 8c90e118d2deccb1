-- ===== src/Manager/Newest.antt =====
-- The query of GetConfig: the row of a namespace with the latest timestamp.
use access_controller.Prelude.{
  ℕ, ◌≤◌, ◌<◌, ◌≡◌, refl, ap, sym, ◌∙◌, ◌⊎◌, inl, inr, true, some, List, [], ◌∷◌, arith, ◌==◌, In,
  Bool-cases,
}
use access_controller.Text.{Text, text_eq, text_eq_iff}
use access_controller.Manager.{
  ConfigRow, json_found, of_namespace, max_timestamp, first_at, select_latest,
}

-- The row is in the table, and the other rows of its namespace are older.
pub record IsNewest {J : Type 0} (rows : List (ConfigRow J)) (m : ConfigRow J) : Type 0 where
  pub there : In m rows
  pub older :
      (r : ConfigRow J)
      → In r rows
      → r.namespace ≡ m.namespace
      → (r ≡ m) ⊎ (r.timestamp < m.timestamp)

module _ {J : Type 0} where
  In-of_namespace :
      (namespace : Text) (r : ConfigRow J) (rows : List (ConfigRow J))
      → In r rows
      → r.namespace ≡ namespace
      → In r (of_namespace namespace rows)
  unfolding of_namespace
  In-of_namespace namespace r [] h e = h
  In-of_namespace namespace r (s ∷ rows) (inl same) e =
      let yes : text_eq s.namespace namespace ≡ true =
        (text_eq_iff s.namespace namespace).1 (sym (ap (λ x. x.namespace) same) ∙ e) in
      rw yes (inl same)
  In-of_namespace namespace r (s ∷ rows) (inr h) e =
      let rest = In-of_namespace namespace r rows h e in
      elim (Bool-cases (text_eq s.namespace namespace)) [
        | inl b ↦ rw b (inr rest)
        | inr b ↦ rw b rest
      ]

  of_namespace-In :
      (namespace : Text) (r : ConfigRow J) (rows : List (ConfigRow J))
      → In r (of_namespace namespace rows)
      → In r rows × (r.namespace ≡ namespace)
  unfolding of_namespace
  of_namespace-In namespace r [] h = absurd h
  of_namespace-In namespace r (s ∷ rows) h = elim (Bool-cases (text_eq s.namespace namespace)) [
    | inl b ↦
        let k : In r (s ∷ of_namespace namespace rows) = rw b at h in
        elim k [
          | inl e ↦ (inl e, ap (λ x. x.namespace) e ∙ (text_eq_iff s.namespace namespace).0 b)
          | inr i ↦ let (there, same) = of_namespace-In namespace r rows i in (inr there, same)
        ]
    | inr b ↦
        let i : In r (of_namespace namespace rows) = rw b at h in
        let (there, same) = of_namespace-In namespace r rows i in (inr there, same)
  ]

  max_timestamp-upper :
      (r : ConfigRow J) (rows : List (ConfigRow J)) → In r rows → r.timestamp ≤ max_timestamp rows
  unfolding max_timestamp
  max_timestamp-upper r [] h = absurd h
  max_timestamp-upper r (s ∷ rows) (inl e) = let same = ap (λ x. x.timestamp) e in ground arith
  max_timestamp-upper r (s ∷ rows) (inr h) = let rest = max_timestamp-upper r rows h in ground arith

  max_timestamp-least :
      (b : ℕ) (rows : List (ConfigRow J))
      → ((r : ConfigRow J) → In r rows → r.timestamp ≤ b)
      → max_timestamp rows ≤ b
  unfolding max_timestamp
  max_timestamp-least b [] h = omega arith
  max_timestamp-least b (s ∷ rows) h =
      let first = h s (inl refl) in
      let rest = max_timestamp-least b rows (λ r k. h r (inr k)) in ground arith

  first_at_lem :
      (m : ConfigRow J) (rows : List (ConfigRow J))
      → In m rows
      → ((r : ConfigRow J) → In r rows → r.timestamp ≡ m.timestamp → r ≡ m)
      → first_at m.timestamp rows ≡ json_found m.config
  unfolding first_at
  first_at_lem m [] h only = absurd h
  first_at_lem m (s ∷ rows) h only = elim (Bool-cases (s.timestamp == m.timestamp)) [
    | inl b ↦
        let same : s ≡ m = only s (inl refl) (ground arith) in
        rw b (ap (λ r. json_found r.config) same)
    | inr b ↦ elim h [
      | inl e ↦ let t = ap (λ x. x.timestamp) e in absurd (ground arith)
      | inr k ↦ rw b (first_at_lem m rows k (λ r i. only r (inr i)))
    ]
  ]

ap_le : {a b : ℕ} → a ≡ b → a ≤ b
ap_le e = omega arith

among_own :
    {J : Type 0} (rows : List (ConfigRow J)) (m : ConfigRow J)
    → IsNewest rows m
    → (r : ConfigRow J) → In r (of_namespace m.namespace rows)
    → (r ≡ m) ⊎ (r.timestamp < m.timestamp)
among_own rows m newest r h =
    let (there, same) = of_namespace-In m.namespace r rows h in newest.older r there same

-- The query gives the config of the newest row of a namespace.
pub select_latest-newest :
    {J : Type 0} (rows : List (ConfigRow J)) (m : ConfigRow J)
    → IsNewest rows m
    → select_latest m.namespace (some rows) ≡ json_found m.config
unfolding select_latest
select_latest-newest rows m newest =
    let own = of_namespace m.namespace rows in
    let here = In-of_namespace m.namespace m rows newest.there refl in
    let among = among_own rows m newest in
    let top : max_timestamp own ≡ m.timestamp =
      let up = max_timestamp-upper m own here in
      let down = max_timestamp-least m.timestamp own (λ r h. elim (among r h) [
        | inl e ↦ ap_le (ap (λ x. x.timestamp) e)
        | inr l ↦ omega arith
      ]) in
      omega arith in
    rw top (
      first_at_lem m own here
        (λ r h e. elim (among r h) [ inl same ↦ same | inr l ↦ absurd (omega arith) ]))
