-- ===== src/Membership/Routed.antt =====
-- Every node that the ring can locate can be called.
use access_controller.Prelude.{
  ◌≡◌, refl, sym, ◌∙◌, ◌≢◌, ◌⊎◌, inl, inr, false, Option, none, some, List, [], ◌∷◌, Bool-cases, In,
}
use access_controller.Map.{get-put, get-delete, beq_refl}
use access_controller.Text.{Text, text_eq, text_eq_iff, text_ne, text_key}
use access_controller.Time.{Time}
use access_controller.Snapshots.{get_snapshot}
use access_controller.Snapshots.Laws.{get_snapshot-delete_snapshots}
use access_controller.Membership.{
  Router, add_client, get_client, remove_client, Ring, Cluster, Member, join_peer, notify_join,
  notify_leave, Event, joins, leaves, handle, handle_all,
}

-- The router has a client for the node.
abbrev pub HasClient : {C : Type 0} → Router C → Text → Type 0
HasClient {C} router node = (client : C) × (get_client router node ≡ some client)

text_eq_ne : (node x : Text) → x ≢ node → text_eq node x ≡ false
text_eq_ne node x ne = elim (Bool-cases (text_eq node x)) [
  | inl b ↦ absurd (ne (sym ((text_eq_iff node x).0 b)))
  | inr b ↦ b
]

module _ {C R : Type 0} (ring : Ring R) (self : Text) where
  -- Each member of the ring is this node or has a client.
  pub record IsRouted (a : Cluster C R) : Type 0 where
    pub routed : (x : Text) → In x (ring.members a.hashring) → (x ≡ self) ⊎ HasClient a.router x

  add_client-HasClient :
      (router : Router C) (node x : Text) (client : C)
      → (x ≡ node) ⊎ HasClient router x
      → HasClient (add_client router node client) x
  unfolding add_client get_client
  add_client-HasClient router node x client h = elim (Bool-cases (text_eq node x)) [
    | inl b ↦ (client, get-put router node client x ∙ rw b refl)
    | inr b ↦ elim h [
      | inl e ↦ absurd (text_ne node x b (sym e))
      | inr (c, k) ↦ (c, get-put router node client x ∙ rw b k)
    ]
  ]

  remove_client-HasClient :
      (router : Router C) (node x : Text)
      → x ≢ node
      → HasClient router x
      → HasClient (remove_client router node) x
  unfolding remove_client get_client
  remove_client-HasClient router node x ne (client, h) =
      (client, get-delete router node x ∙ rw (text_eq_ne node x ne) h)

  join_peer-IsRouted :
      (a : Cluster C R) (node : Text) (client : Option C)
      → IsRouted a
      → IsRouted (join_peer ring self a node client)
  unfolding join_peer
  join_peer-IsRouted a node none r = r
  join_peer-IsRouted a node (some client) r = record {
    routed = λ x h. elim ((ring.members-add a.hashring node x).0 h) [
      | inl e ↦ inr (add_client-HasClient a.router node x client (inl e))
      | inr k ↦ elim (r.routed x k) [
        | inl e ↦ inl e
        | inr c ↦ inr (add_client-HasClient a.router node x client (inr c))
      ]
    ];
  }

  notify_join-IsRouted :
      (a : Cluster C R) (m : Member C) → IsRouted a → IsRouted (notify_join ring self a m)
  unfolding notify_join
  notify_join-IsRouted a m r = elim (Bool-cases (text_eq m.name self)) [
    | inl b ↦ rw b (record {
      routed = λ x h. elim ((ring.members-add a.hashring m.name x).0 h) [
        | inl e ↦ inl (e ∙ (text_eq_iff m.name self).0 b)
        | inr k ↦ r.routed x k
      ];
    })
    | inr b ↦ rw b (join_peer-IsRouted a m.name m.client r)
  ]

  notify_leave-IsRouted :
      (a : Cluster C R) (m : Member C) → IsRouted a → IsRouted (notify_leave ring self a m)
  unfolding notify_leave
  notify_leave-IsRouted a m r = record {
    routed = λ x h.
        let (ne, k) = (ring.members-remove a.hashring m.name x).0 h in
        elim (Bool-cases (text_eq m.name self)) [
          | inl b ↦ rw b (r.routed x k)
          | inr b ↦ rw b (elim (r.routed x k) [
            | inl e ↦ inl e
            | inr c ↦ inr (remove_client-HasClient a.router m.name x ne c)
          ])
        ];
  }

  handle_all-IsRouted :
      (a : Cluster C R) (es : List (Event C)) → IsRouted a → IsRouted (handle_all ring self a es)
  unfolding handle_all handle
  handle_all-IsRouted a [] r = r
  handle_all-IsRouted a (joins m ∷ es) r =
      handle_all-IsRouted (notify_join ring self a m) es (notify_join-IsRouted a m r)
  handle_all-IsRouted a (leaves m ∷ es) r =
      handle_all-IsRouted (notify_leave ring self a m) es (notify_leave-IsRouted a m r)

-- After any sequence of joins and leaves, failed connections included, from a state in which each
-- member of the ring is this node or has a client, the owner that a ring with members locates for a
-- key is this node, or GetClient finds a client for it.
pub handle_all-HasClient :
    {C R : Type 0} (ring : Ring R) (self : Text) (a : Cluster C R) (es : List (Event C))
    (key : Text)
    → IsRouted ring self a
    → ring.members (handle_all ring self a es).hashring ≢ []
    → (ring.locate (handle_all ring self a es).hashring key ≡ self)
      ⊎ HasClient
          (handle_all ring self a es).router
          (ring.locate (handle_all ring self a es).hashring key)
handle_all-HasClient ring self a es key r h =
    (handle_all-IsRouted ring self a es r).routed _
      (ring.members-locate (handle_all ring self a es).hashring key h)

-- After NotifyLeave of another node, the ring does not contain it, the router has no client for it,
-- and none of its snapshots is left.
pub notify_leave_forgets :
    {C R : Type 0} (ring : Ring R) (self : Text) (a : Cluster C R) (m : Member C)
    → m.name ≢ self
    → (¬ In m.name (ring.members (notify_leave ring self a m).hashring))
      × (get_client (notify_leave ring self a m).router m.name ≡ none)
      × ((namespace : Text) (ts : Time)
          → get_snapshot (notify_leave ring self a m).configs m.name namespace ts ≡ none)
unfolding notify_leave remove_client get_client
notify_leave_forgets ring self a m ne = (
  λ h. ((ring.members-remove a.hashring m.name m.name).0 h).0 refl,
  rw (text_eq_ne m.name self (λ e. ne (sym e)))
      (get-delete a.router m.name m.name ∙ rw (beq_refl m.name) refl),
  λ namespace ts.
      get_snapshot-delete_snapshots a.configs m.name m.name namespace ts
      ∙ rw (beq_refl m.name) refl,
)
