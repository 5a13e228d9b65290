-- ===== src/Interests/Lifecycle.antt =====
-- The operations of src/domain/interest/manager.go keep the index by agent.
use agent_collab.Common.{
  ℕ, String, ◌≡◌, ◌≢◌, refl, inl, inr, true, false, if◌then◌else◌, ◌==◌, str_eq, eq_iff, eq_refl,
  none, some, List, [], ◌∷◌, length, arith, Result, ok, err, Bool-cases, Option-cases,
}
use agent_collab.Common.Dict.{
  Dict, IsDict, lookup, insert, delete, has, lookup-insert, lookup-delete, delete-IsDict,
}
use agent_collab.Interests.{
  Interest, Manager, with_id, index_add, is_expired, ids_of, is_member, store_interest,
  drop_interest, register, unregister, unregister_agent, delete_all, entries_where, cleanup_expired,
  clear_remote, merge_remote,
}
use agent_collab.Interests.Ownership.{
  has_id, has_id-index_add, owned_by, IsManager, Fits, store_interest-IsManager,
  drop_interest-IsManager, drop_each-IsManager, entries-Fits, has_id-delete,
}

lookup-delete_all :
    (ids : List String) (id : String) (d : Dict Interest)
    → lookup id (delete_all ids d) ≡ (if is_member id ids then none else lookup id d)
unfolding delete_all is_member
lookup-delete_all [] id d = refl
lookup-delete_all (k ∷ ks) id d =
    ground (arith, lookup-delete_all ks id (delete k d), lookup-delete k id d)

delete_all-IsDict : (ids : List String) (d : Dict Interest) → IsDict d → IsDict (delete_all ids d)
unfolding delete_all
delete_all-IsDict [] d p = p
delete_all-IsDict (k ∷ ks) d p = delete_all-IsDict ks (delete k d) (delete-IsDict k d p)

-- One entry after an agent's interests were deleted.
swept :
    (m : Manager) (agent a id : String) (ids : List String)
    → IsManager m
    → is_member id ids ≡ owned_by agent (lookup id m.interests)
    → (if str_eq agent a then false else has_id a id m.by_agent)
      ≡ owned_by a (if is_member id ids then none else lookup id m.interests)
swept m agent a id ids v own = elim (Option-cases (lookup id m.interests)) [
  | inl e ↦ ground (arith, own, e, v.owners a id)
  | inr (i, e) ↦
      ground
        (arith, own, e, v.owners a id, eq_iff agent a, eq_iff i.agent_id a, eq_iff i.agent_id agent)
]

unregister_agent-IsManager :
    (m : Manager) (agent : String) → IsManager m → IsManager (unregister_agent m agent)
unfolding unregister_agent
unregister_agent-IsManager m agent v = elim (Option-cases (lookup agent m.by_agent)) [
  | inl e ↦ rw (e, unregister_agent) v
  | inr (ids, e) ↦
      let own : (id : String) → is_member id ids ≡ owned_by agent (lookup id m.interests) =
        λ id. unfold has_id ids_of in ground (arith, v.owners agent id, e) in
      rw (e, unregister_agent)
        (record {
          distinct = delete_all-IsDict ids m.interests v.distinct;
          owners = λ a id.
              rw (lookup-delete_all ids id m.interests, has_id-delete agent a id m.by_agent)
                (swept m agent a id ids v (own id));
        })
]

merge_remote-IsManager :
    (rs : List Interest) (m : Manager) → IsManager m → IsManager (merge_remote rs m)
unfolding merge_remote
merge_remote-IsManager [] m v = v
merge_remote-IsManager (r ∷ rs) m v = elim (Bool-cases (has r.id m.interests)) [
  | inl y ↦ rw (y, merge_remote) (merge_remote-IsManager rs m v)
  | inr n ↦
      rw (n, merge_remote)
        (merge_remote-IsManager rs (store_interest (record r { remote = true }) m) (
          store_interest-IsManager (record r { remote = true }) m
            (λ old e. absurd (unfold has in ground (arith, n, e))) v))
]

-- What a manager is used for. A registration's identifier is chosen, or generated.
pub data Action : Type 0 where
  registers : Interest → (generated : String) → Action
  unregisters : String → Action
  unregisters_agent : String → Action
  cleans_up : Action
  clears_remote : Action
  merges : List Interest → Action

abbrev pub or_before : {A : Type 0} {E : Type 0} → A → Result E A → A
or_before m (ok m') = m'
or_before m (err e) = m

abbrev pub perform : Manager → ℕ → Action → Manager
perform m now (registers i generated) = or_before m (register m (some i) generated)
perform m now (unregisters id) = or_before m (unregister m id)
perform m now (unregisters_agent agent) = unregister_agent m agent
perform m now cleans_up = (cleanup_expired m now).0
perform m now clears_remote = (clear_remote m).0
perform m now (merges rs) = merge_remote rs m

-- A registration under an identifier that is in use is by the same agent.
abbrev pub IsFair : Manager → Action → Type 0
IsFair m (registers i generated) = Fits i.agent_id (with_id i generated).id m
IsFair m _ = Unit

-- Every call leaves each agent's set with exactly the identifiers of its interests, if registrations
-- do not take over another agent's identifier; a merge of a peer's interests never does.
pub perform-IsManager :
    (m : Manager) (now : ℕ) (a : Action) → IsFair m a → IsManager m → IsManager (perform m now a)
unfolding register unregister with_id store_interest drop_interest cleanup_expired clear_remote
perform-IsManager m now (registers i generated) fits v = elim (Bool-cases (str_eq i.agent_id "")) [
  | inl y ↦ rw (y, register) v
  | inr n ↦ elim (Bool-cases (length i.patterns == 0)) [
    | inl z ↦ rw (n, z, register) v
    | inr k ↦
        rw (n, k, register)
          (let w = store_interest-IsManager (with_id i generated) m fits v in
            record { distinct = w.distinct; owners = w.owners })
  ]
]
perform-IsManager m now (unregisters id) f v = elim (Option-cases (lookup id m.interests)) [
  | inl e ↦ rw (e, unregister) v
  | inr (i, e) ↦
      rw (e, unregister)
        (let w = drop_interest-IsManager i id m (λ old p. ground (arith, e, p)) v in
          record { distinct = w.distinct; owners = w.owners })
]
perform-IsManager m now (unregisters_agent agent) f v = unregister_agent-IsManager m agent v
perform-IsManager m now cleans_up f v =
    drop_each-IsManager (entries_where (λ i. is_expired i now) m.interests) m
      (λ id i p. entries-Fits (λ i. is_expired i now) m id i v p) v
perform-IsManager m now clears_remote f v =
    drop_each-IsManager (entries_where (λ i. i.remote) m.interests) m
      (λ id i p. entries-Fits (λ i. i.remote) m id i v p) v
perform-IsManager m now (merges rs) f v = merge_remote-IsManager rs m v

unregister_agent-interests :
    (m : Manager) (agent id : String)
    → lookup id (unregister_agent m agent).interests
      ≡ (if has_id agent id m.by_agent then none else lookup id m.interests)
unfolding unregister_agent has_id
unregister_agent-interests m agent id = elim (Option-cases (lookup agent m.by_agent)) [
  | inl e ↦ rw (e, unregister_agent, ids_of) refl
  | inr (ids, e) ↦ rw (e, unregister_agent, ids_of) (lookup-delete_all ids id m.interests)
]

register-stored :
    (m m' : Manager) (i : Interest) (generated : String)
    → register m (some i) generated ≡ ok m'
    → let n = with_id i generated in
      (m'.interests ≡ insert n.id n m.interests)
      × (m'.by_agent ≡ index_add i.agent_id n.id m.by_agent)
unfolding register store_interest
register-stored m m' i generated h = ground (arith, h)

-- A registration may take over another agent's identifier: the first agent's set keeps it, so that when
-- the first agent is unregistered, the second agent's interest is gone.
pub register_steals :
    (m m' : Manager) (i old : Interest) (generated : String)
    → IsManager m
    → lookup (with_id i generated).id m.interests ≡ some old
    → old.agent_id ≢ i.agent_id
    → register m (some i) generated ≡ ok m'
    → (lookup (with_id i generated).id m'.interests ≡ some (with_id i generated))
      × (lookup (with_id i generated).id (unregister_agent m' old.agent_id).interests ≡ none)
register_steals m m' i old generated v e apart h =
    let n = with_id i generated in
    let (interests, agents) = register-stored m m' i generated h in
    let kept : has_id old.agent_id n.id m'.by_agent ≡ true =
      rw (agents, has_id-index_add i.agent_id n.id old.agent_id n.id m.by_agent)
        (ground (arith, v.owners old.agent_id n.id, e, eq_refl old.agent_id)) in
    (
      rw (interests, lookup-insert n.id n.id n m.interests, eq_refl n.id) refl,
      rw (unregister_agent-interests m' old.agent_id n.id, kept) refl,
    )
