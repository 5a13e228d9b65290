-- ===== src/Interests/Ownership.antt =====
-- The index by agent of src/domain/interest/manager.go.
use agent_collab.Common.{
  String, ◌≡◌, refl, inl, inr, Bool, true, false, not, ◌&&◌, if◌then◌else◌, ◌==◌, str_eq, eq_iff,
  Option, none, some, List, [], ◌∷◌, ◌++◌, length, keep, keep-In, In, arith, Bool-cases,
  Option-cases, text_cases,
}
use agent_collab.Common.Dict.{
  Dict, IsDict, lookup, insert, delete, In-lookup, insert-IsDict, delete-IsDict, lookup-insert,
  lookup-delete,
}
use agent_collab.Interests.{
  Interest, Manager, ids_of, is_member, index_add, index_remove, store_interest, drop_interest,
  drop_each, entries_where,
}

is_member-append :
    (ids : List String) (i j : String)
    → is_member j (ids ++ i ∷ []) ≡ (if str_eq i j then true else is_member j ids)
unfolding is_member
is_member-append [] i j = refl
is_member-append (x ∷ ids) i j = ground (arith, is_member-append ids i j)

is_member-keep :
    (ids : List String) (i j : String)
    → is_member j (keep (λ x. not (str_eq x i)) ids)
      ≡ (if str_eq i j then false else is_member j ids)
unfolding is_member
is_member-keep [] i j = ground arith
is_member-keep (x ∷ ids) i j =
    ground (arith, is_member-keep ids i j, eq_iff x i, eq_iff x j, eq_iff i j)

-- Whether an agent's set has an identifier.
unfoldable pub has_id : String → String → Dict (List String) → Bool
unfolding is_member ids_of
has_id agent id m = is_member id (ids_of agent m)

-- An agent's set after its entry was written.
ids_of-insert :
    (agent a : String) (ids : List String) (m : Dict (List String))
    → ids_of a (insert agent ids m) ≡ (if str_eq agent a then ids else ids_of a m)
unfolding ids_of
ids_of-insert agent a ids m = ground (arith, lookup-insert agent a ids m)

empty_of_length : (xs : List String) → (length xs == 0) ≡ true → xs ≡ []
empty_of_length [] e = refl
empty_of_length (x ∷ xs) e = absurd (ground (arith, e))

is_member-same : (ids : List String) (i j : String) → i ≡ j → is_member i ids ≡ is_member j ids
is_member-same ids i j e = cc e

ids_of-index_remove :
    (agent id a : String) (m : Dict (List String))
    → ids_of a (index_remove agent id m)
      ≡ (if str_eq agent a then keep (λ x. not (str_eq x id)) (ids_of a m) else ids_of a m)
unfolding index_remove
ids_of-index_remove agent id a m = elim (Option-cases (lookup agent m)) [
  | inl e ↦ rw (e, index_remove) (unfold ids_of in ground (arith, e, eq_iff agent a))
  | inr (ids, e) ↦
      rw (e, index_remove)
        (unfold ids_of in
          ground (
            arith,
            e,
            eq_iff agent a,
            lookup-delete agent a m,
            lookup-insert agent a (keep (λ x. not (str_eq x id)) ids) m,
            empty_of_length (keep (λ x. not (str_eq x id)) ids),
          ))
]

pub has_id-index_add :
    (agent id a i : String) (m : Dict (List String))
    → has_id a i (index_add agent id m)
      ≡ (if str_eq agent a && str_eq id i then true else has_id a i m)
unfolding has_id index_add
has_id-index_add agent id a i m = elim (Bool-cases (is_member id (ids_of agent m))) [
  | inl y ↦
      rw (y, index_add, ids_of-insert agent a (ids_of agent m) m)
        (ground (arith, y, eq_iff agent a, is_member-same (ids_of agent m) id i, eq_iff id i))
  | inr n ↦
      rw (n, index_add, ids_of-insert agent a (ids_of agent m ++ id ∷ []) m)
        (ground (arith, eq_iff agent a, is_member-append (ids_of agent m) id i))
]

has_id-index_remove :
    (agent id a i : String) (m : Dict (List String))
    → has_id a i (index_remove agent id m)
      ≡ (if str_eq agent a && str_eq id i then false else has_id a i m)
unfolding has_id
has_id-index_remove agent id a i m =
    rw (ids_of-index_remove agent id a m) (ground (arith, is_member-keep (ids_of a m) id i))

-- Whether an interest is there and is the agent's.
abbrev pub owned_by : String → Option Interest → Bool
owned_by agent none = false
owned_by agent (some i) = str_eq i.agent_id agent

ids_of-delete :
    (agent a : String) (m : Dict (List String))
    → ids_of a (delete agent m) ≡ (if str_eq agent a then [] else ids_of a m)
unfolding ids_of
ids_of-delete agent a m = ground (arith, lookup-delete agent a m)

pub has_id-delete :
    (agent a id : String) (m : Dict (List String))
    → has_id a id (delete agent m) ≡ (if str_eq agent a then false else has_id a id m)
unfolding has_id is_member
has_id-delete agent a id m = rw (ids_of-delete agent a m) (ground arith)

-- An agent's set has exactly the identifiers of the interests that are the agent's.
pub record IsManager (m : Manager) : Type 0 where
  pub distinct : IsDict m.interests
  pub owners :
      (agent id : String) → has_id agent id m.by_agent ≡ owned_by agent (lookup id m.interests)

-- An interest of an agent under an identifier that is free, or of the same agent.
abbrev pub Fits : String → String → Manager → Type 0
Fits agent id m = (old : Interest) → lookup id m.interests ≡ some old → old.agent_id ≡ agent

pub store_interest-IsManager :
    (i : Interest) (m : Manager)
    → Fits i.agent_id i.id m
    → IsManager m
    → IsManager (store_interest i m)
unfolding store_interest
store_interest-IsManager i m fits v = record {
  distinct = insert-IsDict i.id i m.interests v.distinct;
  owners = λ a id.
      rw (has_id-index_add i.agent_id i.id a id m.by_agent, lookup-insert i.id id i m.interests)
        (elim (text_cases i.id id) [
          | inr (p, n) ↦ rw n (ground (arith, v.owners a id))
          | inl (p, y) ↦ rw y (elim (Option-cases (lookup i.id m.interests)) [
            | inl e ↦ ground (arith, v.owners a i.id, e, p)
            | inr (old, e) ↦ ground (arith, v.owners a i.id, e, p, fits old e)
          ])
        ]);
}

pub drop_interest-IsManager :
    (i : Interest) (id : String) (m : Manager)
    → Fits i.agent_id id m
    → IsManager m
    → IsManager (drop_interest i id m)
unfolding drop_interest
drop_interest-IsManager i id m fits v = record {
  distinct = delete-IsDict id m.interests v.distinct;
  owners = λ a j.
      rw (has_id-index_remove i.agent_id id a j m.by_agent, lookup-delete id j m.interests)
        (elim (text_cases id j) [
          | inr (p, n) ↦ rw n (ground (arith, v.owners a j))
          | inl (p, y) ↦ rw y (elim (Option-cases (lookup id m.interests)) [
            | inl e ↦ ground (arith, v.owners a id, e, p)
            | inr (old, e) ↦ ground (arith, v.owners a id, e, p, fits old e)
          ])
        ]);
}

pub drop_each-IsManager :
    (es : List (String × Interest)) (m : Manager)
    → ((id : String) (i : Interest) → In (id, i) es → Fits i.agent_id id m)
    → IsManager m
    → IsManager (drop_each es m)
unfolding drop_each
drop_each-IsManager [] m fits v = v
drop_each-IsManager ((id, i) ∷ es) m fits v =
    drop_each-IsManager es (drop_interest i id m)
      (λ j k p old e.
        fits j k (inr p) old
          (unfold drop_interest in ground (arith, e, lookup-delete id j m.interests)))
      (drop_interest-IsManager i id m (fits id i (inl refl)) v)

pub entries-Fits :
    (test : Interest → Bool) (m : Manager) (id : String) (i : Interest)
    → IsManager m
    → In (id, i) (entries_where test m.interests)
    → Fits i.agent_id id m
unfolding entries_where
entries-Fits test m id i v p old e =
    let found : lookup id m.interests ≡ some i =
      In-lookup id i m.interests v.distinct
        (keep-In (λ (x : String × Interest). test x.1) (id, i) m.interests p).0 in
    ground (arith, found, e)
