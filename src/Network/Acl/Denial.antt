-- ===== src/Network/Acl/Denial.antt =====
-- Who stays denied a topic of src/infrastructure/network/libp2p/topic_acl.go.
use agent_collab.Common.{
  ℕ, String, ◌≡◌, ◌≢◌, refl, sym, ◌∙◌, inl, inr, true, false, eq_iff, eq_refl, some, none, List, [],
  ◌∷◌, arith, Result, ok, err, Result-cases, Option-cases, text_cases,
}
use agent_collab.Common.Dict.{lookup, insert, lookup-insert, lookup-delete}
use agent_collab.Network.Acl.{
  TopicAcl, AclConfig, AclManager, Error, has_peer, new_topic_acl, add_to_allow_list,
  remove_from_allow_list, add_to_deny_list, remove_from_deny_list, can_subscribe, create_acl,
  delete_acl, may_use, allow_peer, deny_peer,
}
use agent_collab.Network.Acl.Access.{has_peer-add_peer, has_peer-remove_peer}

-- The calls that change a manager's lists, the last three through the pointer that `GetACL` gives.
pub data AclCall : Type 0 where
  creates : AclConfig → AclCall
  deletes : String → AclCall
  allows denies unlists pardons : String → String → AclCall

abbrev left_by : AclManager → Result Error AclManager → AclManager
left_by am (ok am') = am'
left_by am (err e) = am

-- A write to the access list of a topic, if it has one.
unfoldable edited : (TopicAcl → TopicAcl) → AclManager → String → AclManager
edited f am topic = elim (lookup topic am.acls) [
  | none ↦ am
  | some acl ↦ record am { acls = insert topic (f acl) am.acls }
]

abbrev after : AclManager → ℕ → AclCall → AclManager
after am now (creates config) = left_by am (create_acl am config now)
after am now (deletes topic) = delete_acl am topic
after am now (allows topic p) = left_by am (allow_peer am topic p now)
after am now (denies topic p) = left_by am (deny_peer am topic p now)
after am now (unlists topic p) = edited (λ acl. remove_from_allow_list acl p now) am topic
after am now (pardons topic p) = edited (λ acl. remove_from_deny_list acl p now) am topic

unfoldable pub after_calls : AclManager → List (ℕ × AclCall) → AclManager
unfolding edited
after_calls am [] = am
after_calls am ((now, c) ∷ cs) = after_calls (after am now c) cs

-- A call that neither replaces nor deletes a topic's access list, nor takes a peer off its deny list.
abbrev Leaves : String → String → AclCall → Type 0
Leaves topic p (creates config) = config.topic ≢ topic
Leaves topic p (deletes t) = t ≢ topic
Leaves topic p (allows t q) = Unit
Leaves topic p (denies t q) = Unit
Leaves topic p (unlists t q) = Unit
Leaves topic p (pardons t q) = (t ≡ topic) → q ≢ p

abbrev pub AllLeave : String → String → List (ℕ × AclCall) → Type 0
AllLeave topic p [] = Unit
AllLeave topic p ((now, c) ∷ cs) = Leaves topic p c × AllLeave topic p cs

-- The topic has an access list that denies the peer.
abbrev IsDenied : AclManager → String → String → Type 0
IsDenied am topic p =
    (acl : TopicAcl) × (lookup topic am.acls ≡ some acl) × (has_peer acl.deny_list p ≡ true)

may_use-found :
    (am : AclManager) (topic p : String) (acl : TopicAcl)
    → lookup topic am.acls ≡ some acl
    → may_use am topic p ≡ can_subscribe acl p
unfolding may_use
may_use-found am topic p acl n = rw (n, may_use) refl

IsDenied-may_use :
    (am : AclManager) (topic p : String) → IsDenied am topic p → may_use am topic p ≡ false
unfolding can_subscribe
IsDenied-may_use am topic p (acl, n, d) = may_use-found am topic p acl n ∙ rw d refl

-- A new list for one topic, which denies the peer if that is the topic and the old list denied him.
insert-IsDenied :
    (am am' : AclManager) (topic p t : String) (acl : TopicAcl)
    → am'.acls ≡ insert t acl am.acls
    → ((t ≡ topic)
        → (old : TopicAcl) → lookup topic am.acls ≡ some old
        → has_peer old.deny_list p ≡ true
        → has_peer acl.deny_list p ≡ true)
    → IsDenied am topic p
    → IsDenied am' topic p
insert-IsDenied am am' topic p t acl e keeps (old, n, d) = elim (text_cases t topic) [
  | inl (same, y) ↦ (acl, rw e (rw (lookup-insert t topic acl am.acls, y) refl), keeps same old n d)
  | inr (other, y) ↦ (old, rw e (rw (lookup-insert t topic acl am.acls, y) n), d)
]

edited-IsDenied :
    (f : TopicAcl → TopicAcl) (am : AclManager) (topic p t : String)
    → ((t ≡ topic)
        → (old : TopicAcl) → has_peer old.deny_list p ≡ true
        → has_peer (f old).deny_list p ≡ true)
    → IsDenied am topic p
    → IsDenied (edited f am t) topic p
unfolding edited
edited-IsDenied f am topic p t keeps (old, n, d) = elim (Option-cases (lookup t am.acls)) [
  | inl e ↦ rw (e, edited) (old, n, d)
  | inr (acl, e) ↦
      insert-IsDenied am (edited f am t) topic p t (f acl) (rw (e, edited) refl)
        (λ same q k c. keeps same acl (ground (arith, e, same, k, c))) (old, n, d)
]

denied_at :
    (am am' : AclManager) (topic p : String) (now : ℕ)
    → deny_peer am topic p now ≡ ok am'
    → (acl : TopicAcl) × (lookup topic am.acls ≡ some acl)
      × (am'.acls ≡ insert topic (add_to_deny_list acl p now) am.acls)
unfolding deny_peer
denied_at am am' topic p now h = elim (Option-cases (lookup topic am.acls)) [
  | inl n ↦ absurd (ground arith)
  | inr (acl, n) ↦ (acl, n, ground arith)
]

denied-still :
    (acl : TopicAcl) (p q : String) (now : ℕ)
    → has_peer acl.deny_list p ≡ true
    → has_peer (add_to_deny_list acl q now).deny_list p ≡ true
unfolding add_to_deny_list
denied-still acl p q now d = ground (arith, has_peer-add_peer acl.deny_list q p, d)

after-IsDenied :
    (am : AclManager) (now : ℕ) (c : AclCall) (topic p : String)
    → Leaves topic p c
    → IsDenied am topic p
    → IsDenied (after am now c) topic p
unfolding create_acl delete_acl allow_peer add_to_allow_list remove_from_allow_list
    remove_from_deny_list
after-IsDenied am now (creates config) topic p m v =
    elim (Result-cases (new_topic_acl config now)) [
      | inr (e, h) ↦ rw (h, create_acl) v
      | inl (acl, h) ↦
          insert-IsDenied am (left_by am (create_acl am config now)) topic p config.topic acl
            (rw (h, create_acl) refl) (λ same. absurd (m same)) v
    ]
after-IsDenied am now (deletes t) topic p m (acl, n, d) =
    (acl, ground (arith, n, m, eq_iff t topic, lookup-delete t topic am.acls), d)
after-IsDenied am now (allows t q) topic p m v = elim (Option-cases (lookup t am.acls)) [
  | inl e ↦ rw (e, allow_peer) v
  | inr (acl, e) ↦
      insert-IsDenied am (left_by am (allow_peer am t q now)) topic p t
        (add_to_allow_list acl q now) (rw (e, allow_peer) refl)
        (λ same old k d. ground (arith, e, same, k, d)) v
]
after-IsDenied am now (denies t q) topic p m v = elim (Result-cases (deny_peer am t q now)) [
  | inr (e, h) ↦ rw h v
  | inl (am', h) ↦
      let (acl, e, n) = denied_at am am' t q now h in
      rw h (
        insert-IsDenied am am' topic p t (add_to_deny_list acl q now) n
          (λ same old k d. denied-still acl p q now (ground (arith, e, same, k, d))) v)
]
after-IsDenied am now (unlists t q) topic p m v =
    edited-IsDenied (λ acl. remove_from_allow_list acl q now) am topic p t (λ same old d. d) v
after-IsDenied am now (pardons t q) topic p m v =
    edited-IsDenied (λ acl. remove_from_deny_list acl q now) am topic p t
      (λ same old d. ground (arith, has_peer-remove_peer old.deny_list q p, d, m same, eq_iff q p))
      v

after_calls-IsDenied :
    (am : AclManager) (topic p : String) (cs : List (ℕ × AclCall))
    → AllLeave topic p cs
    → IsDenied am topic p
    → IsDenied (after_calls am cs) topic p
unfolding after_calls
after_calls-IsDenied am topic p [] m v = v
after_calls-IsDenied am topic p ((now, c) ∷ cs) m v =
    after_calls-IsDenied (after am now c) topic p cs m.1 (after-IsDenied am now c topic p m.0 v)

-- After a peer was denied a topic, it may not use it, whatever calls create, delete or change access
-- lists, as long as none replaces or deletes the topic's list or takes that peer off its deny list: not
-- even when the peer is put on the allow list. And nobody else loses or gains access by its being denied.
pub deny_peer-may_use :
    (am am' : AclManager) (topic p q : String) (now : ℕ)
    → deny_peer am topic p now ≡ ok am'
    → ((cs : List (ℕ × AclCall))
        → AllLeave topic p cs
        → may_use (after_calls am' cs) topic p ≡ false)
      × ((p ≢ q) → may_use am' topic q ≡ may_use am topic q)
unfolding can_subscribe add_to_deny_list
deny_peer-may_use am am' topic p q now h =
    let (acl, n, e) = denied_at am am' topic p now h in
    let found : lookup topic am'.acls ≡ some (add_to_deny_list acl p now) =
      rw e
        (rw (lookup-insert topic topic (add_to_deny_list acl p now) am.acls, eq_refl topic) refl) in
    let start : IsDenied am' topic p = (
      add_to_deny_list acl p now,
      found,
      ground (arith, has_peer-add_peer acl.deny_list p p, eq_refl p),
    ) in
    (
      λ cs m.
          IsDenied-may_use (after_calls am' cs) topic p
            (after_calls-IsDenied am' topic p cs m start),
      λ apart.
          may_use-found am' topic q (add_to_deny_list acl p now) found
          ∙ ground (arith, has_peer-add_peer acl.deny_list p q, eq_iff p q, apart)
          ∙ sym (may_use-found am topic q acl n),
    )
