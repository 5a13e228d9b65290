-- ===== src/Network/Acl/Access.antt =====
-- Who may use a topic of src/infrastructure/network/libp2p/topic_acl.go.
use agent_collab.Common.{
  ℕ, String, ◌≡◌, ◌≢◌, refl, sym, ◌∙◌, inl, inr, true, false, if◌then◌else◌, str_eq, eq_iff,
  eq_refl, List, [], ◌∷◌, ◌++◌, arith, Bool-cases, text_cases,
}
use agent_collab.Network.Acl.{
  TopicAcl, has_peer, add_peer, remove_peer, can_subscribe, remove_from_allow_list,
}

has_peer-append :
    (peers : List String) (p q : String)
    → has_peer (peers ++ p ∷ []) q ≡ (if str_eq p q then true else has_peer peers q)
unfolding has_peer
has_peer-append [] p q = refl
has_peer-append (x ∷ peers) p q = ground (arith, has_peer-append peers p q)

has_peer-same : (peers : List String) (p q : String) → p ≡ q → has_peer peers p ≡ has_peer peers q
has_peer-same peers p q e = cc e

pub has_peer-add_peer :
    (peers : List String) (p q : String)
    → has_peer (add_peer p peers) q ≡ (if str_eq p q then true else has_peer peers q)
unfolding add_peer
has_peer-add_peer peers p q = elim (Bool-cases (has_peer peers p)) [
  | inr n ↦ rw (n, add_peer) (has_peer-append peers p q)
  | inl y ↦
      rw (y, add_peer)
        (elim (text_cases p q) [
          | inl (e, t) ↦ rw t (sym (has_peer-same peers p q e) ∙ y)
          | inr (e, t) ↦ rw t refl
        ])
]

pub has_peer-remove_peer :
    (peers : List String) (p q : String)
    → has_peer (remove_peer p peers) q ≡ (if str_eq p q then false else has_peer peers q)
unfolding has_peer remove_peer
has_peer-remove_peer [] p q = ground arith
has_peer-remove_peer (x ∷ peers) p q =
    ground (arith, has_peer-remove_peer peers p q, eq_iff x p, eq_iff x q, eq_iff p q)

-- Taking the last peer off the allow list opens the topic to every peer that is not denied.
pub remove_last_opens :
    (acl : TopicAcl) (p q : String) (now : ℕ)
    → acl.allow_list ≡ p ∷ []
    → has_peer acl.deny_list q ≡ false
    → p ≢ q
    → (can_subscribe acl q ≡ false) × (can_subscribe (remove_from_allow_list acl p now) q ≡ true)
unfolding can_subscribe remove_from_allow_list remove_peer has_peer
remove_last_opens acl p q now only clean apart =
    let left : remove_peer p acl.allow_list ≡ [] = rw only (rw (eq_refl p) refl) in
    (ground (arith, only, clean, eq_iff p q, apart), ground (arith, left, clean))
