-- ===== src/Network/Acl.antt =====
-- src/infrastructure/network/libp2p/topic_acl.go: who may use a topic, and its encryption. A set of
-- peers is a list without repetitions. The cipher (AES-GCM) is a parameter.
pub mod Access
pub mod Denial
pub mod Secrecy
mod Examples
use agent_collab.Common.{
  ℕ, ◌+◌, String, Bool, true, false, not, ◌&&◌, ◌||◌, if◌then◌else◌, ltb, ◌==◌, str_eq, Option,
  none, some, List, [], ◌∷◌, ◌++◌, length, take, drop, keep, some_of, Result, ok, err,
}
use agent_collab.Common.Dict.{Dict, lookup, insert, delete, keys, values}

pub data Error : Type 0 where
  access_denied invalid_key decryption_failed topic_not_found : Error

abbrev pub Bytes : Type 0
Bytes = List ℕ

-- `m[p] = struct{}{}`, `delete(m, p)` and `_, ok := m[p]`.
unfoldable pub has_peer : List String → String → Bool
has_peer peers p = some_of (λ q. str_eq q p) peers

unfoldable pub add_peer : String → List String → List String
unfolding has_peer
add_peer p peers = if has_peer peers p then peers else peers ++ p ∷ []

unfoldable pub remove_peer : String → List String → List String
remove_peer p peers = keep (λ q. not (str_eq q p)) peers

unfoldable pub add_peers : List String → List String → List String
unfolding add_peer
add_peers [] peers = peers
add_peers (p ∷ ps) peers = add_peers ps (add_peer p peers)

pub record TopicAcl : Type 0 where
  pub topic : String
  pub allow_list : List String
  pub deny_list : List String
  pub encryption_enabled : Bool
  pub encryption_key : Option Bytes
  pub created_at : ℕ
  pub updated_at : ℕ
  pub created_by : String

pub record AclConfig : Type 0 where
  pub topic : String
  pub allow_list : List String
  pub deny_list : List String
  pub encryption_enabled : Bool
  pub encryption_key : Bytes
  pub created_by : String

unfoldable pub new_topic_acl : AclConfig → ℕ → Result Error TopicAcl
unfolding add_peers
new_topic_acl config now =
    let acl : TopicAcl = record {
      topic = config.topic;
      allow_list = add_peers config.allow_list [];
      deny_list = add_peers config.deny_list [];
      encryption_enabled = config.encryption_enabled;
      encryption_key = none;
      created_at = now;
      updated_at = now;
      created_by = config.created_by;
    } in
    if config.encryption_enabled
    then (if length config.encryption_key == 32
        then ok (record acl { encryption_key = some config.encryption_key })
        else err invalid_key)
    else ok acl

unfoldable pub can_subscribe : TopicAcl → String → Bool
unfolding has_peer
can_subscribe acl p =
    if has_peer acl.deny_list p
    then false
    else if length acl.allow_list == 0
    then true
    else has_peer acl.allow_list p

unfoldable pub can_publish : TopicAcl → String → Bool
unfolding can_subscribe
can_publish acl p = can_subscribe acl p

unfoldable pub add_to_allow_list : TopicAcl → String → ℕ → TopicAcl
unfolding add_peer
add_to_allow_list acl p now = record acl {
  allow_list = add_peer p acl.allow_list;
  updated_at = now;
}

unfoldable pub remove_from_allow_list : TopicAcl → String → ℕ → TopicAcl
unfolding remove_peer
remove_from_allow_list acl p now = record acl {
  allow_list = remove_peer p acl.allow_list;
  updated_at = now;
}

unfoldable pub add_to_deny_list : TopicAcl → String → ℕ → TopicAcl
unfolding add_peer
add_to_deny_list acl p now = record acl { deny_list = add_peer p acl.deny_list; updated_at = now }

unfoldable pub remove_from_deny_list : TopicAcl → String → ℕ → TopicAcl
unfolding remove_peer
remove_from_deny_list acl p now = record acl {
  deny_list = remove_peer p acl.deny_list;
  updated_at = now;
}

unfoldable pub set_encryption_key : TopicAcl → Bytes → ℕ → Result Error TopicAcl
set_encryption_key acl key now =
    if length key == 32
    then ok (record acl { encryption_key = some key; encryption_enabled = true; updated_at = now })
    else err invalid_key

unfoldable pub disable_encryption : TopicAcl → ℕ → TopicAcl
disable_encryption acl now = record acl {
  encryption_enabled = false;
  encryption_key = none;
  updated_at = now;
}

-- The key that is in use, if any.
unfoldable pub key_in_use : TopicAcl → Option Bytes
key_in_use acl = if acl.encryption_enabled then acl.encryption_key else none

-- `gcm.NonceSize()`.
abbrev pub nonce_size : ℕ
nonce_size = 12

-- `cipher.AEAD` with a key: `seal` takes the nonce and the text, `open_with` gives the text back or
-- fails.
pub record Gcm : Type 0 where
  pub seal : (nonce plaintext : Bytes) → Bytes
  pub open_with : (nonce ciphertext : Bytes) → Option Bytes

-- An error of the package, or one that a library returned.
pub data CryptError : Type 0 where
  acl_error : Error → CryptError
  library_error : CryptError

-- `aes.NewCipher` and `cipher.NewGCM`: none where one of them refuses the key.
module _ (new_gcm : Bytes → Option Gcm) where
  -- The nonce is what was drawn, or none where the random source failed; `gcm.Seal(nonce, nonce, …)`
  -- puts it in front.
  unfoldable pub encrypt : TopicAcl → (drawn : Option Bytes) → Bytes → Result CryptError Bytes
  unfolding key_in_use
  encrypt acl drawn plaintext = elim (key_in_use acl) [
    | none ↦ ok plaintext
    | some key ↦ elim (new_gcm key) [
      | none ↦ err library_error
      | some gcm ↦ elim drawn [
        | none ↦ err library_error
        | some nonce ↦ ok (nonce ++ gcm.seal nonce plaintext)
      ]
    ]
  ]

  unfoldable pub decrypt : TopicAcl → Bytes → Result CryptError Bytes
  unfolding key_in_use
  decrypt acl ciphertext = elim (key_in_use acl) [
    | none ↦ ok ciphertext
    | some key ↦ elim (new_gcm key) [
      | none ↦ err library_error
      | some gcm ↦
          if ltb (length ciphertext) nonce_size
          then err (acl_error decryption_failed)
          else elim (gcm.open_with (take nonce_size ciphertext) (drop nonce_size ciphertext)) [
            | none ↦ err (acl_error decryption_failed)
            | some plaintext ↦ ok plaintext
          ]
    ]
  ]

pub data AclPolicy : Type 0 where
  policy_allow_all policy_deny_all : AclPolicy

pub data AclChange : Type 0 where
  acl_created acl_deleted : AclChange
  peer_allowed peer_denied : String → AclChange

-- The events that the callback got, with their topics.
pub record AclManager : Type 0 where
  pub acls : Dict TopicAcl
  pub default_policy : AclPolicy
  pub changes : List (String × AclChange)

abbrev pub new_acl_manager : AclPolicy → AclManager
new_acl_manager policy = record { acls = []; default_policy = policy; changes = [] }

abbrev tell : AclManager → String → AclChange → AclManager
tell am topic change = record am { changes = am.changes ++ (topic, change) ∷ [] }

unfoldable pub create_acl : AclManager → AclConfig → ℕ → Result Error AclManager
unfolding new_topic_acl
create_acl am config now = elim (new_topic_acl config now) [
  | err e ↦ err e
  | ok acl ↦
      ok (tell (record am { acls = insert config.topic acl am.acls }) config.topic acl_created)
]

unfoldable pub delete_acl : AclManager → String → AclManager
delete_acl am topic = tell (record am { acls = delete topic am.acls }) topic acl_deleted

abbrev allows_all : AclPolicy → Bool
allows_all policy_allow_all = true
allows_all policy_deny_all = false

-- `CanSubscribe` and `CanPublish` of the manager.
unfoldable pub may_use : AclManager → String → String → Bool
unfolding can_subscribe
may_use am topic p = elim (lookup topic am.acls) [
  | none ↦ allows_all am.default_policy
  | some acl ↦ can_subscribe acl p
]

unfoldable pub allow_peer : AclManager → String → String → ℕ → Result Error AclManager
unfolding add_to_allow_list
allow_peer am topic p now = elim (lookup topic am.acls) [
  | none ↦ err topic_not_found
  | some acl ↦ ok (
      tell (record am { acls = insert topic (add_to_allow_list acl p now) am.acls }) topic
        (peer_allowed p))
]

unfoldable pub deny_peer : AclManager → String → String → ℕ → Result Error AclManager
unfolding add_to_deny_list
deny_peer am topic p now = elim (lookup topic am.acls) [
  | none ↦ err topic_not_found
  | some acl ↦ ok (
      tell (record am { acls = insert topic (add_to_deny_list acl p now) am.acls }) topic
        (peer_denied p))
]

pub record AclStats : Type 0 where
  pub total_topics : ℕ
  pub encrypted_topics : ℕ
  pub total_allow_list_entries : ℕ
  pub total_deny_list_entries : ℕ

abbrev pub sum_over : (TopicAcl → ℕ) → List TopicAcl → ℕ
sum_over f [] = 0
sum_over f (acl ∷ acls) = f acl + sum_over f acls

unfoldable pub stats : AclManager → AclStats
stats am = record {
  total_topics = length am.acls;
  encrypted_topics = sum_over (λ a. if a.encryption_enabled then 1 else 0) (values am.acls);
  total_allow_list_entries = sum_over (λ a. length a.allow_list) (values am.acls);
  total_deny_list_entries = sum_over (λ a. length a.deny_list) (values am.acls);
}
