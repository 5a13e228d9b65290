-- ===== src/Network/Acl/Examples.antt =====
-- Tests of src/infrastructure/network/libp2p/topic_acl.go, and its theorems at concrete inputs.
use agent_collab.Common.{
  length, ◌==◌, ◌++◌, if◌then◌else◌, ℕ, List, str_eq, eq_iff, arith, String, ◌≡◌, ◌≢◌, refl, true,
  false, Option, none, some, [], ◌∷◌, ok, err,
}
use agent_collab.Common.Dict.{lookup, insert}
use agent_collab.Network.Acl.{
  Bytes, TopicAcl, AclManager, policy_deny_all, acl_created, peer_denied, has_peer, add_peer,
  add_peers, remove_peer, new_topic_acl, create_acl, can_subscribe, add_to_deny_list,
  remove_from_allow_list, may_use, deny_peer, key_in_use, encrypt, decrypt, invalid_key,
  decryption_failed, Gcm, library_error, acl_error,
}
use agent_collab.Network.Acl.Denial
use agent_collab.Network.Acl.Denial.{AclCall, allows, pardons, deletes, AllLeave, after_calls}
use agent_collab.Network.Acl.Secrecy

program : Unit {0}
unfolding lookup insert has_peer add_peer add_peers remove_peer new_topic_acl create_acl
    can_subscribe add_to_deny_list remove_from_allow_list may_use deny_peer key_in_use encrypt
    decrypt
program = tt

abbrev acl : TopicAcl
acl = record {
  topic = "t";
  allow_list = "p" ∷ [];
  deny_list = [];
  encryption_enabled = false;
  encryption_key = none;
  created_at = 1;
  updated_at = 1;
  created_by = "p";
}

abbrev manager : AclManager
manager = record {
  acls = ("t", acl) ∷ [];
  default_policy = policy_deny_all;
  changes = ("t", acl_created) ∷ [];
}

made :
    create_acl
      (record { acls = []; default_policy = policy_deny_all; changes = [] })
      (record {
        topic = "t";
        allow_list = "p" ∷ "p" ∷ [];
        deny_list = [];
        encryption_enabled = false;
        encryption_key = 1 ∷ [];
        created_by = "p";
      })
      1
    ≡ ok manager
unfolding program
made = refl

short_key :
    new_topic_acl
      (record {
        topic = "t";
        allow_list = [];
        deny_list = [];
        encryption_enabled = true;
        encryption_key = 1 ∷ [];
        created_by = "p";
      })
      1
    ≡ err invalid_key
unfolding program
short_key = refl

abbrev denied : AclManager
denied = record {
  acls = ("t", record acl { deny_list = "p" ∷ []; updated_at = 2 }) ∷ [];
  default_policy = policy_deny_all;
  changes = ("t", acl_created) ∷ ("t", peer_denied "p") ∷ [];
}

abbrev denied_peer : String
denied_peer = "p"

-- The denied peer is put on the allow list, and another one is taken off the deny list.
abbrev later : List (ℕ × AclCall)
later = (3, allows "t" "p") ∷ (4, pardons "t" "q") ∷ (5, deletes "u") ∷ []

deny_peer-may_use_example :
    ((cs : List (ℕ × AclCall))
      → AllLeave "t" "p" cs
      → may_use (after_calls denied cs) "t" "p" ≡ false)
    × ((denied_peer ≢ "q") → may_use denied "t" "q" ≡ may_use manager "t" "q")
unfolding program
deny_peer-may_use_example = Denial.deny_peer-may_use manager denied "t" "p" "q" 2 refl

other_text : (a b : String) → str_eq a b ≡ false → a ≢ b
other_text a b n e = ground (arith, eq_iff a b, n, e)

still_denied : may_use (after_calls denied later) "t" "p" ≡ false
unfolding program
still_denied =
    (Denial.deny_peer-may_use manager denied "t" "p" "q" 2 refl).0 later
      (tt, ((λ _. other_text "q" "p" refl), (other_text "u" "t" refl, tt)))

-- A cipher for the tests: a byte in front of the text. It takes keys of 32 bytes.
gcm : Gcm
gcm = record {
  seal = λ nonce plaintext. 1 ∷ plaintext;
  open_with = λ nonce ciphertext. elim ciphertext [ [] ↦ none | _ ∷ plaintext ↦ some plaintext ];
}

new_gcm : Bytes → Option Gcm
new_gcm key = if length key == 32 then some gcm else none

accepts :
    (key : Bytes)
    → length key ≡ 32
    → (g : Gcm) × (new_gcm key ≡ some g)
      × ((nonce text : Bytes) → g.open_with nonce (g.seal nonce text) ≡ some text)
unfolding new_gcm gcm
accepts key e = (gcm, ground (arith, e), λ nonce text. refl)

abbrev drawn : Bytes
drawn = 1 ∷ 2 ∷ 3 ∷ 4 ∷ 5 ∷ 6 ∷ 7 ∷ 8 ∷ 9 ∷ 10 ∷ 11 ∷ 12 ∷ []

abbrev key : Bytes
key = drawn ++ (drawn ++ 1 ∷ 2 ∷ 3 ∷ 4 ∷ 5 ∷ 6 ∷ 7 ∷ 8 ∷ [])

abbrev secret : TopicAcl
secret = record acl { encryption_enabled = true; encryption_key = some key }

truncated : decrypt new_gcm secret (1 ∷ 2 ∷ []) ≡ err (acl_error decryption_failed)
unfolding program new_gcm gcm
truncated = refl

bad_key :
    encrypt new_gcm (record secret { encryption_key = some (1 ∷ []) }) (some drawn) []
    ≡ err library_error
unfolding program new_gcm gcm
bad_key = refl

decrypt-encrypt_example :
    (c : Bytes) × (encrypt new_gcm secret (some drawn) (9 ∷ 8 ∷ []) ≡ ok c)
    × (decrypt new_gcm secret c ≡ ok (9 ∷ 8 ∷ []))
unfolding program
decrypt-encrypt_example =
    Secrecy.decrypt-encrypt new_gcm accepts secret drawn (9 ∷ 8 ∷ []) (λ k e. key_size k e) refl
  where
    key_size : (k : Bytes) → key_in_use secret ≡ some k → length k ≡ 32
    key_size k e = ground (arith, e)
