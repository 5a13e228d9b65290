-- ===== src/Network/Acl/Secrecy.antt =====
-- The encryption of src/infrastructure/network/libp2p/topic_acl.go.
use agent_collab.Common.{
  ℕ, zero, suc, ◌≡◌, refl, inl, inr, false, ltb, Option, some, [], ◌∷◌, ◌++◌, length, take, drop,
  length-append, arith, ok, Option-cases,
}
use agent_collab.Network.Acl.{Bytes, TopicAcl, Gcm, key_in_use, nonce_size, encrypt, decrypt}

take-append : (n : ℕ) (xs ys : Bytes) → length xs ≡ n → take n (xs ++ ys) ≡ xs
take-append zero [] ys e = refl
take-append zero (x ∷ xs) ys e = absurd (omega arith)
take-append (suc n) [] ys e = absurd (omega arith)
take-append (suc n) (x ∷ xs) ys e = ground (arith, take-append n xs ys (omega arith))

drop-append : (n : ℕ) (xs ys : Bytes) → length xs ≡ n → drop n (xs ++ ys) ≡ ys
drop-append zero [] ys e = refl
drop-append zero (x ∷ xs) ys e = absurd (omega arith)
drop-append (suc n) [] ys e = absurd (omega arith)
drop-append (suc n) (x ∷ xs) ys e = drop-append n xs ys (omega arith)

-- Where the cipher takes keys of 32 bytes and opens what it sealed, and the key in use, if any, has 32
-- bytes, a message is encrypted with a nonce of the right size and decrypted to itself, with or
-- without encryption.
pub decrypt-encrypt :
    (new_gcm : Bytes → Option Gcm)
    → ((key : Bytes)
        → length key ≡ 32
        → (g : Gcm) × (new_gcm key ≡ some g)
          × ((nonce text : Bytes) → g.open_with nonce (g.seal nonce text) ≡ some text))
    → (acl : TopicAcl) (nonce plaintext : Bytes)
    → ((key : Bytes) → key_in_use acl ≡ some key → length key ≡ 32)
    → length nonce ≡ nonce_size
    → (c : Bytes) × (encrypt new_gcm acl (some nonce) plaintext ≡ ok c)
      × (decrypt new_gcm acl c ≡ ok plaintext)
unfolding encrypt decrypt
decrypt-encrypt new_gcm accepts acl nonce plaintext sized size =
    elim (Option-cases (key_in_use acl)) [
      | inl n ↦ (plaintext, rw (n, encrypt) refl, rw (n, decrypt) refl)
      | inr (key, n) ↦
          let (g, made, opens) = accepts key (sized key n) in
          let text = g.seal nonce plaintext in
          let long : ltb (length (nonce ++ text)) nonce_size ≡ false =
            ground (arith, length-append nonce text, size) in
          (
            nonce ++ text,
            rw (n, encrypt) (rw made refl),
            rw (n, decrypt)
                (rw made (
                  rw long (
                    rw
                      (
                        take-append nonce_size nonce text size,
                        drop-append nonce_size nonce text size,
                      )
                      (rw (opens nonce plaintext) refl)))),
          )
    ]
