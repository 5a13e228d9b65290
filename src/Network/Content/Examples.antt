-- ===== src/Network/Content/Examples.antt =====
-- Tests of src/infrastructure/network/libp2p/content_store.go, and its theorem at a concrete input.
use agent_collab.Common.{ℕ, zero, suc, String, ◌≡◌, refl, [], ◌∷◌, ok, err, arith}
use agent_collab.Common.Dict.{lookup, insert, delete, has, keys}
use agent_collab.Network.Content.{
  Bytes, ContentStore, content_not_found, new_content_store, touch, insert_by_access,
  sort_by_access, evict_items, evict, get, has_content, delete_content, cleanup_each, cleanup,
  create_reference, unwrap_content, put, wrap_content,
}
use agent_collab.Network.Content.Wrapping

program : Unit {0}
unfolding lookup insert delete has new_content_store touch insert_by_access sort_by_access
    evict_items evict get has_content delete_content cleanup_each cleanup create_reference
    unwrap_content put wrap_content
program = tt

-- For the tests, contents of one length have one hash.
compute_cid : Bytes → String
compute_cid [] = "c0"
compute_cid (x ∷ []) = "c1"
compute_cid (x ∷ y ∷ []) = "c2"
compute_cid (x ∷ y ∷ z ∷ rest) = "c3"

-- Room for four bytes.
abbrev empty : ContentStore
unfolding program
empty = new_content_store (record { max_size = 4; ttl = 10 })

abbrev used : ContentStore
unfolding program compute_cid
used =
    (put compute_cid (put compute_cid (put compute_cid empty (1 ∷ []) 1).0 (1 ∷ 2 ∷ []) 2).0
      (1 ∷ 2 ∷ 3 ∷ []) 3).0

-- The third content evicts the first and the second.
evicted : (keys used.content ≡ "c3" ∷ []) × (used.cur_size ≡ 3)
unfolding program compute_cid
evicted = (refl, refl)

-- A content that is larger than the limit is stored nevertheless.
too_large : (put compute_cid empty (1 ∷ 2 ∷ 3 ∷ 4 ∷ 5 ∷ []) 1).0.cur_size ≡ 5
unfolding program compute_cid
too_large = refl

expired : (cleanup used 14).cur_size ≡ 0
unfolding program compute_cid
expired = refl

deleted : get (delete_content used "c3") "c3" 4 ≡ err content_not_found
unfolding program compute_cid
deleted = refl

repeat : ℕ → Bytes
repeat zero = []
repeat (suc n) = n ∷ repeat n

unwrap_content-wrap_content_example :
    (cs : ContentStore) × (unwrap_content
        (wrap_content compute_cid empty (repeat 5000) "ann" 1).0
        (wrap_content compute_cid empty (repeat 5000) "ann" 1).1
        2
      ≡ ok (cs, repeat 5000))
unfolding program
unwrap_content-wrap_content_example =
    Wrapping.unwrap_content-wrap_content compute_cid empty (repeat 5000) "ann" 1 2
      (λ cid bytes e. absurd (ground (arith, e))) (λ old e. absurd (ground (arith, e)))
