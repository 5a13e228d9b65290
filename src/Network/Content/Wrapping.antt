-- ===== src/Network/Content/Wrapping.antt =====
-- Large contents by reference (src/infrastructure/network/libp2p/content_store.go).
use agent_collab.Common.{
  ℕ, String, ◌≡◌, refl, sym, ◌∙◌, subst, ap, inl, inr, if◌then◌else◌, leb, ltb, ◌+◌, eq_refl, some,
  [], length, ok, Bool-cases, Option-cases,
}
use agent_collab.Common.Dict.{lookup, lookup-insert}
use agent_collab.Network.Content.{
  Bytes, ContentMetadata, ContentStore, ContentAddressedMessage, ContentReference,
  content_threshold, touch, evict, get, put, create_reference, unwrap_content, wrap_content,
}

-- Each stored content has its metadata.
abbrev pub IsDescribed : ContentStore → Type 0
IsDescribed cs =
    (cid : String) (bytes : Bytes)
    → lookup cid cs.content ≡ some bytes
    → (m : ContentMetadata) × (lookup cid cs.metadata ≡ some m)

touch-found :
    (cs : ContentStore) (cid : String) (now : ℕ) (m : ContentMetadata)
    → lookup cid cs.metadata ≡ some m
    → ((touch cid now cs).content ≡ cs.content)
      × ((n : ContentMetadata) × (lookup cid (touch cid now cs).metadata ≡ some n))
unfolding touch
touch-found cs cid now m e =
    let n : ContentMetadata = record m { last_access = now; access_count = m.access_count + 1 } in
    rw (e, touch) (refl, (n, rw (lookup-insert cid cid n cs.metadata, eq_refl cid) refl))

module _ (compute_cid : Bytes → String) where
  -- What a store has after a content was put into it.
  put-found :
      (cs : ContentStore) (bytes : Bytes) (now : ℕ)
      → IsDescribed cs
      → ((old : Bytes) → lookup (compute_cid bytes) cs.content ≡ some old → old ≡ bytes)
      → let (cs', cid) = put compute_cid cs bytes now in
        (lookup cid cs'.content ≡ some bytes)
        × ((m : ContentMetadata) × (lookup cid cs'.metadata ≡ some m))
  unfolding put
  put-found cs bytes now described apart =
      let cid = compute_cid bytes in
      elim (Option-cases (lookup cid cs.content)) [
        | inr (old, e) ↦
            let (m, f) = described cid old e in
            let (same, (n, g)) = touch-found cs cid now m f in
            rw (e, put) (rw same (e ∙ ap some (apart old e)), (n, g))
        | inl e ↦
            let made =
              if ltb cs.max_size (cs.cur_size + length bytes)
              then evict (length bytes) cs
              else cs in
            let m : ContentMetadata = record {
              size = length bytes;
              mime_type = "";
              created_at = now;
              last_access = now;
              access_count = 1;
            } in
            rw (e, put)
              (
                rw (lookup-insert cid cid bytes made.content, eq_refl cid) refl,
                (m, rw (lookup-insert cid cid m made.metadata, eq_refl cid) refl),
              )
      ]

  -- What is wrapped is unwrapped to itself, also when it is stored and only referred to, as long as no
  -- other stored content has the same hash.
  pub unwrap_content-wrap_content :
      (cs : ContentStore) (bytes : Bytes) (created_by : String) (now later : ℕ)
      → IsDescribed cs
      → ((old : Bytes) → lookup (compute_cid bytes) cs.content ≡ some old → old ≡ bytes)
      → let (cs', msg) = wrap_content compute_cid cs bytes created_by now in
        (cs'' : ContentStore) × (unwrap_content cs' msg later ≡ ok (cs'', bytes))
  unfolding wrap_content unwrap_content get create_reference
  unwrap_content-wrap_content cs bytes created_by now later described apart =
      elim (Bool-cases (leb (length bytes) content_threshold)) [
        | inl y ↦ rw (y, wrap_content) (cs, refl)
        | inr n ↦
            let (cs', cid) = put compute_cid cs bytes now in
            let (stored, (m, found)) = put-found cs bytes now described apart in
            let r : ContentReference = record {
              cid = cid;
              size = m.size;
              mime_type = m.mime_type;
              created_at = m.created_at;
              created_by = created_by;
            } in
            let msg : ContentAddressedMessage = record {
              kind = "reference";
              reference = create_reference cs' cid created_by;
              inline = [];
            } in
            let wrapped : wrap_content compute_cid cs bytes created_by now ≡ (cs', msg) =
              rw (n, wrap_content) refl in
            let referred : create_reference cs' cid created_by ≡ some r =
              rw (found, create_reference) refl in
            let fetched : get cs' cid later ≡ ok (touch cid later cs', bytes) =
              rw (stored, get) refl in
            subst
              (λ (w : ContentStore × ContentAddressedMessage).
                (cs'' : ContentStore) × (unwrap_content w.0 w.1 later ≡ ok (cs'', bytes)))
              (sym wrapped) (touch cid later cs', rw (referred, unwrap_content) fetched)
      ]
