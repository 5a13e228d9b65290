-- ===== src/Network/Content.antt =====
-- src/infrastructure/network/libp2p/content_store.go: contents under the hash of their bytes. The hash
-- (SHA-256) is a parameter. The texts of errors and the ratio of `Stats`, a float64, are left out.
pub mod Wrapping
mod Examples
use agent_collab.Common.{
  ℕ, ◌+◌, ◌-◌, ◌*◌, String, Bool, true, false, not, if◌then◌else◌, ltb, leb, ◌==◌, str_eq, Option,
  none, some, List, [], ◌∷◌, length, Result, ok, err,
}
use agent_collab.Common.Dict.{Dict, lookup, insert, delete, has, keys}

pub data Error : Type 0 where
  content_not_found missing_reference : Error

abbrev pub Bytes : Type 0
Bytes = List ℕ

pub record ContentMetadata : Type 0 where
  pub size : ℕ
  pub mime_type : String
  pub created_at : ℕ
  pub last_access : ℕ
  pub access_count : ℕ

pub record ContentReference : Type 0 where
  pub cid : String
  pub size : ℕ
  pub mime_type : String
  pub created_at : ℕ
  pub created_by : String

pub record ContentStoreConfig : Type 0 where
  pub max_size : ℕ
  pub ttl : ℕ

abbrev pub default_content_store_config : ContentStoreConfig
default_content_store_config = record { max_size = 100 * 1024 * 1024; ttl = 3600 * 1_000_000_000 }

pub record ContentStore : Type 0 where
  pub content : Dict Bytes
  pub metadata : Dict ContentMetadata
  pub max_size : ℕ
  pub cur_size : ℕ
  pub ttl : ℕ

unfoldable pub new_content_store : ContentStoreConfig → ContentStore
new_content_store c = record {
  content = [];
  metadata = [];
  max_size = if c.max_size == 0 then default_content_store_config.max_size else c.max_size;
  cur_size = 0;
  ttl = if c.ttl == 0 then default_content_store_config.ttl else c.ttl;
}

-- The metadata of a content after a read.
unfoldable pub touch : String → ℕ → ContentStore → ContentStore
touch cid now cs = elim (lookup cid cs.metadata) [
  | none ↦ cs
  | some m ↦ record cs {
    metadata =
        insert cid (record m { last_access = now; access_count = m.access_count + 1 }) cs.metadata;
  }
]

-- The contents in the order of their last access. Which of two comes first that were read at one instant
-- depends on the range over the map in the source, too.
unfoldable pub insert_by_access :
    String × ContentMetadata → Dict ContentMetadata → Dict ContentMetadata
insert_by_access item [] = item ∷ []
insert_by_access item (x ∷ items) =
    let rest = insert_by_access item items in
    if ltb x.1.last_access item.1.last_access then x ∷ rest else item ∷ x ∷ items

unfoldable pub sort_by_access : Dict ContentMetadata → Dict ContentMetadata
unfolding insert_by_access
sort_by_access [] = []
sort_by_access (item ∷ items) = insert_by_access item (sort_by_access items)

-- The loop that evicts, with what was freed so far, and its last line.
unfoldable pub evict_items : Dict ContentMetadata → (needed freed : ℕ) → ContentStore → ContentStore
evict_items [] needed freed cs = record cs { cur_size = cs.cur_size - freed }
evict_items ((cid, m) ∷ items) needed freed cs =
    let rest =
      evict_items items needed (freed + m.size)
        (record cs { content = delete cid cs.content; metadata = delete cid cs.metadata }) in
    if leb (cs.cur_size + needed) (cs.max_size + freed)
    then record cs { cur_size = cs.cur_size - freed }
    else rest

unfoldable pub evict : ℕ → ContentStore → ContentStore
unfolding evict_items sort_by_access
evict needed cs = evict_items (sort_by_access cs.metadata) needed 0 cs

unfoldable pub get : ContentStore → String → ℕ → Result Error (ContentStore × Bytes)
unfolding touch
get cs cid now = elim (lookup cid cs.content) [
  | none ↦ err content_not_found
  | some bytes ↦ ok (touch cid now cs, bytes)
]

unfoldable pub has_content : ContentStore → String → Bool
has_content cs cid = has cid cs.content

unfoldable pub get_metadata : ContentStore → String → Option ContentMetadata
get_metadata cs cid = lookup cid cs.metadata

unfoldable pub delete_content : ContentStore → String → ContentStore
delete_content cs cid = elim (lookup cid cs.content) [
  | none ↦ cs
  | some bytes ↦ record cs {
    content = delete cid cs.content;
    metadata = delete cid cs.metadata;
    cur_size = cs.cur_size - length bytes;
  }
]

-- The body of the range loop of `cleanup`.
unfoldable pub cleanup_each : Dict ContentMetadata → ℕ → ContentStore → ContentStore
cleanup_each [] now cs = cs
cleanup_each ((cid, m) ∷ items) now cs =
    let swept : ContentStore = record cs {
      content = delete cid cs.content;
      metadata = delete cid cs.metadata;
      cur_size = elim (lookup cid cs.content) [
        | none ↦ cs.cur_size
        | some bytes ↦ cs.cur_size - length bytes
      ];
    } in
    cleanup_each items now (if ltb cs.ttl (now - m.last_access) then swept else cs)

unfoldable pub cleanup : ContentStore → ℕ → ContentStore
unfolding cleanup_each
cleanup cs now = cleanup_each cs.metadata now cs

unfoldable pub create_reference : ContentStore → String → String → Option ContentReference
create_reference cs cid created_by = elim (lookup cid cs.metadata) [
  | none ↦ none
  | some m ↦ some (record {
    cid = cid;
    size = m.size;
    mime_type = m.mime_type;
    created_at = m.created_at;
    created_by = created_by;
  })
]

pub record ContentAddressedMessage : Type 0 where
  pub kind : String
  pub reference : Option ContentReference
  pub inline : Bytes

abbrev pub content_threshold : ℕ
content_threshold = 4 * 1024

unfoldable pub unwrap_content :
    ContentStore → ContentAddressedMessage → ℕ → Result Error (ContentStore × Bytes)
unfolding get
unwrap_content cs msg now =
    if str_eq msg.kind "inline"
    then ok (cs, msg.inline)
    else elim (msg.reference) [ none ↦ err missing_reference | some r ↦ get cs r.cid now ]

module _ (compute_cid : Bytes → String) where
  -- A content that is new makes room for itself.
  unfoldable pub put : ContentStore → Bytes → ℕ → ContentStore × String
  unfolding touch evict
  put cs bytes now =
      let cid = compute_cid bytes in
      let made =
        if ltb cs.max_size (cs.cur_size + length bytes) then evict (length bytes) cs else cs in
      let m : ContentMetadata = record {
        size = length bytes;
        mime_type = "";
        created_at = now;
        last_access = now;
        access_count = 1;
      } in
      elim (lookup cid cs.content) [
        | some _ ↦ (touch cid now cs, cid)
        | none ↦ (
          record made {
            content = insert cid bytes made.content;
            metadata = insert cid m made.metadata;
            cur_size = made.cur_size + length bytes;
          },
          cid,
        )
      ]

  unfoldable pub put_with_mime_type : ContentStore → Bytes → String → ℕ → ContentStore × String
  unfolding put
  put_with_mime_type cs bytes mime_type now =
      let (cs', cid) = put cs bytes now in
      elim (lookup cid cs'.metadata) [
        | none ↦ (cs', cid)
        | some m ↦ (
          record cs' { metadata = insert cid (record m { mime_type = mime_type }) cs'.metadata },
          cid,
        )
      ]

  unfoldable pub validate_cid : String → Bytes → Bool
  validate_cid cid bytes = str_eq (compute_cid bytes) cid

  unfoldable pub wrap_content :
      ContentStore → Bytes → String → ℕ → ContentStore × ContentAddressedMessage
  unfolding put create_reference
  wrap_content cs bytes created_by now =
      if leb (length bytes) content_threshold
      then (cs, record { kind = "inline"; reference = none; inline = bytes })
      else (let (cs', cid) = put cs bytes now in
          (
            cs',
            record {
              kind = "reference";
              reference = create_reference cs' cid created_by;
              inline = [];
            },
          ))
