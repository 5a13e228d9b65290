-- ===== src/Sync/Delta.antt =====
-- src/domain/ctxsync/delta.go: deltas and the bounded log of them. An identifier is a hash of the
-- source and the time, and is an argument here.
pub mod Log
pub mod Retention
use agent_collab.Common.{
  ℕ, ◌+◌, ◌-◌, String, Bool, true, false, ◌||◌, if◌then◌else◌, ltb, str_eq, Option, none, some,
  List, [], ◌∷◌, ◌++◌, length, drop, keep, ℤ, pos, negsuc, ◌==◌,
}
use agent_collab.Common.Dict.{Dict, lookup, insert, delete, has}
use agent_collab.Sync.Clock.{VectorClock, happens_after, is_concurrent}

-- `ast.FileDiff` without its list of symbols, which this package only carries.
pub record FileDiff : Type 0 where
  pub file_path : String
  pub language : String
  pub old_hash : String
  pub new_hash : String
  pub added_count : ℕ
  pub removed_count : ℕ
  pub modified_count : ℕ

-- Without the custom data, which no operation makes or reads.
pub record DeltaPayload : Type 0 where
  pub file_path : String
  pub file_diff : Option FileDiff
  pub file_hash : String
  pub lock_id : String
  pub target_desc : String
  pub intention : String
  pub agent_id : String
  pub agent_state : String

abbrev pub empty_payload : DeltaPayload
empty_payload = record {
  file_path = "";
  file_diff = none;
  file_hash = "";
  lock_id = "";
  target_desc = "";
  intention = "";
  agent_id = "";
  agent_state = "";
}

-- `kind` is the source's `Type`, an open set of strings.
pub record Delta : Type 0 where
  pub id : String
  pub kind : String
  pub source_id : String
  pub source_name : String
  pub vector_clock : VectorClock
  pub timestamp : ℕ
  pub payload : DeltaPayload

unfoldable pub new_delta :
    String → String → String → VectorClock → (id : String) → (now : ℕ) → Delta
new_delta kind source_id source_name vc id now = record {
  id = id;
  kind = kind;
  source_id = source_id;
  source_name = source_name;
  vector_clock = vc;
  timestamp = now;
  payload = empty_payload;
}

unfoldable pub new_file_change_delta :
    String → String → VectorClock → String → Option FileDiff → (id : String) → (now : ℕ) → Delta
unfolding new_delta
new_file_change_delta source_id source_name vc path diff id now =
    record (new_delta "file_change" source_id source_name vc id now) {
      payload = record empty_payload {
        file_path = path;
        file_diff = diff;
        file_hash = elim diff [ none ↦ "" | some d ↦ d.new_hash ];
      };
    }

unfoldable pub new_lock_acquired_delta :
    String → String → VectorClock → String → String → String → (id : String) → (now : ℕ) → Delta
unfolding new_delta
new_lock_acquired_delta source_id source_name vc lock_id target_desc intention id now =
    record (new_delta "lock_acquired" source_id source_name vc id now) {
      payload = record empty_payload {
        lock_id = lock_id;
        target_desc = target_desc;
        intention = intention;
      };
    }

unfoldable pub new_lock_released_delta :
    String → String → VectorClock → String → (id : String) → (now : ℕ) → Delta
unfolding new_delta
new_lock_released_delta source_id source_name vc lock_id id now =
    record (new_delta "lock_released" source_id source_name vc id now) {
      payload = record empty_payload { lock_id = lock_id };
    }

unfoldable pub new_agent_status_delta :
    String → String → VectorClock → String → String → (id : String) → (now : ℕ) → Delta
unfolding new_delta
new_agent_status_delta source_id source_name vc agent_id state id now =
    record (new_delta "agent_status" source_id source_name vc id now) {
      payload = record empty_payload { agent_id = agent_id; agent_state = state };
    }

pub record DeltaLog : Type 0 where
  pub deltas : List Delta
  pub max_size : ℕ
  pub by_id : Dict Delta
  pub by_source : Dict (List Delta)

unfoldable pub new_delta_log : ℤ → DeltaLog
new_delta_log max_size = record {
  deltas = [];
  max_size = elim max_size [ pos n ↦ if n == 0 then 1000 else n | negsuc n ↦ 1000 ];
  by_id = [];
  by_source = [];
}

-- A missing source reads as the nil slice.
unfoldable pub get_by_source : DeltaLog → String → List Delta
get_by_source dl source = elim (lookup source dl.by_source) [ none ↦ [] | some ds ↦ ds ]

unfoldable pub get : DeltaLog → String → Option Delta
get dl id = lookup id dl.by_id

-- The loop of `Append` that takes the first delta with an identifier out of a slice.
unfoldable pub without_first : String → List Delta → List Delta
without_first id [] = []
without_first id (d ∷ ds) =
    let rest = without_first id ds in if str_eq d.id id then ds else d ∷ rest

-- An empty slice leaves the index.
unfoldable pub set_source : String → List Delta → Dict (List Delta) → Dict (List Delta)
set_source source [] index = delete source index
set_source source (d ∷ ds) index = insert source (d ∷ ds) index

-- The size limit of `Append`: the oldest delta leaves the log and both indexes.
unfoldable pub evict_oldest : DeltaLog → List Delta → DeltaLog
unfolding without_first set_source
evict_oldest dl [] = dl
evict_oldest dl (oldest ∷ rest) = record dl {
  deltas = rest;
  by_id = delete oldest.id dl.by_id;
  by_source = elim (lookup oldest.source_id dl.by_source) [
    | none ↦ dl.by_source
    | some ds ↦ set_source oldest.source_id (without_first oldest.id ds) dl.by_source
  ];
}

unfoldable pub append : Delta → DeltaLog → DeltaLog
unfolding get get_by_source evict_oldest
append delta dl = elim (get dl delta.id) [
  | some _ ↦ dl
  | none ↦
      let grown = record dl {
        deltas = dl.deltas ++ delta ∷ [];
        by_id = insert delta.id delta dl.by_id;
        by_source =
            insert delta.source_id (get_by_source dl delta.source_id ++ delta ∷ []) dl.by_source;
      } in
      if ltb dl.max_size (length grown.deltas) then evict_oldest grown grown.deltas else grown
]

unfoldable pub get_since : DeltaLog → VectorClock → List Delta
get_since dl vc =
    keep (λ (d : Delta). happens_after d.vector_clock vc || is_concurrent d.vector_clock vc)
      dl.deltas

-- A count out of range stands for the whole log.
unfoldable pub get_recent : DeltaLog → ℤ → List Delta
get_recent dl (negsuc n) = dl.deltas
get_recent dl (pos n) =
    if (n == 0) || ltb (length dl.deltas) n
    then dl.deltas
    else drop (length dl.deltas - n) dl.deltas

unfoldable pub size : DeltaLog → ℕ
size dl = length dl.deltas

unfoldable pub clear : DeltaLog → DeltaLog
clear dl = record dl { deltas = []; by_id = []; by_source = [] }
