-- ===== src/Lock/Service/Examples.antt =====
-- The calls of src/domain/lock/service.go at concrete inputs.
use agent_collab.Common.{◌+◌, [], ◌∷◌, pos}
use agent_collab.Common.Dict.{lookup, delete}
use agent_collab.Lock.Semantic.{SemanticLock, is_expired, default_ttl, renew}
use agent_collab.Lock.Store.{LockStore, live_at, get, remove, drop_lock, add_history, history_entry}
use agent_collab.Lock.Limiter.Coarse.{coarse}
use agent_collab.Lock.Negotiator.{LockNegotiator, new_lock_negotiator}
use agent_collab.Lock.Negotiator.Phases.{release_lock as release_phase}
use agent_collab.Lock.Service.{LockService, renew_by}

program : Unit {0}
unfolding lookup delete is_expired live_at get remove drop_lock add_history history_entry
    new_lock_negotiator release_phase renew_by renew
program = tt

abbrev held : SemanticLock
held = record {
  id = "lock-a";
  target = record {
    kind = "file";
    file_path = "a.go";
    name = "main";
    start_line = pos 1;
    end_line = pos 9;
    ast_hash = "";
  };
  holder_id = "node";
  holder_name = "n";
  intention = "";
  fencing_token = 1;
  acquired_at = 0;
  expires_at = 500;
  renew_count = 2;
}

abbrev store : LockStore
store = record {
  heap = λ r. held;
  next = 1;
  locks = ("lock-a", 0) ∷ [];
  by_target = ("file:a.go:main:1-9", "lock-a") ∷ [];
  history = [];
  max_history = 100;
}

abbrev node : LockService
unfolding program
node = record {
  negotiator = new_lock_negotiator coarse store;
  node_id = "node";
  node_name = "n";
  fencing_counter = 1;
}

abbrev freed : LockNegotiator
unfolding program
freed = record (node.negotiator) {
  store = record (drop_lock store "lock-a" 0) { history = history_entry "released" held 60 ∷ [] };
}

abbrev renewed : SemanticLock
renewed = record held { expires_at = 60 + default_ttl; renew_count = 3 }
