-- ===== src/Events/Log/Writes.antt =====
-- Writes through the pointers of src/domain/event/eventlog.go, which change no index.
use agent_collab.Common.{
  ℕ, String, ◌≡◌, refl, ◌∙◌, ◌==◌, if◌then◌else◌, str_eq, List, [], ◌∷◌, arith,
}
use agent_collab.Events.{Event, mark_completed, archived}
use agent_collab.Events.Log.{EventLog, has_event, archive_all, complete_all}
use agent_collab.Events.Log.Index.{keep-cong}
use agent_collab.Events.Log.Views.{search, Unique, IsViewOf}

-- Events that a write through pointers leaves alike to the indexes.
abbrev pub Alike : (ℕ → Event) → (ℕ → Event) → Type 0
Alike heap heap' =
    (r : ℕ)
    → ((heap' r).id ≡ (heap r).id)
      × ((heap' r).kind ≡ (heap r).kind)
      × ((heap' r).source_id ≡ (heap r).source_id)

has_event-Alike :
    (heap heap' : ℕ → Event) (id : String) (rs : List ℕ)
    → Alike heap heap'
    → has_event heap' id rs ≡ has_event heap id rs
unfolding has_event
has_event-Alike heap heap' id [] s = refl
has_event-Alike heap heap' id (r ∷ rs) s = rw ((s r).0, has_event-Alike heap heap' id rs s) refl

search-Alike :
    (heap heap' : ℕ → Event) (id : String) (rs : List ℕ)
    → Alike heap heap'
    → search heap' id rs ≡ search heap id rs
unfolding search
search-Alike heap heap' id [] s = refl
search-Alike heap heap' id (r ∷ rs) s = rw ((s r).0, search-Alike heap heap' id rs s) refl

Unique-Alike :
    (heap heap' : ℕ → Event) (rs : List ℕ) → Alike heap heap' → Unique heap rs → Unique heap' rs
Unique-Alike heap heap' [] s u = tt
Unique-Alike heap heap' (r ∷ rs) s (h, u) =
    (rw ((s r).0, has_event-Alike heap heap' (heap r).id rs s) h, Unique-Alike heap heap' rs s u)

pub heap-IsViewOf :
    (el el' : EventLog) (rs : List ℕ)
    → Alike el.heap el'.heap
    → el'.by_id ≡ el.by_id
    → el'.by_type ≡ el.by_type
    → el'.by_source ≡ el.by_source
    → IsViewOf rs el
    → IsViewOf rs el'
heap-IsViewOf el el' rs s i t o v = record {
  unique = Unique-Alike el.heap el'.heap rs s v.unique;
  ids = λ k. rw (i, search-Alike el.heap el'.heap k rs s) (v.ids k);
  kinds = λ k. rw t (
      v.kinds k
      ∙ keep-cong (λ (r : ℕ). str_eq (el.heap r).kind k) (λ (r : ℕ). str_eq (el'.heap r).kind k) rs
          (λ r. rw ((s r).1) refl));
  sources = λ k. rw o (
      v.sources k
      ∙ keep-cong (λ (r : ℕ). str_eq (el.heap r).source_id k)
          (λ (r : ℕ). str_eq (el'.heap r).source_id k) rs (λ r. rw ((s r).2) refl));
}

pub archive_all-Alike :
    (newest : String) (rs : List ℕ) (heap : ℕ → Event) → Alike heap (archive_all newest rs heap)
unfolding archive_all
archive_all-Alike newest [] heap q = (refl, refl, refl)
archive_all-Alike newest (r ∷ rs) heap q =
    let heap' : ℕ → Event = λ (p : ℕ).
      if p == r then record (heap r) { status = archived; superseded_by = newest } else heap p in
    ground (arith, archive_all-Alike newest rs heap' q)

pub complete_all-Alike : (rs : List ℕ) (heap : ℕ → Event) → Alike heap (complete_all rs heap)
unfolding complete_all mark_completed
complete_all-Alike [] heap q = (refl, refl, refl)
complete_all-Alike (r ∷ rs) heap q =
    let heap' : ℕ → Event = λ (p : ℕ). if p == r then mark_completed (heap r) else heap p in
    ground (arith, complete_all-Alike rs heap' q)
