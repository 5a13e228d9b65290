-- ===== src/Events/Log/Index.antt =====
-- The indexes of src/domain/event/eventlog.go: what an entry and a removal do to the list of a key.
use agent_collab.Common.{
  ℕ, String, ◌≡◌, refl, Bool, true, false, ◌||◌, ◌==◌, length, if◌then◌else◌, str_eq, eq_iff,
  eq_refl, List, [], ◌∷◌, ◌++◌, keep, arith,
}
use agent_collab.Common.Dict.{Dict, lookup-insert, lookup-delete}
use agent_collab.Events.{Event}
use agent_collab.Events.Log.{
  listed, push, remove_first, has_event, remove_from_type_index, remove_from_index,
}

pub listed-push :
    (k j : String) (r : ℕ) (m : Dict (List ℕ))
    → listed j (push k r m) ≡ (if str_eq k j then listed k m ++ r ∷ [] else listed j m)
unfolding listed push
listed-push k j r m = ground (arith, lookup-insert k j (listed k m ++ r ∷ []) m)

remove_first-absent :
    (heap : ℕ → Event) (id : String) (rs : List ℕ)
    → has_event heap id rs ≡ false
    → remove_first heap id rs ≡ rs
unfolding remove_first has_event
remove_first-absent heap id [] e = refl
remove_first-absent heap id (r ∷ rs) e = ground (arith, remove_first-absent heap id rs)

pub listed-remove_from_type_index :
    (heap : ℕ → Event) (e : Event) (k : String) (m : Dict (List ℕ))
    → listed k (remove_from_type_index heap e m)
      ≡ (if str_eq e.kind k then remove_first heap e.id (listed k m) else listed k m)
unfolding remove_from_type_index listed
listed-remove_from_type_index heap e k m = ground (
  arith,
  eq_iff e.kind k,
  remove_first-absent heap e.id (listed k m),
  lookup-insert e.kind k (remove_first heap e.id (listed e.kind m)) m,
)

empty_of_length : (xs : List ℕ) → (length xs == 0) ≡ true → xs ≡ []
empty_of_length [] e = refl
empty_of_length (x ∷ xs) e = absurd (ground (arith, e))

pub listed-remove_from_index :
    (heap : ℕ → Event) (key id k : String) (m : Dict (List ℕ))
    → listed k (remove_from_index heap key id m)
      ≡ (if str_eq key k then remove_first heap id (listed k m) else listed k m)
unfolding remove_from_index listed
listed-remove_from_index heap key id k m = ground (
  arith,
  eq_iff key k,
  remove_first-absent heap id (listed k m),
  lookup-insert key k (remove_first heap id (listed key m)) m,
  lookup-delete key k m,
  empty_of_length (remove_first heap id (listed k m)),
)

-- The tests of an event, in a list that an event is taken out of.
pub has_event-append :
    (heap : ℕ → Event) (id : String) (xs ys : List ℕ)
    → has_event heap id (xs ++ ys) ≡ (has_event heap id xs || has_event heap id ys)
unfolding has_event
has_event-append heap id [] ys = refl
has_event-append heap id (x ∷ xs) ys = ground (arith, has_event-append heap id xs ys)

pub remove_first-middle :
    (heap : ℕ → Event) (test : ℕ → Bool) (e : ℕ) (xs ys : List ℕ)
    → test e ≡ true
    → has_event heap (heap e).id xs ≡ false
    → remove_first heap (heap e).id (keep test (xs ++ e ∷ ys)) ≡ keep test (xs ++ ys)
unfolding remove_first has_event
remove_first-middle heap test e [] ys y h = ground (arith, y, eq_refl (heap e).id)
remove_first-middle heap test e (x ∷ xs) ys y h =
    ground (arith, y, h, remove_first-middle heap test e xs ys y)

pub keep-middle :
    (test : ℕ → Bool) (e : ℕ) (xs ys : List ℕ)
    → test e ≡ false
    → keep test (xs ++ e ∷ ys) ≡ keep test (xs ++ ys)
keep-middle test e [] ys n = ground (arith, n)
keep-middle test e (x ∷ xs) ys n = ground (arith, keep-middle test e xs ys n)

pub keep-append :
    (test : ℕ → Bool) (e : ℕ) (xs : List ℕ)
    → keep test (xs ++ e ∷ []) ≡ (if test e then keep test xs ++ e ∷ [] else keep test xs)
keep-append test e [] = refl
keep-append test e (x ∷ xs) = ground (arith, keep-append test e xs)

pub keep-cong : (p q : ℕ → Bool) (xs : List ℕ) → ((r : ℕ) → p r ≡ q r) → keep p xs ≡ keep q xs
keep-cong p q [] e = refl
keep-cong p q (x ∷ xs) e = ground (arith, e x, keep-cong p q xs e)
