-- ===== src/Lock/Store/History.antt =====
-- The bounded history of src/domain/lock/store.go.
use agent_collab.Common.{
  ℕ, zero, suc, ◌+◌, ◌-◌, ◌≤◌, String, ◌≡◌, refl, ap, sym, ◌∙◌, inl, inr, List, [], ◌∷◌, ◌++◌,
  reverse, take, length, length-append, length-drop, drop, ok, arith, ℤ, pos, negsuc, if◌then◌else◌,
  Option-cases, subst,
}
use mathlib.Core.List.{reverse-cons}
use agent_collab.Common.Dict.{lookup}
use agent_collab.Lock.Semantic.{SemanticLock, is_expired}
use agent_collab.Lock.Store.Laws.{cleanup_entry-heap}
use agent_collab.Lock.Store.{
  LockStore, cleanup_entry, cleanup_entries, cleanup_expired, add, remove, history_limit,
  get_history, history_entry,
}

-- A successful `add` keeps a history that is within its limit within it.
pub add-history :
    (s : LockStore) (r now : ℕ) (s' : LockStore)
    → length s.history ≤ s.max_history
    → add s r now ≡ ok s'
    → length s'.history ≤ s'.max_history
unfolding add
add-history s r now s' h added =
    let e = history_entry "acquired" (s.heap r) now in
    ground (arith, length-append s.history (e ∷ []), length-drop 1 (s.history ++ e ∷ []))

-- A successful `remove` keeps a history that is within its limit within it.
pub remove-history :
    (s : LockStore) (id : String) (now : ℕ) (s' : LockStore)
    → length s.history ≤ s.max_history
    → remove s id now ≡ ok s'
    → length s'.history ≤ s'.max_history
unfolding remove
remove-history s id now s' h removed = elim (Option-cases (lookup id s.locks)) [
  | inl e ↦ absurd (ground arith)
  | inr (r, e) ↦
      let x = history_entry "released" (s.heap r) now in
      ground (arith, length-append s.history (x ∷ []), length-drop 1 (s.history ++ x ∷ []))
]

-- How many locks of a list of bindings have run out.
pub run_out : (ℕ → SemanticLock) → ℕ → List (String × ℕ) → ℕ
run_out heap now [] = 0
run_out heap now ((i, r) ∷ es) = (if is_expired (heap r) now then 1 else 0) + run_out heap now es

cleanup_entry-history :
    (now : ℕ) (s : LockStore) (i : String) (r : ℕ)
    → length (cleanup_entry now s (i, r)).history
      ≡ length s.history + (if is_expired (s.heap r) now then 1 else 0)
unfolding cleanup_entry
cleanup_entry-history now s i r =
    ground (arith, length-append s.history (history_entry "expired" (s.heap r) now ∷ []))

cleanup_entries-history :
    (now : ℕ) (es : List (String × ℕ)) (s : LockStore)
    → length (cleanup_entries now es s).history ≡ length s.history + run_out s.heap now es
unfolding cleanup_entries run_out
cleanup_entries-history now [] s = omega arith
cleanup_entries-history now ((i, r) ∷ es) s =
    let s' = cleanup_entry now s (i, r) in
    let rest =
      subst (λ k. length (cleanup_entries now es s').history ≡ length s'.history + run_out k now es)
        (cleanup_entry-heap now s (i, r)) (cleanup_entries-history now es s') in
    omega (arith, rest, cleanup_entry-history now s i r)

-- The sweep does not heed the limit: the history grows by an entry for each lock that has run out.
pub cleanup_expired-history :
    (s : LockStore) (now : ℕ)
    → length (cleanup_expired s now).history ≡ length s.history + run_out s.heap now s.locks
unfolding cleanup_expired
cleanup_expired-history s now = cleanup_entries-history now s.locks s

length-reverse {ℓ} : {A : Type ℓ} (xs : List A) → length (reverse xs) ≡ length xs
length-reverse [] = refl
length-reverse (x ∷ xs) =
    omega
      (arith, ap length (reverse-cons x xs), length-append (reverse xs) (x ∷ []), length-reverse xs)

take-append {ℓ} :
    {A : Type ℓ} (n : ℕ) (xs ys : List A) → n ≤ length xs → take n (xs ++ ys) ≡ take n xs
take-append zero xs ys h = refl
take-append (suc n) [] ys h = absurd (omega arith)
take-append (suc n) (x ∷ xs) ys h = ap (◌∷◌ x) (take-append n xs ys (omega arith))

take_all {ℓ} : {A : Type ℓ} (n : ℕ) (xs : List A) → length xs ≤ n → take n xs ≡ xs
take_all zero [] h = refl
take_all zero (x ∷ xs) h = absurd (omega arith)
take_all (suc n) [] h = refl
take_all (suc n) (x ∷ xs) h = ap (◌∷◌ x) (take_all n xs (omega arith))

-- The last `n` entries, turned round, are the first `n` of the whole turned round.
reverse-drop {ℓ} :
    {A : Type ℓ} (k n : ℕ) (xs : List A)
    → k + n ≡ length xs
    → reverse (drop k xs) ≡ take n (reverse xs)
reverse-drop zero n xs h = sym (take_all n (reverse xs) (omega (arith, length-reverse xs)))
reverse-drop (suc k) n [] h = absurd (omega arith)
reverse-drop (suc k) n (x ∷ xs) h =
    reverse-drop k n xs (omega arith)
    ∙ sym (
        ap (take n) (reverse-cons x xs)
        ∙ take-append n (reverse xs) (x ∷ []) (omega (arith, length-reverse xs)))

limit_bound : (l : ℤ) (n : ℕ) → history_limit l n ≤ n
unfolding history_limit
limit_bound (pos l) n = ground arith
limit_bound (negsuc l) n = omega arith

-- A request gets the newest entries, the newest first: as many as it asks for, and all of them
-- if it asks for none, for a negative number or for more than there are.
pub get_history_newest :
    (s : LockStore) (limit : ℤ)
    → (get_history s limit ≡ take (history_limit limit (length s.history)) (reverse s.history))
      × (history_limit limit (length s.history) ≤ length s.history)
unfolding get_history
get_history_newest s limit =
    let n = history_limit limit (length s.history) in
    (
      reverse-drop (length s.history - n) n s.history
          (omega (arith, limit_bound limit (length s.history))),
      limit_bound limit (length s.history),
    )
