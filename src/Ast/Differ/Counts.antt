-- ===== src/Ast/Differ/Counts.antt =====
-- The counters of src/domain/ast/differ.go.
use agent_collab.Common.{
  ℕ, ◌+◌, ◌≡◌, refl, ◌∙◌, Bool, true, false, if◌then◌else◌, ◌==◌, str_eq, eq_iff, List, [], ◌∷◌,
  ◌++◌, length, keep, ok, arith, Bool-cases, Option-cases, inl, inr,
}
use agent_collab.Common.Dict.{Dict, lookup, has}
use agent_collab.Ast.Differ.{
  Symbol, ParseResult, SymbolDiff, FileDiff, symbol_map, diff_new, diff_removed, diff, added_diff,
  removed_diff, modified_diff, moved_diff, is_added, is_removed, is_modified, get_added_symbols,
  get_removed_symbols, get_modified_symbols,
}

keep-snoc :
    (p : SymbolDiff → Bool) (x : SymbolDiff) (xs : List SymbolDiff)
    → length (keep p (xs ++ x ∷ [])) ≡ length (keep p xs) + (if p x then 1 else 0)
keep-snoc p x [] = ground arith
keep-snoc p x (y ∷ ys) = ground (arith, keep-snoc p x ys)

-- The counters are the numbers of the differences of each type.
abbrev pub IsCounted : FileDiff → Type 0
IsCounted d =
    (d.added_count ≡ length (get_added_symbols d))
    × (d.removed_count ≡ length (get_removed_symbols d))
    × (d.modified_count ≡ length (get_modified_symbols d))

-- How many symbols of the second map the first does not have.
unfoldable pub missing : Dict Symbol → Dict Symbol → ℕ
missing m [] = 0
missing m ((key, s) ∷ rest) = if has key m then missing m rest else missing m rest + 1

abbrev no_diff : ParseResult → ParseResult → FileDiff
no_diff old new = record {
  file_path = new.file_path;
  language = new.language;
  old_hash = old.hash;
  new_hash = new.hash;
  diffs = [];
  added_count = 0;
  removed_count = 0;
  modified_count = 0;
}

-- A difference more.
counted :
    (d d' : FileDiff) (x : SymbolDiff)
    → IsCounted d
    → d'.diffs ≡ d.diffs ++ x ∷ []
    → d'.added_count ≡ d.added_count + (if is_added x.kind then 1 else 0)
    → d'.removed_count ≡ d.removed_count + (if is_removed x.kind then 1 else 0)
    → d'.modified_count ≡ d.modified_count + (if is_modified x.kind then 1 else 0)
    → IsCounted d'
unfolding get_added_symbols get_removed_symbols get_modified_symbols
counted d d' x c e a r m = (
  rw e (a ∙ ground (arith, c, keep-snoc (λ (y : SymbolDiff). is_added y.kind) x d.diffs)),
  rw e (r ∙ ground (arith, c, keep-snoc (λ (y : SymbolDiff). is_removed y.kind) x d.diffs)),
  rw e (m ∙ ground (arith, c, keep-snoc (λ (y : SymbolDiff). is_modified y.kind) x d.diffs)),
)

diff_new-counts :
    (olds news : Dict Symbol) (d : FileDiff)
    → IsCounted d
    → IsCounted (diff_new olds news d)
      × ((diff_new olds news d).added_count ≡ d.added_count + missing olds news)
      × ((diff_new olds news d).removed_count ≡ d.removed_count)
unfolding diff_new missing has
diff_new-counts olds [] d c = (c, ground arith, refl)
diff_new-counts olds ((key, s) ∷ news) d c = elim (Option-cases (lookup key olds)) [
  | inl e ↦
      let d' = record d { diffs = d.diffs ++ added_diff s ∷ []; added_count = d.added_count + 1 } in
      let (c', a, r) =
        diff_new-counts olds news d'
          (counted d d' (added_diff s) c refl refl (omega arith) (omega arith)) in
      rw (e, diff_new, missing, has) (c', ground (arith, a), r)
  | inr (old, e) ↦ elim (Bool-cases (str_eq old.hash s.hash)) [
    | inr n ↦
        let d' = record d {
          diffs = d.diffs ++ modified_diff old s ∷ [];
          modified_count = d.modified_count + 1;
        } in
        let (c', a, r) =
          diff_new-counts olds news d'
            (counted d d' (modified_diff old s) c refl (omega arith) (omega arith) refl) in
        rw (e, diff_new, missing, has, n) (c', ground (arith, a), r)
    | inl y ↦ elim (Bool-cases (old.start_line == s.start_line)) [
      | inl z ↦ rw (e, diff_new, missing, has, y, z) (diff_new-counts olds news d c)
      | inr z ↦
          let d' = record d { diffs = d.diffs ++ moved_diff old s ∷ [] } in
          let (c', a, r) =
            diff_new-counts olds news d'
              (counted d d' (moved_diff old s) c refl (omega arith) (omega arith) (omega arith)) in
          rw (e, diff_new, missing, has, y, z) (c', ground (arith, a), r)
    ]
  ]
]

diff_removed-counts :
    (news olds : Dict Symbol) (d : FileDiff)
    → IsCounted d
    → IsCounted (diff_removed news olds d)
      × ((diff_removed news olds d).removed_count ≡ d.removed_count + missing news olds)
      × ((diff_removed news olds d).added_count ≡ d.added_count)
unfolding diff_removed missing
diff_removed-counts news [] d c = (c, ground arith, refl)
diff_removed-counts news ((key, s) ∷ olds) d c = elim (Bool-cases (has key news)) [
  | inl y ↦ rw (y, diff_removed, missing) (diff_removed-counts news olds d c)
  | inr n ↦
      let d' = record d {
        diffs = d.diffs ++ removed_diff s ∷ [];
        removed_count = d.removed_count + 1;
      } in
      let (c', r, a) =
        diff_removed-counts news olds d'
          (counted d d' (removed_diff s) c refl (omega arith) refl (omega arith)) in
      rw (n, diff_removed, missing) (c', ground (arith, r), a)
]

no_diff-IsCounted : (old new : ParseResult) → IsCounted (no_diff old new)
unfolding get_added_symbols get_removed_symbols get_modified_symbols
no_diff-IsCounted old new = (refl, refl, refl)

-- What a diff of the same file gives, if the hashes are the same, and if not.
diff-same :
    (old new : ParseResult) (d : FileDiff)
    → str_eq old.hash new.hash ≡ true
    → diff old new ≡ ok d
    → d ≡ no_diff old new
unfolding diff
diff-same old new d y h = ground (arith, y, h)

diff-other :
    (old new : ParseResult) (d : FileDiff)
    → str_eq old.hash new.hash ≡ false
    → diff old new ≡ ok d
    → let olds = symbol_map old.symbols [] in
      let news = symbol_map new.symbols [] in
      d ≡ diff_removed news olds (diff_new olds news (no_diff old new))
unfolding diff
diff-other old new d n h = ground (arith, n, h)

-- The counters of a diff are the numbers of its differences of each type, and the diff the other way
-- round has as many symbols removed as this one has added, and as many added as this one has removed.
pub diff-swap :
    (old new : ParseResult) (d d' : FileDiff)
    → diff old new ≡ ok d
    → diff new old ≡ ok d'
    → IsCounted d × (d.added_count ≡ d'.removed_count) × (d.removed_count ≡ d'.added_count)
diff-swap old new d d' e f =
    let olds = symbol_map old.symbols [] in
    let news = symbol_map new.symbols [] in
    let start = no_diff old new in
    let back = no_diff new old in
    let (c, a, r) = diff_new-counts olds news start (no_diff-IsCounted old new) in
    let (c', r', a') = diff_removed-counts news olds (diff_new olds news start) c in
    let (k, b, q) = diff_new-counts news olds back (no_diff-IsCounted new old) in
    let (k', q', b') = diff_removed-counts olds news (diff_new news olds back) k in
    elim (Bool-cases (str_eq old.hash new.hash)) [
      | inl y ↦
          let z : str_eq new.hash old.hash ≡ true =
            ground (arith, y, eq_iff old.hash new.hash, eq_iff new.hash old.hash) in
          rw (diff-same old new d y e, diff-same new old d' z f)
            (no_diff-IsCounted old new, refl, refl)
      | inr n ↦
          let z : str_eq new.hash old.hash ≡ false =
            ground (arith, n, eq_iff old.hash new.hash, eq_iff new.hash old.hash) in
          rw (diff-other old new d n e, diff-other new old d' z f)
            (c', omega (arith, a, a', q, q'), omega (arith, r, r', b, b'))
    ]
