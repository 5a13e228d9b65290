-- ===== src/Ast/Differ.antt =====
-- src/domain/ast/differ.go. A symbol's and a file's other fields are only carried, and left out.
pub mod Counts
mod Examples
use agent_collab.Common.{
  ℕ, ◌+◌, String, ◌<>◌, Bool, true, false, not, if◌then◌else◌, ◌==◌, str_eq, Option, none, some,
  List, [], ◌∷◌, ◌++◌, length, keep, Result, ok, err, ltb,
}
use agent_collab.Common.Dict.{Dict, lookup, insert, has}

-- `Symbol` of parser.go.
pub record Symbol : Type 0 where
  pub kind : String
  pub name : String
  pub parent : String
  pub start_line : ℕ
  pub hash : String

-- `ParseResult` of parser.go.
pub record ParseResult : Type 0 where
  pub file_path : String
  pub language : String
  pub hash : String
  pub symbols : List Symbol

pub data DiffType : Type 0 where
  added removed modified moved : DiffType

-- A field that the source does not set is 0 or empty.
pub record SymbolDiff : Type 0 where
  pub kind : DiffType
  pub symbol : Symbol
  pub old_symbol : Option Symbol
  pub old_line : ℕ
  pub new_line : ℕ
  pub hash_before : String
  pub hash_after : String

pub record FileDiff : Type 0 where
  pub file_path : String
  pub language : String
  pub old_hash : String
  pub new_hash : String
  pub diffs : List SymbolDiff
  pub added_count : ℕ
  pub removed_count : ℕ
  pub modified_count : ℕ

unfoldable pub symbol_key : Symbol → String
symbol_key s = s.kind <> (":" <> (s.parent <> (":" <> s.name)))

-- `oldSymbols` and `newSymbols`: a later symbol replaces one with the same key.
unfoldable pub symbol_map : List Symbol → Dict Symbol → Dict Symbol
unfolding symbol_key
symbol_map [] m = m
symbol_map (s ∷ ss) m = symbol_map ss (insert (symbol_key s) s m)

abbrev pub added_diff : Symbol → SymbolDiff
added_diff s = record {
  kind = added;
  symbol = s;
  old_symbol = none;
  old_line = 0;
  new_line = s.start_line;
  hash_before = "";
  hash_after = s.hash;
}

abbrev pub removed_diff : Symbol → SymbolDiff
removed_diff s = record {
  kind = removed;
  symbol = s;
  old_symbol = none;
  old_line = s.start_line;
  new_line = 0;
  hash_before = s.hash;
  hash_after = "";
}

abbrev pub modified_diff : Symbol → Symbol → SymbolDiff
modified_diff old s = record {
  kind = modified;
  symbol = s;
  old_symbol = some old;
  old_line = old.start_line;
  new_line = s.start_line;
  hash_before = old.hash;
  hash_after = s.hash;
}

abbrev pub moved_diff : Symbol → Symbol → SymbolDiff
moved_diff old s = record {
  kind = moved;
  symbol = s;
  old_symbol = none;
  old_line = old.start_line;
  new_line = s.start_line;
  hash_before = "";
  hash_after = "";
}

-- The loop over the new symbols.
unfoldable pub diff_new : Dict Symbol → Dict Symbol → FileDiff → FileDiff
diff_new olds [] d = d
diff_new olds ((key, s) ∷ news) d = elim (lookup key olds) [
  | none ↦
      diff_new olds news
        (record d { diffs = d.diffs ++ added_diff s ∷ []; added_count = d.added_count + 1 })
  | some old ↦ diff_new olds news (
      if not (str_eq old.hash s.hash)
      then record d {
        diffs = d.diffs ++ modified_diff old s ∷ [];
        modified_count = d.modified_count + 1;
      }
      else if not (old.start_line == s.start_line)
      then record d { diffs = d.diffs ++ moved_diff old s ∷ [] }
      else d)
]

-- The loop over the old symbols.
unfoldable pub diff_removed : Dict Symbol → Dict Symbol → FileDiff → FileDiff
diff_removed news [] d = d
diff_removed news ((key, s) ∷ olds) d = diff_removed news olds (
    if has key news
    then d
    else record d { diffs = d.diffs ++ removed_diff s ∷ []; removed_count = d.removed_count + 1 })

-- `Diff`; its error's text is left out.
unfoldable pub diff : ParseResult → ParseResult → Result (Unit {0}) FileDiff
unfolding symbol_map diff_new diff_removed
diff old new =
    let empty : FileDiff = record {
      file_path = new.file_path;
      language = new.language;
      old_hash = old.hash;
      new_hash = new.hash;
      diffs = [];
      added_count = 0;
      removed_count = 0;
      modified_count = 0;
    } in
    let olds = symbol_map old.symbols [] in
    let news = symbol_map new.symbols [] in
    if not (str_eq old.file_path new.file_path)
    then err tt
    else if str_eq old.hash new.hash
    then ok empty
    else ok (diff_removed news olds (diff_new olds news empty))

unfoldable pub has_changes : FileDiff → Bool
has_changes d = ltb 0 (length d.diffs)

abbrev pub is_modified : DiffType → Bool
is_modified added = false
is_modified removed = false
is_modified modified = true
is_modified moved = false

abbrev pub is_added : DiffType → Bool
is_added added = true
is_added removed = false
is_added modified = false
is_added moved = false

abbrev pub is_removed : DiffType → Bool
is_removed added = false
is_removed removed = true
is_removed modified = false
is_removed moved = false

unfoldable pub get_modified_symbols : FileDiff → List SymbolDiff
get_modified_symbols d = keep (λ x. is_modified x.kind) d.diffs

unfoldable pub get_added_symbols : FileDiff → List SymbolDiff
get_added_symbols d = keep (λ x. is_added x.kind) d.diffs

unfoldable pub get_removed_symbols : FileDiff → List SymbolDiff
get_removed_symbols d = keep (λ x. is_removed x.kind) d.diffs
