-- ===== src/Ast/Differ/Examples.antt =====
-- Tests of src/domain/ast/differ.go, and its theorem at a concrete input.
use agent_collab.Common.{ℕ, String, ◌≡◌, refl, true, [], ◌∷◌, ok, err}
use agent_collab.Common.Dict.{lookup, insert, has}
use agent_collab.Ast.Differ.{
  Symbol, ParseResult, FileDiff, symbol_key, symbol_map, diff_new, diff_removed, diff, added_diff,
  removed_diff, modified_diff, moved_diff, has_changes, get_added_symbols, get_removed_symbols,
  get_modified_symbols,
}
use agent_collab.Ast.Differ.Counts
use agent_collab.Ast.Differ.Counts.{IsCounted}

program : Unit {0}
unfolding lookup insert has symbol_key symbol_map diff_new diff_removed diff has_changes
    get_added_symbols get_removed_symbols get_modified_symbols
program = tt

abbrev symbol : String → String → ℕ → Symbol
symbol name hash line = record {
  kind = "func";
  name = name;
  parent = "";
  start_line = line;
  hash = hash;
}

abbrev before : ParseResult
before = record {
  file_path = "a.go";
  language = "go";
  hash = "h1";
  symbols = symbol "f" "1" 3 ∷ symbol "g" "2" 9 ∷ symbol "h" "3" 20 ∷ [];
}

abbrev after : ParseResult
after = record {
  file_path = "a.go";
  language = "go";
  hash = "h2";
  symbols = symbol "f" "1" 4 ∷ symbol "g" "5" 9 ∷ symbol "k" "6" 30 ∷ [];
}

abbrev forth : FileDiff
forth = record {
  file_path = "a.go";
  language = "go";
  old_hash = "h1";
  new_hash = "h2";
  diffs =
      moved_diff (symbol "f" "1" 3) (symbol "f" "1" 4)
      ∷ modified_diff (symbol "g" "2" 9) (symbol "g" "5" 9)
      ∷ added_diff (symbol "k" "6" 30)
      ∷ removed_diff (symbol "h" "3" 20)
      ∷ [];
  added_count = 1;
  removed_count = 1;
  modified_count = 1;
}

abbrev back : FileDiff
back = record {
  file_path = "a.go";
  language = "go";
  old_hash = "h2";
  new_hash = "h1";
  diffs =
      moved_diff (symbol "f" "1" 4) (symbol "f" "1" 3)
      ∷ modified_diff (symbol "g" "5" 9) (symbol "g" "2" 9)
      ∷ added_diff (symbol "h" "3" 20)
      ∷ removed_diff (symbol "k" "6" 30)
      ∷ [];
  added_count = 1;
  removed_count = 1;
  modified_count = 1;
}

computed : (diff before after ≡ ok forth) × (has_changes forth ≡ true)
unfolding program
computed = (refl, refl)

other_file : diff before (record after { file_path = "b.go" }) ≡ err tt
unfolding program
other_file = refl

-- Two symbols with one key: a change of the first goes unnoticed.
unnoticed :
    diff
      (record before { symbols = symbol "f" "1" 3 ∷ symbol "f" "2" 9 ∷ [] })
      (record after { symbols = symbol "f" "7" 3 ∷ symbol "f" "2" 9 ∷ [] })
    ≡ ok (record forth { diffs = []; added_count = 0; removed_count = 0; modified_count = 0 })
unfolding program
unnoticed = refl

diff-swap_example :
    IsCounted forth
    × (forth.added_count ≡ back.removed_count)
    × (forth.removed_count ≡ back.added_count)
unfolding program
diff-swap_example = Counts.diff-swap before after forth back refl refl
