-- ===== src/Lock/Target/Ranges.antt =====
-- Line ranges and identifiers of src/domain/lock/target.go.
use text.Mathlib.TextLemmas.{append_assoc}
use agent_collab.Common.{
  String, ◌<>◌, ◌≡◌, ◌≢◌, ◌↔◌, sym, true, false, eq_iff, ℤ, pos, ◌≤ℤ◌, leb_ℤ, ok, arith, Bool-cases,
  inl, inr,
}
use agent_collab.Lock.Target.{
  SemanticTarget, new_semantic_target, is_valid_target_type, target_id, overlaps,
}

-- A line of a file lies in a target.
pub record Covers (t : SemanticTarget) (path : String) (line : ℤ) : Type 0 where
  pub same_file : t.file_path ≡ path
  pub above : t.start_line ≤ℤ line
  pub below : line ≤ℤ t.end_line

leb_ℤ_iff : (a b : ℤ) → (leb_ℤ a b ≡ true) ↔ (a ≤ℤ b)
leb_ℤ_iff a b = (λ h. ground arith, λ h. ground arith)

leb_ℤ_false : (a b : ℤ) → leb_ℤ a b ≡ false → b ≤ℤ a
leb_ℤ_false a b h = ground arith

≤ℤ_trans : (a b c : ℤ) → a ≤ℤ b → b ≤ℤ c → a ≤ℤ c
≤ℤ_trans a b c h k = omega arith

overlaps_of :
    (t u : SemanticTarget)
    → t.file_path ≡ u.file_path
    → t.start_line ≤ℤ u.end_line
    → u.start_line ≤ℤ t.end_line
    → overlaps t u ≡ true
unfolding overlaps
overlaps_of t u file a b = ground (arith, eq_iff t.file_path u.file_path)

overlaps_parts :
    (t u : SemanticTarget)
    → overlaps t u ≡ true
    → (t.file_path ≡ u.file_path) × (t.start_line ≤ℤ u.end_line) × (u.start_line ≤ℤ t.end_line)
unfolding overlaps
overlaps_parts t u h = ground (arith, eq_iff t.file_path u.file_path)

-- Two targets of non-empty ranges overlap exactly when some line lies in both.
pub overlaps_iff :
    (t u : SemanticTarget)
    → t.start_line ≤ℤ t.end_line
    → u.start_line ≤ℤ u.end_line
    → (overlaps t u ≡ true) ↔ ((line : ℤ) × Covers t u.file_path line × Covers u t.file_path line)
overlaps_iff t u ht hu = (common, meet)
  where
    common :
        overlaps t u ≡ true → (line : ℤ) × Covers t u.file_path line × Covers u t.file_path line
    common h =
        let (file, a, b) = overlaps_parts t u h in
        elim (Bool-cases (leb_ℤ t.start_line u.start_line)) [
          | inl e ↦ (
            u.start_line,
            record {
              same_file = file;
              above = (leb_ℤ_iff t.start_line u.start_line).0 e;
              below = b;
            },
            record { same_file = sym file; above = omega arith; below = hu },
          )
          | inr e ↦ (
            t.start_line,
            record { same_file = file; above = omega arith; below = ht },
            record {
              same_file = sym file;
              above = leb_ℤ_false t.start_line u.start_line e;
              below = a;
            },
          )
        ]

    meet :
        ((line : ℤ) × Covers t u.file_path line × Covers u t.file_path line) → overlaps t u ≡ true
    meet (line, c, d) =
        overlaps_of t u c.same_file (≤ℤ_trans t.start_line line u.end_line c.above d.below)
          (≤ℤ_trans u.start_line line t.end_line d.above c.below)

-- `new_semantic_target` returns a target exactly if the path is not empty, the range starts at line 1
-- or later and does not end before it starts, and the kind is known; the target is then made of the
-- arguments.
pub new_semantic_target-ok :
    (kind path name : String) (first last : ℤ) (t : SemanticTarget)
    → (new_semantic_target kind path name first last ≡ ok t) ↔ (
        (path ≢ "")
        × (pos 1 ≤ℤ first)
        × (first ≤ℤ last)
        × (is_valid_target_type kind ≡ true)
        × (t ≡ record {
          kind = kind;
          file_path = path;
          name = name;
          start_line = first;
          end_line = last;
          ast_hash = "";
        }))
unfolding new_semantic_target
new_semantic_target-ok kind path name first last t = (
  (λ h. ground (arith, eq_iff path "")),
  (λ (full, one, order, known, e). ground (arith, eq_iff path "")),
)

-- The identifier does not tell a colon of a path or a name from those that it puts between them: a
-- target of the file `path:middle` and one of the file `path` have one identifier.
pub target_id_collides :
    (t : SemanticTarget) (path middle name : String)
    → target_id (record t { file_path = path <> (":" <> middle); name = name })
      ≡ target_id (record t { file_path = path; name = middle <> (":" <> name) })
unfolding target_id
target_id_collides t path middle name = simp append_assoc
