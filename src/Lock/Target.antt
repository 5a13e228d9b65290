-- ===== src/Lock/Target.antt =====
-- src/domain/lock/target.go, and the errors of src/domain/lock/errors.go that the package returns.
pub mod Ranges
use agent_collab.Common.{
  String, ◌<>◌, Bool, false, ◌&&◌, ◌||◌, str_eq, if◌then◌else◌, ℤ, pos, leb_ℤ, ltb_ℤ, show_ℤ,
  Result, ok, err,
}

-- The sentinel errors, a validation error with its field, and an `fmt.Errorf` with its text.
pub data Error : Type 0 where
  lock_not_found lock_expired lock_conflict not_lock_holder : Error
  max_renewals_exceeded negotiation_failed human_intervention_required rate_limited : Error
  validation : String → String → Error
  message : String → Error

-- `Error()`.
unfoldable pub error_text : Error → String
error_text lock_not_found = "lock not found"
error_text lock_expired = "lock expired"
error_text lock_conflict = "lock conflict"
error_text not_lock_holder = "not lock holder"
error_text max_renewals_exceeded = "max renewals exceeded"
error_text negotiation_failed = "negotiation failed"
error_text human_intervention_required = "human intervention required"
error_text rate_limited = "rate limited: too many requests"
error_text (validation field text) = "lock validation error: " <> (field <> (" " <> text))
error_text (message text) = text

-- Go's type is an open set of strings; the five constants are `is_valid_target_type`.
pub record SemanticTarget : Type 0 where
  pub kind : String
  pub file_path : String
  pub name : String
  pub start_line : ℤ
  pub end_line : ℤ
  pub ast_hash : String

unfoldable pub is_valid_target_type : String → Bool
is_valid_target_type t =
    str_eq t "function"
    || str_eq t "class"
    || str_eq t "method"
    || str_eq t "module"
    || str_eq t "file"

unfoldable pub new_semantic_target : String → String → String → ℤ → ℤ → Result Error SemanticTarget
new_semantic_target kind file_path name start_line end_line =
    if str_eq file_path ""
    then err (message "file path cannot be empty")
    else if leb_ℤ start_line (pos 0)
    then err (message ("start line must be positive: " <> show_ℤ start_line))
    else if leb_ℤ end_line (pos 0)
    then err (message ("end line must be positive: " <> show_ℤ end_line))
    else if ltb_ℤ end_line start_line
    then err (
        message (
          "start line ("
          <> (show_ℤ start_line <> (") must be <= end line (" <> (show_ℤ end_line <> ")")))))
    else if is_valid_target_type kind
    then ok (record {
      kind = kind;
      file_path = file_path;
      name = name;
      start_line = start_line;
      end_line = end_line;
      ast_hash = "";
    })
    else err (message ("invalid target type: " <> kind))

-- `ID`: "%s:%s:%s:%d-%d".
unfoldable pub target_id : SemanticTarget → String
target_id t =
    t.kind
    <> (":"
        <> (t.file_path
            <> (":" <> (t.name <> (":" <> (show_ℤ t.start_line <> ("-" <> show_ℤ t.end_line)))))))

-- `String`: "%s %s (%s:%d-%d)".
unfoldable pub describe : SemanticTarget → String
describe t =
    t.kind
    <> (" "
        <> (t.name
            <> (" ("
                <> (t.file_path
                    <> (":" <> (show_ℤ t.start_line <> ("-" <> (show_ℤ t.end_line <> ")"))))))))

unfoldable pub overlaps : SemanticTarget → SemanticTarget → Bool
overlaps t other =
    if str_eq t.file_path other.file_path
    then leb_ℤ t.start_line other.end_line && leb_ℤ other.start_line t.end_line
    else false

unfoldable pub contains : SemanticTarget → SemanticTarget → Bool
contains t other =
    if str_eq t.file_path other.file_path
    then leb_ℤ t.start_line other.start_line && leb_ℤ other.end_line t.end_line
    else false
