-- ===== src/Lock/Semantic.antt =====
-- src/domain/lock/lock.go. An instant is a number of nanoseconds since Go's zero time, and the
-- clock's reading is an argument: one reading serves a whole call.
use agent_collab.Common.{
  ℕ, ◌+◌, ◌-◌, ◌*◌, ◌%◌, ◌^◌, String, ◌<>◌, Bool, str_eq, if◌then◌else◌, leb, ltb, ℤ, pos, negsuc,
  ltb_ℤ, Option, none, some, Result, ok, err,
}
use agent_collab.Lock.Target.{Error, validation, max_renewals_exceeded, SemanticTarget, contains}

abbrev pub second : ℕ
second = 1_000_000_000

abbrev pub default_ttl : ℕ
default_ttl = 30 * second

abbrev pub max_ttl : ℕ
max_ttl = 300 * second

abbrev pub max_renewals : ℕ
max_renewals = 100

pub record SemanticLock : Type 0 where
  pub id : String
  pub target : SemanticTarget
  pub holder_id : String
  pub holder_name : String
  pub intention : String
  pub fencing_token : ℕ
  pub acquired_at : ℕ
  pub expires_at : ℕ
  pub renew_count : ℕ

-- `generateLockID`, over the twelve hexadecimal digits that the random source gave.
unfoldable pub generate_lock_id : String → String
generate_lock_id digits = "lock-" <> digits

-- `atomic.AddUint64(&fencingTokenCounter, 1)`: the counter's next value, which is the token.
unfoldable pub next_fencing_token : ℕ → ℕ
next_fencing_token counter = (counter + 1) % 2 ^ 64

-- The lock and the counter's new value. A nil target is `none`.
unfoldable pub new_semantic_lock_safe :
    Option SemanticTarget
    → String
    → String
    → String
    → (counter : ℕ) → (random : String) → (now : ℕ) → Result Error (SemanticLock × ℕ)
unfolding generate_lock_id next_fencing_token
new_semantic_lock_safe none holder_id holder_name intention counter random now =
    err (validation "target" "cannot be nil")
new_semantic_lock_safe (some target) holder_id holder_name intention counter random now =
    if str_eq holder_id ""
    then err (validation "holderID" "cannot be empty")
    else ok (
      record {
        id = generate_lock_id random;
        target = target;
        holder_id = holder_id;
        holder_name = if str_eq holder_name "" then "unknown" else holder_name;
        intention = intention;
        fencing_token = next_fencing_token counter;
        acquired_at = now;
        expires_at = now + default_ttl;
        renew_count = 0;
      },
      next_fencing_token counter,
    )

unfoldable pub is_expired : SemanticLock → ℕ → Bool
is_expired l now = ltb l.expires_at now

-- `-` stops at 0, as the source's test does.
unfoldable pub ttl_remaining : SemanticLock → ℕ → ℕ
ttl_remaining l now = l.expires_at - now

unfoldable pub renew : SemanticLock → ℕ → Result Error SemanticLock
renew l now =
    if leb max_renewals l.renew_count
    then err max_renewals_exceeded
    else ok (record l { expires_at = now + default_ttl; renew_count = l.renew_count + 1 })

-- `now.Add(d)`: a negative duration leads back.
unfoldable pub add_duration : ℕ → ℤ → ℕ
add_duration now (pos d) = now + d
add_duration now (negsuc d) = now - (d + 1)

unfoldable pub renew_with_ttl : SemanticLock → ℤ → ℕ → Result Error SemanticLock
unfolding add_duration
renew_with_ttl l ttl now =
    if leb max_renewals l.renew_count
    then err max_renewals_exceeded
    else ok (record l {
      expires_at = add_duration now (if ltb_ℤ (pos max_ttl) ttl then pos max_ttl else ttl);
      renew_count = l.renew_count + 1;
    })

pub record LockConflict : Type 0 where
  pub requested_lock : SemanticLock
  pub conflicting_lock : SemanticLock
  pub overlap_type : String

unfoldable pub new_lock_conflict : SemanticLock → SemanticLock → LockConflict
new_lock_conflict requested conflicting = record {
  requested_lock = requested;
  conflicting_lock = conflicting;
  overlap_type =
      if contains requested.target conflicting.target
      then "contains"
      else if contains conflicting.target requested.target
      then "full"
      else "partial";
}
