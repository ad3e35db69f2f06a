-- ===== src/PasswordChange.antt =====
-- app/src/lib/password-change.ts: the decision on a password change, the throttle on wrong current
-- passwords, and the stored change. `now` is the Date.now() of a call; `salt` is the random salt of
-- hashPassword.
pub mod Decision
pub mod Sessions
mod Tests
use web_gui.Base.{
  ℕ, ◌+◌, ◌*◌, Bool, true, false, not, ◌&&◌, Option, none, some, leb, ltb, if◌then◌else◌, length,
}
use web_gui.Text.{Text, codes, text_eq, truthy}
use web_gui.JsMap.{Map, get, set, delete}
use web_gui.Auth.Password.{Kdf, hash_password, verify_password}

pub record PasswordChangeInput : Type 0 where
  pub current_password : Text
  pub new_password : Text
  pub confirm_password : Text

pub data PasswordChangeDecision : Type 0 where
  ok : (new_hash : Text) → PasswordChangeDecision
  refused : (error : Text) → (http_status : ℕ) → PasswordChangeDecision
  -- PBKDF2 threw
  thrown : PasswordChangeDecision

pub record Failures : Type 0 where
  pub count : ℕ
  pub first_at : ℕ

abbrev pub max_password_failures : ℕ
max_password_failures = 5

abbrev pub password_failure_window_ms : ℕ
password_failure_window_ms = 15 * 60 * 1000

-- `!!entry && entry.count >= MAX && now < entry.firstAt + WINDOW`
pub is_throttling : ℕ → Option Failures → Bool
is_throttling now none = false
is_throttling now (some entry) =
    leb max_password_failures entry.count && ltb now (entry.first_at + password_failure_window_ms)

unfoldable pub is_password_change_throttled : Text → ℕ → Map Failures → Bool
unfolding is_throttling
is_password_change_throttled key now m = is_throttling now (get key m)

pub next_failures : ℕ → Option Failures → Failures
next_failures now none = record { count = 1; first_at = now }
next_failures now (some entry) =
    if leb (entry.first_at + password_failure_window_ms) now
    then record { count = 1; first_at = now }
    else record entry { count = entry.count + 1 }

unfoldable pub record_password_failure : Text → ℕ → Map Failures → Map Failures
unfolding next_failures
record_password_failure key now m = set key (next_failures now (get key m)) m

-- The exported name of the same operation, which the wallet unlock form shares.
unfoldable pub record_throttled_failure : Text → ℕ → Map Failures → Map Failures
record_throttled_failure key now m = record_password_failure key now m

-- `throttleKey && …`: the empty key counts as absent.
pub throttled_by : Option Text → ℕ → Map Failures → Bool
throttled_by none now m = false
throttled_by (some key) now m = is_password_change_throttled key now m

pub failed_by : Option Text → ℕ → Map Failures → Map Failures
failed_by none now m = m
failed_by (some key) now m = record_password_failure key now m

pub cleared_by : Option Text → Map Failures → Map Failures
cleared_by none m = m
cleared_by (some key) m = delete key m

pub hashed : Option Text → PasswordChangeDecision
hashed none = thrown
hashed (some new_hash) = ok new_hash

module _ (pbkdf2 : Kdf) where
  -- The checks after the current password was found right.
  pub decide_new : PasswordChangeInput → Text → PasswordChangeDecision
  decide_new input salt =
      if ltb (length input.new_password) 8
      then refused (codes "New password must be at least 8 characters") 400
      else if not (text_eq input.new_password input.confirm_password)
      then refused (codes "New passwords do not match") 400
      else hashed (hash_password pbkdf2 input.new_password salt)

  unfoldable pub resolve_password_change :
      PasswordChangeInput
      → Option Text
      → Option Text
      → Text
      → ℕ
      → Map Failures
      → PasswordChangeDecision × Map Failures
  resolve_password_change input throttle_key stored_hash salt now m =
      let key = truthy throttle_key in
      if throttled_by key now m
      then (refused (codes "Too many failed attempts. Try again in 15 minutes.") 429, m)
      else elim (truthy stored_hash) [
        | none ↦ (refused (codes "Password not configured") 400, m)
        | some stored ↦ elim (verify_password pbkdf2 input.current_password stored) [
          | none ↦ (thrown, m)
          | some right ↦
              if not right
              then (refused (codes "Current password is incorrect") 401, failed_by key now m)
              else (decide_new input salt, cleared_by key m)
        ]
      ]

-- The two preferences that a change writes.
pub record Prefs : Type 0 where
  pub password_hash : Option Text
  pub session_version : Option ℕ

-- `getPref('auth.session_version') ?? 0`
abbrev pub current_version : Prefs → ℕ
current_version prefs = elim prefs.session_version [ none ↦ 0 | some version ↦ version ]

unfoldable pub apply_password_change : Text → Prefs → Prefs
apply_password_change new_hash prefs = record {
  password_hash = some new_hash;
  session_version = some (current_version prefs + 1);
}
