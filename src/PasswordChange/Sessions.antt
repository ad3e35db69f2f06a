-- ===== src/PasswordChange/Sessions.antt =====
-- A password change ends the sessions that were opened before it.
use web_gui.Base.{ℕ, ◌+◌, ◌≡◌, refl, ◌≢◌, ◌∙◌, false, Option, some, arith, List, [], ◌∷◌, length}
use web_gui.Text.{Text}
use web_gui.Auth.Session.{TokenCrypto, generate_session_token, verify_session_token}
use web_gui.Auth.Session.Laws.{verify-generate_session_token}
use web_gui.PasswordChange.{Prefs, current_version, apply_password_change}

-- The preferences after a run of password changes.
pub apply_changes : List Text → Prefs → Prefs
apply_changes [] prefs = prefs
apply_changes (new_hash ∷ hashes) prefs =
    apply_changes hashes (apply_password_change new_hash prefs)

current_version-apply_changes :
    (hashes : List Text) (prefs : Prefs)
    → current_version (apply_changes hashes prefs) ≡ current_version prefs + length hashes
unfolding apply_changes apply_password_change
current_version-apply_changes [] prefs = omega arith
current_version-apply_changes (h ∷ hashes) prefs =
    omega (arith, current_version-apply_changes hashes (apply_password_change h prefs))

-- A session token that was made before one or more password changes is refused after them, at
-- whatever time it is shown and however recent it is.
pub verify-apply_changes :
    (crypto : TokenCrypto) (env : Option Text) (prefs : Prefs) (hashes : List Text) (now later : ℕ)
    (token : Text)
    → hashes ≢ []
    → generate_session_token crypto env now (current_version prefs) ≡ some token
    → verify_session_token crypto env token (current_version (apply_changes hashes prefs)) later
      ≡ some false
verify-apply_changes crypto env prefs [] now later token ne h = absurd (ne refl)
verify-apply_changes crypto env prefs (first ∷ hashes) now later token ne h =
    let after = current_version (apply_changes (first ∷ hashes) prefs) in
    verify-generate_session_token crypto env now (current_version prefs) after later token h
    ∙ ground (arith, current_version-apply_changes (first ∷ hashes) prefs)
