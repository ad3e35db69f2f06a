-- ===== src/McpSettings/Privileges.antt =====
-- When resolveMcpSettings (app/src/lib/mcp-settings.ts) grants a privilege.
use web_gui.Base.{
  ℕ, ◌≡◌, refl, sym, ap, ◌⊎◌, inl, inr, Bool, true, false, ◌&&◌, ◌||◌, Option, some, arith,
  Option-cases, Bool-cases,
}
use web_gui.Text.{Text, truthy}
use web_gui.Auth.Totp.{Bytes}
use web_gui.StepUp.{StepUpState, TotpCheck, verify_and_burn_totp_code}
use web_gui.McpSettings.{
  McpSettingsInput, McpPrefs, McpSettingsDecision, ok, granted, grants_privilege, decided,
  resolve_mcp_settings,
}

decided-ok :
    (prefs : McpPrefs) (check : TotpCheck) {stored : McpPrefs}
    → decided prefs check ≡ ok stored
    → (check ≡ TotpCheck.ok) × (prefs ≡ stored)
decided-ok prefs TotpCheck.ok h = (refl, ground arith)
decided-ok prefs (TotpCheck.failed reason) h = absurd (ground arith)

or_cases : (a b : Bool) → (a || b) ≡ true → (a ≡ true) ⊎ (b ≡ true)
or_cases true b h = inl refl
or_cases false b h = inr h

or_false_left : (a b : Bool) → (a || b) ≡ false → a ≡ false
or_false_left a b h = ground arith

or_false_right : (a b : Bool) → (a || b) ≡ false → b ≡ false
or_false_right a b h = ground arith

module _ (hmac_sha1 : Bytes → Bytes → Bytes) (input : McpSettingsInput) (secret : Option Text)
    (now : ℕ) (s : StepUpState) where
  abbrev pub decision : McpSettingsDecision × StepUpState
  decision = resolve_mcp_settings hmac_sha1 input secret now s

  abbrev pub check_with : Text → TotpCheck × StepUpState
  check_with key =
      verify_and_burn_totp_code hmac_sha1 input.totp_code key input.totp_throttle_key now s

  -- Permissions that may be stored have the requested `enabled`, and allow wallet actions, or
  -- spending, exactly if this and `enabled` were requested. Either they allow neither, and then no code
  -- is looked at and the state stays as it is; or they allow one of them, a secret is stored and the
  -- check of the code with it succeeds, which leaves the state that the check leaves.
  pub resolve_mcp_settings-ok :
      {prefs : McpPrefs}
      → decision.0 ≡ ok prefs
      → (prefs.enabled ≡ input.enabled)
        × ((prefs.allow_actions ≡ (input.enabled && input.allow_actions))
            × ((prefs.allow_spend ≡ (input.enabled && input.allow_spend))
                × (((prefs.allow_actions ≡ false)
                      × ((prefs.allow_spend ≡ false) × (decision.1 ≡ s)))
                    ⊎ (((prefs.allow_actions ≡ true) ⊎ (prefs.allow_spend ≡ true))
                        × ((key : Text) × ((truthy secret ≡ some key)
                              × (((check_with key).0 ≡ TotpCheck.ok)
                                  × (decision.1 ≡ (check_with key).1))))))))
  unfolding resolve_mcp_settings
  resolve_mcp_settings-ok {prefs} h = elim (Bool-cases (grants_privilege (granted input))) [
    | inr plain ↦
        let same : granted input ≡ prefs = ground arith in
        (
          ap (λ (p : McpPrefs). p.enabled) (sym same),
          (
            ap (λ (p : McpPrefs). p.allow_actions) (sym same),
            (
              ap (λ (p : McpPrefs). p.allow_spend) (sym same),
              inl (
                rw (sym same) (or_false_left _ _ plain),
                (rw (sym same) (or_false_right _ _ plain), rw plain refl),
              ),
            ),
          ),
        )
    | inl privileged ↦ elim (Option-cases (truthy secret)) [
      | inl missing ↦ absurd (ground arith)
      | inr (key, stored) ↦
          let answer : decided (granted input) (check_with key).0 ≡ ok prefs = ground arith in
          let (right, same) = decided-ok (granted input) (check_with key).0 answer in
          (
            ap (λ (p : McpPrefs). p.enabled) (sym same),
            (
              ap (λ (p : McpPrefs). p.allow_actions) (sym same),
              (
                ap (λ (p : McpPrefs). p.allow_spend) (sym same),
                inr (
                  rw (sym same) (or_cases _ _ privileged),
                  (key, (stored, (right, rw (privileged, stored) refl))),
                ),
              ),
            ),
          )
    ]
  ]
