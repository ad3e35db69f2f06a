-- ===== src/McpSettings.antt =====
-- app/src/lib/mcp-settings.ts: which permissions of the MCP server a settings form may store. The
-- stored one-time-code secret is an argument, the maps of step-up.ts are the state.
pub mod Privileges
mod Tests
use web_gui.Base.{ℕ, Bool, true, false, ◌&&◌, ◌||◌, Option, none, some, if◌then◌else◌}
use web_gui.Text.{Text, codes, truthy}
use web_gui.Auth.Totp.{Bytes}
use web_gui.StepUp.{StepUpState, TotpCheck, verify_and_burn_totp_code}

pub record McpSettingsInput : Type 0 where
  pub enabled : Bool
  pub allow_actions : Bool
  pub allow_spend : Bool
  pub totp_code : Text
  pub totp_throttle_key : Option Text

pub record McpPrefs : Type 0 where
  pub enabled : Bool
  pub allow_actions : Bool
  pub allow_spend : Bool

pub data McpSettingsDecision : Type 0 where
  ok : McpPrefs → McpSettingsDecision
  refused : (error : Text) → McpSettingsDecision

abbrev pub granted : McpSettingsInput → McpPrefs
granted input = record {
  enabled = input.enabled;
  allow_actions = input.enabled && input.allow_actions;
  allow_spend = input.enabled && input.allow_spend;
}

abbrev pub grants_privilege : McpPrefs → Bool
grants_privilege prefs = prefs.allow_actions || prefs.allow_spend

abbrev pub decided : McpPrefs → TotpCheck → McpSettingsDecision
decided prefs TotpCheck.ok = ok prefs
decided prefs (TotpCheck.failed reason) = refused (
    codes
      "A valid authenticator code is required to enable wallet actions or fund-moving operations.")

module _ (hmac_sha1 : Bytes → Bytes → Bytes) where
  unfoldable pub resolve_mcp_settings :
      McpSettingsInput → Option Text → ℕ → StepUpState → McpSettingsDecision × StepUpState
  resolve_mcp_settings input secret now s =
      let prefs = granted input in
      if grants_privilege prefs
      then elim (truthy secret) [
        | none ↦ (refused (codes "2FA must be configured before enabling MCP write access."), s)
        | some key ↦
            let (check, s') =
              verify_and_burn_totp_code hmac_sha1 input.totp_code key input.totp_throttle_key now
                s in
            (decided prefs check, s')
      ]
      else (ok prefs, s)
