-- ===== src/McpSettings/Tests.antt =====
-- A run of app/src/lib/mcp-settings.ts on a concrete form.
use web_gui.Base.{◌≡◌, refl, ◌⊎◌, true, false, [], Option, none, some}
use web_gui.Text.{Text, codes, truthy}
use web_gui.Auth.Totp.{Bytes}
use web_gui.StepUp.{StepUpState, TotpCheck}
use web_gui.McpSettings.{McpSettingsInput, ok, granted, resolve_mcp_settings}
use web_gui.McpSettings.Privileges.{decision, check_with, resolve_mcp_settings-ok}

abbrev empty_digest : Bytes → Bytes → Bytes
empty_digest key message = []

abbrev empty_state : StepUpState
empty_state = record { used_codes = []; totp_failures = [] }

abbrev form : McpSettingsInput
form = record {
  enabled = true;
  allow_actions = true;
  allow_spend = false;
  totp_code = codes "000000";
  totp_throttle_key = none;
}

abbrev stored : Option Text
stored = some (codes "JBSWY3DP")

accepted : (decision empty_digest form stored 60000 empty_state).0 ≡ ok (granted form)
unfolding resolve_mcp_settings web_gui.StepUp.verify_and_burn_totp_code
    web_gui.Auth.Totp.verify_totp web_gui.Auth.Totp.hotp_code web_gui.StepUp.burn_keys
    web_gui.StepUp.throttled_by web_gui.StepUp.burn web_gui.StepUp.is_used web_gui.JsMap.get
    web_gui.JsMap.set web_gui.JsMap.prune web_gui.Text.trim web_gui.Text.is_space
    web_gui.Text.text_eq web_gui.Text.Digits.show
accepted = refl

resolve_mcp_settings-ok_example :
    (true ≡ true)
    × ((true ≡ true)
        × ((false ≡ false)
            × (((true ≡ false)
                  × ((false ≡ false)
                      × ((decision empty_digest form stored 60000 empty_state).1 ≡ empty_state)))
                ⊎ (((true ≡ true) ⊎ (false ≡ true))
                    × ((key : Text) × ((truthy stored ≡ some key)
                          × (((check_with empty_digest form stored 60000 empty_state key).0
                                ≡ TotpCheck.ok)
                              × ((decision empty_digest form stored 60000 empty_state).1
                                  ≡ (check_with empty_digest form stored 60000 empty_state
                                      key).1))))))))
resolve_mcp_settings-ok_example =
    resolve_mcp_settings-ok empty_digest form stored 60000 empty_state accepted
