-- ===== src/Auth/Totp/Secret.antt =====
-- A generated secret and the bytes that it is read back to.
use web_gui.Base.{◌≡◌, refl, [], ◌∷◌}
use web_gui.Text.{codes}
use web_gui.Auth.Totp.{generate_totp_secret, decode_base32}

secret_example : generate_totp_secret (72 ∷ 101 ∷ 108 ∷ 108 ∷ 111 ∷ []) ≡ codes "JBSWY3DP"
unfolding generate_totp_secret
secret_example = refl

decode_example : decode_base32 (codes "jbsw y3dp==") ≡ 72 ∷ 101 ∷ 108 ∷ 108 ∷ 111 ∷ []
unfolding decode_base32
decode_example = refl
