-- ===== src/Lib.antt =====
-- Verification of the web wallet's own logic: the TypeScript library under app/src/lib, and the server's
-- middleware and endpoints that act on its money.
--
-- The program is a web GUI in front of the Mintlayer node and wallet daemons. Its server side signs
-- sessions and checks passwords and one-time codes (auth.ts), puts a fresh code in front of money
-- movement (step-up.ts), changes the password (password-change.ts), hands out WebAuthn challenges
-- (passkey.ts), computes order amounts on decimal strings (decimal.ts), and checks a request to send
-- coins or tokens (validation.ts, bech32.ts) before it passes the gate and reaches the daemon
-- (pages/api/send.ts). Staking, trading, token authority, abandoning and Bitcoin sends stand behind the
-- same gate; the browser's other calls of the daemon go through the proxy (pages/api/rpc.ts) and its
-- allowlist. In front of all of them stands the middleware (middleware.ts), with the cross-site check (csrf.ts) and
-- the session of the cookie.
--
-- Files and the code that they model:
--   Base, Text, JsMap    shared names; strings as lists of UTF-16 code units with the methods that
--                        the code calls; Map<string, V> as an association list
--   Auth/RateLimit       app/src/lib/auth.ts: the login, bootstrap and RPC counters
--   Auth/Totp            app/src/lib/auth.ts: decodeBase32, hotpCode, verifyTOTP, generateTotpSecret
--   Auth/Session         app/src/lib/auth.ts: generateSessionToken, verifySessionToken
--   Auth/Password        app/src/lib/auth.ts: hashPassword, passwordNeedsRehash, verifyPassword
--   StepUp               app/src/lib/step-up.ts: verifyAndBurnTotpCode, requireStepUp
--   PasswordChange       app/src/lib/password-change.ts
--   Decimal              app/src/lib/decimal.ts
--   Bech32               app/src/lib/bech32.ts, on the laws of bitwise exclusive or in Base/Bits
--   Validation           app/src/lib/validation.ts
--   Send                 app/src/pages/api/send.ts; Json: the bodies that the handlers read
--   Gated, Params        what the endpoints behind the gate share: the outcome of a call, totpFromBody
--                        of app/src/lib/step-up.ts, the checks of the fields of a body
--   StakeTrade           app/src/pages/api/stake-trade.ts
--   TokenManage          app/src/pages/api/token-manage.ts
--   TransactionAbandon   app/src/pages/api/transaction-abandon.ts
--   Bitcoin              app/src/lib/bitcoin-wallet.ts, app/src/pages/api/bitcoin/send.ts
--   RpcProxy             app/src/pages/api/rpc.ts, app/src/lib/rpc-allowlist.ts
--   Csrf, Middleware     app/src/lib/csrf.ts, app/src/middleware.ts
--   SafeUri              app/src/lib/safe-uri.ts
--   TxWatcher            app/src/lib/txWatcher.ts
--   ToastStore           app/src/lib/toastStore.ts
--   UpdateCheck          app/src/lib/update-check.ts: compareVersions
--   WalletRecovery       app/src/lib/wallet-recovery.ts
--   McpSettings          app/src/lib/mcp-settings.ts
--   Passkey              app/src/lib/passkey.ts: the challenge store, isValidRpId
--
-- How the model stands to the code: a definition has the source's name in snake case. Module state
-- is passed in and returned; Date.now() of a call is the argument `now`, in milliseconds. Functions
-- of node:crypto (HMAC, PBKDF2, random bytes) are parameters, with the documented facts that a
-- theorem relies on as named hypotheses. An exception is the result `none` or a constructor of its
-- own. Letter case is that of ASCII, and toLowerCase a parameter where the code calls it on other
-- text. The daemons, fetch, the URL parser and the operations of the file system are parameters, with
-- the facts relied on named in the theorems. Numbers are exact, where a JavaScript number rounds above
-- 2^53.
-- The two state machines of the browser, ToastStore and TxWatcher, take their callbacks, timers and
-- answers as events in any order.
-- The only fuel is that of the decimal printer, one more than the number printed, and of the inner
-- loop of the secret generator, three rounds where it makes at most two, and of the inner loop of
-- convertbits, the number of bits, of which each round takes at least one.
--
-- Not modelled: the pages and components (rendering), the daemons, Docker and shell tooling, the
-- WASM decoder, HTTP calls, and the parts of app/src/lib that only pass data on; not yet, the typo
-- correction of addresses (bech32-correct.ts), the Telegram commands, the plugins, the feature
-- requests, the bridge SDK, the choice of the newest release and the cookies of passkeys.
pub mod Base
pub mod Text
pub mod JsMap
pub mod Auth
pub mod Bech32
pub mod Bitcoin
pub mod Csrf
pub mod Decimal
pub mod Gated
pub mod Json
pub mod McpSettings
pub mod Middleware
pub mod Params
pub mod Passkey
pub mod PasswordChange
pub mod RpcProxy
pub mod SafeUri
pub mod Send
pub mod StakeTrade
pub mod StepUp
pub mod ToastStore
pub mod TokenManage
pub mod TransactionAbandon
pub mod TxWatcher
pub mod UpdateCheck
pub mod Validation
pub mod WalletRecovery
