-- ===== src/TokenManage/Checks.antt =====
-- What the checks of app/src/pages/api/token-manage.ts guarantee of the parameters of an action.
use web_gui.Base.{
  ℕ, ◌≤◌, ◌≡◌, refl, true, List, [], ◌∷◌, Option, none, some, arith, All, length, all,
}
use web_gui.Base.Int.{pos}
use web_gui.Text.{Text, codes}
use web_gui.JsMap.{Map, get}
use web_gui.Json.{Json, int, text, is_zero}
use web_gui.Params.{is_amount_field, is_str, is_id, is_alphanumeric}
use web_gui.Params.Laws.{
  IsIdField, is_id-IsIdField, Passes, first_error-none, IsAmountField, is_amount_field_sound,
  is_zero_lem,
}
use web_gui.TokenManage.Actions.{
  Action, validate_params, action_checks, token_issue_new, token_nft_issue_new, token_mint,
  token_unmint, token_lock_supply, token_freeze, token_unfreeze, token_change_authority,
  token_change_metadata_uri, is_ticker, is_decimals, metadata_of,
}

-- The field with the account, the fields with an identifier, and those with an amount.
abbrev pub account_field : Action → Text
account_field token_lock_supply = codes "account_index"
account_field _ = codes "account"

abbrev pub id_fields : Action → List Text
id_fields token_issue_new = codes "destination_address" ∷ []
id_fields token_nft_issue_new = codes "destination_address" ∷ []
id_fields token_mint = codes "token_id" ∷ codes "address" ∷ []
id_fields token_change_authority = codes "token_id" ∷ codes "address" ∷ []
id_fields _ = codes "token_id" ∷ []

abbrev pub amount_fields : Action → List Text
amount_fields token_mint = codes "amount" ∷ []
amount_fields token_unmint = codes "amount" ∷ []
amount_fields _ = []

-- The metadata of a token that may be issued: a ticker of 1 to 5 letters and digits, at most 18
-- decimals.
pub record IsIssuable (m : Map Json) : Type 0 where
  pub ticker : Text
  pub named : get (codes "token_ticker") m ≡ some (text ticker)
  pub some_ticker : 1 ≤ length ticker
  pub short_ticker : length ticker ≤ 5
  pub plain_ticker : all is_alphanumeric ticker ≡ true
  pub decimals : ℕ
  pub precise : get (codes "number_of_decimals") m ≡ some (int (pos decimals))
  pub at_most : decimals ≤ 18

abbrev pub IssueOk : Action → Map Json → Type 0
IssueOk token_issue_new p = IsIssuable (metadata_of p)
IssueOk _ p = Unit

-- Parameters that are fit for the daemon.
pub record IsSafeCall (a : Action) (p : Map Json) : Type 0 where
  pub account : get (account_field a) p ≡ some (int (pos 0))
  pub ids : All (λ name. IsIdField (get name p)) (id_fields a)
  pub amounts : All (λ name. IsAmountField 18 (get name p)) (amount_fields a)
  pub issue : IssueOk a p

ticker_sound :
    (v : Option Json)
    → is_str is_ticker v ≡ true
    → (t : Text) × ((v ≡ some (text t))
        × ((1 ≤ length t) × ((length t ≤ 5) × (all is_alphanumeric t ≡ true))))
unfolding is_ticker
ticker_sound (some (text t)) h = (t, (refl, (ground arith, (ground arith, ground arith))))
ticker_sound none h = absurd (ground arith)
ticker_sound (some v) h = absurd (ground arith)

decimals_sound :
    (v : Option Json) → is_decimals v ≡ true → (n : ℕ) × ((v ≡ some (int (pos n))) × (n ≤ 18))
decimals_sound (some (int (pos n))) h = (n, (refl, ground arith))
decimals_sound none h = absurd (ground arith)
decimals_sound (some v) h = absurd (ground arith)

issuable :
    (m : Map Json)
    → is_str is_ticker (get (codes "token_ticker") m) ≡ true
    → is_decimals (get (codes "number_of_decimals") m) ≡ true
    → IsIssuable m
issuable m ticker_ok decimals_ok =
    let (t, (named, (some_t, (short_t, plain_t)))) =
      ticker_sound (get (codes "token_ticker") m) ticker_ok in
    let (n, (precise, at_most)) = decimals_sound (get (codes "number_of_decimals") m) decimals_ok in
    record {
      ticker = t;
      named = named;
      some_ticker = some_t;
      short_ticker = short_t;
      plain_ticker = plain_t;
      decimals = n;
      precise = precise;
      at_most = at_most;
    }

module _ (p : Map Json) where
  abbrev IdOk : Text → Type 0
  IdOk name = is_str is_id (get name p) ≡ true

  id_at : (name : Text) → IdOk name → IsIdField (get name p)
  id_at name h = is_id-IsIdField (get name p) h

  account_at : (name : Text) → is_zero (get name p) ≡ true → get name p ≡ some (int (pos 0))
  account_at name h = is_zero_lem (get name p) h

  amount_at :
      is_amount_field 18 (get (codes "amount") p) ≡ true → IsAmountField 18 (get (codes "amount") p)
  amount_at h = is_amount_field_sound 18 (get (codes "amount") p) h

  action_checks-IsSafeCall : (a : Action) → All Passes (action_checks a p) → IsSafeCall a p
  unfolding action_checks
  action_checks-IsSafeCall token_issue_new (acc, (i, (meta, (ticker_ok, (decimals_ok, _))))) =
      record {
        account = account_at (codes "account") acc;
        ids = (id_at (codes "destination_address") i, tt);
        amounts = tt;
        issue = issuable (metadata_of p) ticker_ok decimals_ok;
      }
  action_checks-IsSafeCall token_nft_issue_new (acc, (i, _)) = record {
    account = account_at (codes "account") acc;
    ids = (id_at (codes "destination_address") i, tt);
    amounts = tt;
    issue = tt;
  }
  action_checks-IsSafeCall token_mint (acc, (i, (j, (amount, _)))) = record {
    account = account_at (codes "account") acc;
    ids = (id_at (codes "token_id") i, (id_at (codes "address") j, tt));
    amounts = (amount_at amount, tt);
    issue = tt;
  }
  action_checks-IsSafeCall token_unmint (acc, (i, (amount, _))) = record {
    account = account_at (codes "account") acc;
    ids = (id_at (codes "token_id") i, tt);
    amounts = (amount_at amount, tt);
    issue = tt;
  }
  action_checks-IsSafeCall token_lock_supply (acc, (i, _)) = record {
    account = account_at (codes "account_index") acc;
    ids = (id_at (codes "token_id") i, tt);
    amounts = tt;
    issue = tt;
  }
  action_checks-IsSafeCall token_change_authority (acc, (i, (j, _))) = record {
    account = account_at (codes "account") acc;
    ids = (id_at (codes "token_id") i, (id_at (codes "address") j, tt));
    amounts = tt;
    issue = tt;
  }
  action_checks-IsSafeCall token_freeze (acc, (i, _)) = record {
    account = account_at (codes "account") acc;
    ids = (id_at (codes "token_id") i, tt);
    amounts = tt;
    issue = tt;
  }
  action_checks-IsSafeCall token_unfreeze (acc, (i, _)) = record {
    account = account_at (codes "account") acc;
    ids = (id_at (codes "token_id") i, tt);
    amounts = tt;
    issue = tt;
  }
  action_checks-IsSafeCall token_change_metadata_uri (acc, (i, _)) = record {
    account = account_at (codes "account") acc;
    ids = (id_at (codes "token_id") i, tt);
    amounts = tt;
    issue = tt;
  }

pub validate_params-IsSafeCall :
    (a : Action) (p : Map Json) → validate_params a p ≡ none → IsSafeCall a p
unfolding validate_params
validate_params-IsSafeCall a p h =
    let (options, rest) = first_error-none _ h in action_checks-IsSafeCall p a rest
