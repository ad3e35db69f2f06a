-- ===== src/StakeTrade/Calls.antt =====
-- What a batch of app/src/pages/api/stake-trade.ts sends to the daemon.
use web_gui.Base.{◌≤◌, List, All, length}
use web_gui.Text.{Text}
use web_gui.Json.{Json}
use web_gui.StakeTrade.Defaults.{Extends}
use web_gui.StakeTrade.Safety.{IsSafeItem}
use web_gui.StakeTrade.{BatchItem, entry_item, both}

-- Between one and five safe items.
pub record IsSafeBatch (items : List BatchItem) : Type 0 where
  pub some_items : 1 ≤ length items
  pub few : length items ≤ 5
  pub safe : All IsSafeItem items
