-- ===== src/Config/Ready.antt =====
-- The readiness of the API by the environment: `missing_readiness_config` of
-- src/quant_execution/config.py and `ready` of api/routes/health.py.
use quant_execution.Api.Health
use quant_execution.Base.{Text, ◌≢◌, List, [], ◌∷◌, codes}
use quant_execution.Config.{Env, Texts, Settings, or_default}

-- The settings that the readiness asks for.
abbrev pub readiness : Texts → Health.Settings
readiness t = record {
  watchlist_api_url = t.watchlist_api_url;
  alpaca_api_key = t.alpaca_api_key;
  alpaca_api_secret = t.alpaca_api_secret;
  cash_api_url = t.cash_api_url;
  cash_account_id = t.cash_account_id;
  market_close_paper = t.market_close_paper;
  market_close_live = t.market_close_live;
}

-- The variables that the service is not ready without.
abbrev pub required_variables : List Text
required_variables =
    codes "EXEC_WATCHLIST_API_URL"
    ∷ codes "EXEC_ALPACA_API_KEY"
    ∷ codes "EXEC_ALPACA_API_SECRET"
    ∷ codes "EXEC_CASH_API_URL"
    ∷ codes "EXEC_CASH_ACCOUNT_ID"
    ∷ codes "EXEC_MARKET_CLOSE_PAPER"
    ∷ codes "EXEC_MARKET_CLOSE_LIVE"
    ∷ []

-- Set, and not to the empty text.
abbrev pub IsGiven : Env → Text → Type 0
IsGiven env name = or_default [] (env name) ≢ []
