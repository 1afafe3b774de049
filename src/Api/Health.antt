-- ===== src/Api/Health.antt =====
-- src/quant_execution/api/routes/health.py, `missing_readiness_config` of
-- src/quant_execution/config.py and what `check_database` of src/quant_execution/db.py returns.
use quant_execution.Api.{Body, Response, answered, error_response}
use quant_execution.Base.{
  Text, ◌≡◌, refl, ◌≢◌, ◌↔◌, Bool, true, false, Option, none, some, List, [], ◌∷◌, ◌++◌, arith,
  codes, All,
}

-- The settings that the readiness of the service asks for, of `Settings`.
pub record Settings : Type 0 where
  pub watchlist_api_url : Text
  pub alpaca_api_key : Text
  pub alpaca_api_secret : Text
  pub cash_api_url : Text
  pub cash_account_id : Text
  pub market_close_paper : Text
  pub market_close_live : Text

unfoldable pub required_settings : Settings → List (Text × Text)
required_settings s =
    (codes "EXEC_WATCHLIST_API_URL", s.watchlist_api_url)
    ∷ (codes "EXEC_ALPACA_API_KEY", s.alpaca_api_key)
    ∷ (codes "EXEC_ALPACA_API_SECRET", s.alpaca_api_secret)
    ∷ (codes "EXEC_CASH_API_URL", s.cash_api_url)
    ∷ (codes "EXEC_CASH_ACCOUNT_ID", s.cash_account_id)
    ∷ (codes "EXEC_MARKET_CLOSE_PAPER", s.market_close_paper)
    ∷ (codes "EXEC_MARKET_CLOSE_LIVE", s.market_close_live)
    ∷ []

-- `[name for name, value in required.items() if not value]`
abbrev unset : List (Text × Text) → List Text
unset [] = []
unset ((name, []) ∷ rest) = name ∷ unset rest
unset ((name, c ∷ value) ∷ rest) = unset rest

-- `missing_readiness_config`
unfoldable pub missing_readiness_config : Settings → List Text
missing_readiness_config s = unset (required_settings s)

-- `", ".join(names)`
abbrev comma_joined : List Text → Text
comma_joined [] = []
comma_joined (name ∷ []) = name
comma_joined (name ∷ next ∷ names) = name ++ (codes ", " ++ comma_joined (next ∷ names))

-- `check_database`: the name of the `SQLAlchemyError` that was raised, or none.
unfoldable pub check_database : Option Text → Bool × Text
check_database none = (true, codes "ok")
check_database (some name) = (false, codes "database check failed: " ++ name)

-- `health`
unfoldable pub health : Response
health = answered (Body.healthy (codes "quant-execution-api"))

abbrev not_ready : Text → Response
not_ready detail = error_response 503 (codes "not_ready") detail

abbrev ready_with : List Text → Response
ready_with [] = answered Body.ok
ready_with (name ∷ names) =
    not_ready (codes "missing required config: " ++ comma_joined (name ∷ names))

abbrev checked : Bool × Text → List Text → Response
checked (true, detail) missing = ready_with missing
checked (false, detail) missing = not_ready detail

-- `ready`
unfoldable pub ready : Option Text → Settings → Response
ready failure s = checked (check_database failure) (missing_readiness_config s)

unset→All : (xs : List (Text × Text)) → unset xs ≡ [] → All (λ x. x.1 ≢ []) xs
unset→All [] h = tt
unset→All ((name, []) ∷ rest) h = cc
unset→All ((name, c ∷ value) ∷ rest) h = ((λ e. cc e), unset→All rest h)

All→unset : (xs : List (Text × Text)) → All (λ x. x.1 ≢ []) xs → unset xs ≡ []
All→unset [] h = refl
All→unset ((name, []) ∷ rest) h = absurd (h.0 refl)
All→unset ((name, c ∷ value) ∷ rest) h = All→unset rest h.1

ready_with_iff : (missing : List Text) → ((ready_with missing).status ≡ 200) ↔ (missing ≡ [])
ready_with_iff [] = ((λ e. refl), λ e. refl)
ready_with_iff (name ∷ names) = ((λ e. absurd (omega (arith, e))), λ e. cc e)

-- `/ready` answers 200 exactly when the database answers and none of the seven settings is empty.
pub ready_iff :
    (failure : Option Text) (s : Settings)
    → ((ready failure s).status ≡ 200)
      ↔ ((failure ≡ none) × All (λ setting. setting.1 ≢ []) (required_settings s))
unfolding ready check_database missing_readiness_config
ready_iff none s =
    let settled = ready_with_iff (unset (required_settings s)) in
    (
      (λ e. (refl, unset→All (required_settings s) (settled.0 e))),
      λ h. settled.1 (All→unset (required_settings s) h.1),
    )
ready_iff (some name) s = ((λ e. absurd (omega (arith, e))), λ h. cc (h.0))
