-- ===== src/Risk/Policy.antt =====
-- `RiskPolicy` of apps/api/app/services/risk_engine.py.
use binance_futures_algo_bot.Common.{if◌then◌else◌}
use binance_futures_algo_bot.Float.{Float, ◌<?◌, dec}
use binance_futures_algo_bot.Risk.Schemas.{Result, ok, err, validation_error}

pub record RiskPolicy (F : Type 0) : Type 0 where
  pub max_account_risk_pct : F
  pub base_risk_per_trade_pct : F
  pub max_single_trade_pct : F
  pub min_score_to_trade : F
  pub default_max_cluster_risk_pct : F
  pub default_max_symbol_risk_pct : F
  pub high_volatility_threshold_pct : F

module _ {F : Type 0} ⦃f : Float F⦄ where
  abbrev pub default_policy : RiskPolicy F
  default_policy = record {
    max_account_risk_pct = dec 50 1;
    base_risk_per_trade_pct = dec 10 1;
    max_single_trade_pct = dec 125 2;
    min_score_to_trade = dec 600 1;
    default_max_cluster_risk_pct = dec 25 1;
    default_max_symbol_risk_pct = dec 15 1;
    high_volatility_threshold_pct = dec 40 1;
  }

  -- the three guards of `__post_init__`, whose `ValueError`s are one error here
  unfoldable pub new_policy : RiskPolicy F → Result (RiskPolicy F)
  new_policy p =
      if p.high_volatility_threshold_pct <? dec 30 1
      then err validation_error
      else if p.default_max_cluster_risk_pct <? p.default_max_symbol_risk_pct
      then err validation_error
      else if p.max_account_risk_pct <? p.default_max_cluster_risk_pct
      then err validation_error
      else ok p
