-- ===== src/Risk/Exposure.antt =====
-- Clusters of correlated symbols in `RiskEngine`, the multiplier for correlated positions, and the
-- risk that the portfolio already carries.
use binance_futures_algo_bot.Common.{map, Bool, true, false, List, [], ◌∷◌, if◌then◌else◌, select}
use binance_futures_algo_bot.Common.Texts.{
  Text, codes, text_eq, text_in, upper, starts_with, remove_suffix,
}
use binance_futures_algo_bot.Float.{Float, ◌⊕◌, ◌⊗◌, ◌⊘◌, ◌≤?◌, dec, nought, round_to, fmin, fmax}
use binance_futures_algo_bot.Risk.Schemas.{
  PositionExposure, Cluster, btc_core, eth_core, large_alt, alts,
}

unfoldable pub cluster_eq : Cluster → Cluster → Bool
cluster_eq btc_core btc_core = true
cluster_eq eth_core eth_core = true
cluster_eq large_alt large_alt = true
cluster_eq alts alts = true
cluster_eq _ _ = false

unfoldable pub symbol_cluster : Text → Cluster
symbol_cluster symbol =
    let token = remove_suffix (upper symbol) (codes "USDT") in
    if starts_with token (codes "BTC")
    then btc_core
    else if starts_with token (codes "ETH")
    then eth_core
    else if text_in token (
        codes "BNB"
        ∷ codes "SOL"
        ∷ codes "XRP"
        ∷ codes "ADA"
        ∷ codes "DOGE"
        ∷ codes "LINK"
        ∷ codes "AVAX"
        ∷ [])
    then large_alt
    else alts

pub record PortfolioMetrics (F : Type 0) : Type 0 where
  pub cluster_key : Cluster
  pub portfolio_before : F
  pub symbol_before : F
  pub cluster_before : F

module _ {F : Type 0} ⦃f : Float F⦄ where
  -- the table has all six pairs of different clusters, so its default is never read
  unfoldable pub correlation_coefficient : Cluster → Cluster → F
  correlation_coefficient btc_core eth_core = dec 75 2
  correlation_coefficient eth_core btc_core = dec 75 2
  correlation_coefficient btc_core large_alt = dec 6 1
  correlation_coefficient large_alt btc_core = dec 6 1
  correlation_coefficient eth_core large_alt = dec 65 2
  correlation_coefficient large_alt eth_core = dec 65 2
  correlation_coefficient btc_core alts = dec 5 1
  correlation_coefficient alts btc_core = dec 5 1
  correlation_coefficient eth_core alts = dec 55 2
  correlation_coefficient alts eth_core = dec 55 2
  correlation_coefficient large_alt alts = dec 7 1
  correlation_coefficient alts large_alt = dec 7 1
  correlation_coefficient _ _ = dec 95 2

  -- one round of the loop over the positions
  unfoldable pub add_pressure : Cluster → F → F → PositionExposure F → F
  add_pressure target base pressure p =
      pressure
      ⊕ correlation_coefficient target (symbol_cluster p.symbol)
        ⊗ fmax nought (fmin (dec 10 1) (p.risk_pct ⊘ base))

  unfoldable pub aggregate_pressure : Cluster → F → F → List (PositionExposure F) → F
  aggregate_pressure target base pressure [] = pressure
  aggregate_pressure target base pressure (p ∷ ps) =
      aggregate_pressure target base (add_pressure target base pressure p) ps

  -- the multiplier for a pressure
  unfoldable pub pressure_multiplier : F → F
  pressure_multiplier pressure =
      if dec 8 1 ≤? pressure
      then dec 72 2
      else if dec 6 1 ≤? pressure
      then dec 84 2
      else if dec 45 2 ≤? pressure
      then dec 92 2
      else dec 10 1

  unfoldable pub correlation_pressure : Text → List (PositionExposure F) → F → F
  correlation_pressure symbol positions max_risk_pct =
      fmin (dec 10 1)
        (aggregate_pressure (symbol_cluster symbol) (fmax max_risk_pct (dec 1 4)) nought positions)

  unfoldable pub correlation_multiplier : Text → List (PositionExposure F) → F → F × F
  unfolding correlation_pressure pressure_multiplier
  correlation_multiplier symbol [] max_risk_pct = (dec 10 1, nought)
  correlation_multiplier symbol (p ∷ ps) max_risk_pct =
      let pressure = correlation_pressure symbol (p ∷ ps) max_risk_pct in
      (pressure_multiplier pressure, pressure)

  -- `sum(position.risk_pct for position in positions)`
  unfoldable pub sum_risk : List (PositionExposure F) → F
  sum_risk ps = f.sum (map (λ p. p.risk_pct) ps)

  unfoldable pub portfolio_metrics : Text → F → List (PositionExposure F) → PortfolioMetrics F
  portfolio_metrics symbol existing_risk_pct positions =
      let symbol_upper = upper symbol in
      let cluster_key = symbol_cluster symbol_upper in
      let sum_positions_risk = round_to 4 (sum_risk positions) in
      record {
        cluster_key = cluster_key;
        portfolio_before = round_to 4 (fmin (dec 1000 1) (existing_risk_pct ⊕ sum_positions_risk));
        symbol_before =
            round_to 4 (sum_risk (select (λ p. text_eq (upper p.symbol) symbol_upper) positions));
        cluster_before =
            round_to 4
              (sum_risk (select (λ p. cluster_eq (symbol_cluster p.symbol) cluster_key) positions));
      }
