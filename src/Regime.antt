-- ===== src/Regime.antt =====
-- packages/feature_engine/regime.py: the labels of the market's state.
pub data RegimeLabel : Type 0 where
  risk_on risk_off distribution neutral : RegimeLabel
