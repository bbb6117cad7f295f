-- ===== src/AntiWhale/Runs.antt =====
-- Runs of the anti-whale engine.
use unauthority_core.Base.{ℕ, Str, List, [], ◌∷◌}
use unauthority_core.AntiWhale.{
  AntiWhaleEngine, new_block, register_transaction, register_burn, reset_block_activity,
}

-- The methods that change the engine, with their arguments.
pub data Op : Type 0 where
  opens : ℕ → Op
  transacts : Str → ℕ → Op
  burns : Str → ℕ → Op
  resets : Op

abbrev pub step : ℕ → Op → AntiWhaleEngine → AntiWhaleEngine
step now (opens n) e = new_block now n e
step now (transacts address base_fee) e = (register_transaction now address base_fee e).1
step now (burns address amount) e = (register_burn now address amount e).1
step now resets e = reset_block_activity now e

-- Each operation with its time; the clock may go in any direction.
unfoldable pub run : List (ℕ × Op) → AntiWhaleEngine → AntiWhaleEngine
run [] e = e
run ((now, op) ∷ ops) e = run ops (step now op e)
