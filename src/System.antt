-- ===== src/System.antt =====
-- src/modules/system: SystemConfigService. The row with id `global` is made when it is first read.
pub mod KillSwitch
use trading_backend.Base.{
  ◌==◌, if◌then◌else◌, or_default, some_and, ℕ, Bool, true, false, not, ◌||◌, Option, none, some,
}
use trading_backend.Store.Entities.{SystemConfig}
use trading_backend.Store.Enums.{SystemMode}
use trading_backend.Store.Events.{kill_switch_changed}
use trading_backend.Store.World.{Action, ◌>>=◌, ◌>>◌, pure, modify, emit, ok}

abbrev pub default_config : SystemConfig
default_config = record { mode = SystemMode.paper_trading; kill_switch = false }

abbrev pub same_bool : Bool → Bool → Bool
same_bool true b = b
same_bool false b = not b

abbrev mode_index : SystemMode → ℕ
mode_index SystemMode.research = 0
mode_index SystemMode.backtesting = 1
mode_index SystemMode.paper_trading = 2
mode_index SystemMode.assisted_trading = 3
mode_index SystemMode.live_limited = 4
mode_index SystemMode.safe_mode = 5
mode_index SystemMode.paused = 6

abbrev pub same_mode : SystemMode → SystemMode → Bool
same_mode a b = mode_index a == mode_index b

-- The fields of `data` that are set.
abbrev pub apply_update : Option SystemMode → Option Bool → SystemConfig → SystemConfig
apply_update mode kill_switch c = record {
  mode = or_default mode c.mode;
  kill_switch = or_default kill_switch c.kill_switch;
}

module _ {W : Type 0} where
  -- `getConfig`, an upsert with an empty update
  unfoldable pub get_config : Action W SystemConfig
  get_config w = elim w.system_config [
    | none ↦ (ok default_config, record w { system_config = some default_config })
    | some c ↦ (ok c, w)
  ]

  -- `updateConfig`
  unfoldable pub update_config : Option SystemMode → Option Bool → Action W SystemConfig
  unfolding get_config
  update_config mode kill_switch = do
    previous ← get_config
    let updated = apply_update mode kill_switch previous
    modify λ w. record w { system_config = some updated }
    let switched = some_and (λ k. not (same_bool k previous.kill_switch)) kill_switch
    let moved = some_and (λ m. not (same_mode m previous.mode)) mode
    if switched || moved
        then emit (kill_switch_changed updated.kill_switch updated.mode)
        else pure tt
    pure updated
