-- ===== src/Config/Laws.antt =====
-- What a setting of src/config.c changes and what it keeps.
use phatio.Prelude.{
  ℕ, ◌<◌, ◌≡◌, ◌≢◌, Bool, true, false, not, ◌&&◌, some, ◌==◌, if◌then◌else◌, arith,
}
use phatio.Prelude.Bytes.{test_bit, test_bit-set_bit, test_bit-clear_bit, bits_in_byte}
use phatio.Config.{Config, get_bool_config, config_init, set_bool_value, set_bool_config, config}

-- both copies of the flags are bytes
pub record IsValid (c : Config) : Type 0 where
  pub ram : c.bit_config < 256
  pub eeprom : c.eeprom_bits < 256

set_bool_value-lt :
    (conf offset : ℕ) (value : Bool)
    → conf < 256
    → offset < 8
    → set_bool_value conf offset value < 256
unfolding set_bool_value
set_bool_value-lt conf offset true h o = (bits_in_byte conf offset h o).0
set_bool_value-lt conf offset false h o = (bits_in_byte conf offset h o).1

test_bit-set_bool_value :
    (conf offset j : ℕ) (value : Bool)
    → conf < 256
    → offset < 8
    → j < 8
    → test_bit (set_bool_value conf offset value) j
      ≡ (if offset == j then value else test_bit conf j)
unfolding set_bool_value
test_bit-set_bool_value conf offset j true h o lt = test_bit-set_bit conf offset j h o lt
test_bit-set_bool_value conf offset j false h o lt = test_bit-clear_bit conf offset j h o lt

-- `(config id value persist)` on a flag sets that flag and no other, in RAM and, if it is to persist,
-- in EEPROM too; else EEPROM keeps its value.
pub config_flag :
    (item value permanent j : ℕ) (c : Config)
    → IsValid c
    → item < 8
    → j < 8
    → (get_bool_config j (config item (some value) permanent c)
        ≡ (if item == j then not (value == 0) else get_bool_config j c))
      × (test_bit (config item (some value) permanent c).eeprom_bits j ≡ (
          if not (permanent == 0) && item == j then not (value == 0) else test_bit c.eeprom_bits j))
      × IsValid (config item (some value) permanent c)
unfolding config set_bool_config get_bool_config
config_flag item value permanent j c v hi hj = ground (
  arith,
  test_bit-set_bool_value c.bit_config item j (not (value == 0)) v.ram hi hj,
  test_bit-set_bool_value c.eeprom_bits item j (not (value == 0)) v.eeprom hi hj,
  set_bool_value-lt c.bit_config item (not (value == 0)) v.ram hi,
  set_bool_value-lt c.eeprom_bits item (not (value == 0)) v.eeprom hi,
)

-- A flag other than 0 that was stored to persist is what the next start reads, if flag 0 is clear in
-- EEPROM.
pub config_init-config :
    (item value : ℕ) (c : Config)
    → IsValid c
    → item < 8
    → item ≢ 0
    → test_bit c.eeprom_bits 0 ≡ false
    → get_bool_config item (config_init (config item (some value) 1 c)) ≡ not (value == 0)
unfolding config_init config set_bool_config get_bool_config
config_init-config item value c v hi nz fresh = ground (
  arith,
  test_bit-set_bool_value c.eeprom_bits item item (not (value == 0)) v.eeprom hi hi,
  test_bit-set_bool_value c.eeprom_bits item 0 (not (value == 0)) v.eeprom hi (omega arith),
)
