-- ===== src/Config.antt =====
-- The configuration of src/config.c: flags and bytes in RAM, and their copies in EEPROM at addresses 8
-- and 9.
pub mod Laws
use phatio.Prelude.{
  ℕ, zero, suc, ◌+◌, ◌-◌, ◌%◌, ◌<◌, Bool, true, false, not, List, [], ◌∷◌, Option, none, some,
  get_or, set, ltb, leb, ◌==◌, if◌then◌else◌,
}
use phatio.Prelude.Bytes.{set_bit, clear_bit, test_bit}

pub record Config : Type 0 where
  pub bit_config : ℕ
  pub byte_config : List ℕ
  pub eeprom_bits : ℕ
  pub eeprom_byte : ℕ

abbrev pub num_boolconfig : ℕ
num_boolconfig = 8

abbrev pub num_byteconfig : ℕ
num_byteconfig = 1

abbrev pub lio_config_initialized : ℕ
lio_config_initialized = 0

-- `get_bool_config(offset)`
unfoldable pub get_bool_config : ℕ → Config → Bool
unfolding test_bit
get_bool_config offset c = test_bit c.bit_config offset

unfoldable pub config_init : Config → Config
unfolding get_bool_config
config_init c =
    let read = record c {
      bit_config = c.eeprom_bits;
      byte_config = set c.byte_config 0 c.eeprom_byte;
    } in
    if get_bool_config lio_config_initialized read
    then record read { bit_config = 0; eeprom_bits = 0 }
    else read

unfoldable pub set_bool_value : ℕ → ℕ → Bool → ℕ
unfolding set_bit clear_bit
set_bool_value conf offset value = if value then set_bit conf offset else clear_bit conf offset

unfoldable pub set_bool_config : ℕ → Bool → Bool → Config → Config
unfolding set_bool_value
set_bool_config offset value permanent c =
    let changed = record c { bit_config = set_bool_value c.bit_config offset value } in
    if permanent
    then record changed { eeprom_bits = set_bool_value c.eeprom_bits offset value }
    else changed

-- `config` on the values of its arguments; `none` is a missing third argument
unfoldable pub config : ℕ → Option ℕ → ℕ → Config → Config
unfolding set_bool_value
config item none permanent c = c
config item (some value) permanent c =
    let flags = record c { bit_config = set_bool_value c.bit_config item (not (value == 0)) } in
    let bytes = record c { byte_config = set c.byte_config (item - num_boolconfig) value } in
    if ltb item num_boolconfig
    then if permanent == 0
      then flags
      else record flags { eeprom_bits = set_bool_value c.eeprom_bits item (not (value == 0)) }
    else if ltb (item - num_boolconfig) num_byteconfig
    then if permanent == 0 then bytes else record bytes { eeprom_byte = value }
    else c
