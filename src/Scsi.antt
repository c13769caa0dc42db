-- ===== src/Scsi.antt =====
-- The SCSI commands of src/scsi_impl.c. LUFA's part is a parameter: the bytes of the inquiry response
-- and of a sense response, and `read_blocks` and `write_blocks` (src/disk.c) as their effect on the
-- storage. Command codes and sense codes are those of the SCSI standard, which LUFA's constants name.
pub mod Laws
use phatio.Prelude.{
  ℕ, zero, suc, ◌+◌, ◌-◌, ◌*◌, ◌/◌, ◌%◌, ◌^◌, min, Bool, true, false, not, ◌&&◌, ◌||◌, List, [],
  ◌∷◌, ◌++◌, bit_and, get_or, take, replicate, length, ltb, leb, ◌==◌, if◌then◌else◌,
}

-- what `set_error_response` sets in `error_response`
pub record Sense : Type 0 where
  pub key : ℕ
  pub code : ℕ
  pub qualifier : ℕ

-- the command block, and the bytes sent to the host
pub record Device : Type 0 where
  pub command : List ℕ
  pub data_transfer_length : ℕ
  pub error_response : Sense
  pub sent : List ℕ

abbrev pub arg : Device → ℕ → ℕ
arg d i = get_or d.command i 0

unfoldable pub set_error_response : ℕ → ℕ → ℕ → Device → Device
set_error_response key code qualifier d = record d {
  error_response = record { key = key; code = code; qualifier = qualifier };
}

abbrev pub send : List ℕ → Device → Device
send bytes d = record d { sent = d.sent ++ bytes }

-- `DataTransferLength -= n`
abbrev pub transferred : ℕ → Device → Device
transferred n d = record d { data_transfer_length = (d.data_transfer_length + 2 ^ 32 - n) % 2 ^ 32 }

-- big-endian arguments of the command
abbrev pub be16 : Device → ℕ → ℕ
be16 d i = 256 * arg d i + arg d (i + 1)

abbrev pub be32 : Device → ℕ → ℕ
be32 d i = 65536 * be16 d i + be16 d (i + 2)

-- the bytes of a uint32_t, most significant first
abbrev pub bytes_be : ℕ → List ℕ
bytes_be n = (n / 2 ^ 24) % 256 ∷ (n / 2 ^ 16) % 256 ∷ (n / 2 ^ 8) % 256 ∷ n % 256 ∷ []

abbrev pub illegal_request : ℕ
illegal_request = 0x05

abbrev pub invalid_command : ℕ
invalid_command = 0x20

abbrev pub out_of_range : ℕ
out_of_range = 0x21

abbrev pub invalid_field : ℕ
invalid_field = 0x24

module _ (inquiry_response : List ℕ) (sense_bytes : Sense → List ℕ) where
  unfoldable pub command_inquiry : Device → Bool × Device
  unfolding set_error_response
  command_inquiry d =
      let allocation_length = be16 d 3 in
      let bytes_transferred = min allocation_length (length inquiry_response) in
      if not (bit_and (arg d 1) 3 == 0) || not (arg d 2 == 0)
      then (false, set_error_response illegal_request invalid_field 0 d)
      else (
        true,
        transferred bytes_transferred (
            send (replicate (allocation_length - bytes_transferred) 0)
              (send (take bytes_transferred inquiry_response) d)),
      )

  unfoldable pub command_request_sense : Device → Bool × Device
  command_request_sense d =
      let response = sense_bytes d.error_response in
      let allocation_length = arg d 4 in
      let bytes_transferred = min allocation_length (length response) in
      (
        true,
        transferred bytes_transferred (
            send (replicate (allocation_length - bytes_transferred) 0)
              (send (take bytes_transferred response) d)),
      )

  unfoldable pub command_read_capacity_10 : ℕ → Device → Bool × Device
  command_read_capacity_10 sd_size d = (
    true,
    transferred 8 (send (bytes_be 512) (send (bytes_be ((sd_size + 2 ^ 32 - 1) % 2 ^ 32)) d)),
  )

  unfoldable pub command_mode_sense_6 : Device → Bool × Device
  command_mode_sense_6 d = (true, transferred 4 (send (replicate 4 0) d))

  module _ {S : Type 0} (read_blocks write_blocks : ℕ → ℕ → S → S) where
    unfoldable pub command_read_write_10 : ℕ → Bool → Device → S → Bool × Device × S
    unfolding set_error_response
    command_read_write_10 sd_size is_write d s =
        let block_address = be32 d 2 in
        let total_blocks = be16 d 7 in
        if leb sd_size block_address
        then (false, set_error_response illegal_request out_of_range 0 d, s)
        else (
          true,
          transferred (total_blocks * 512) d,
          if is_write
              then write_blocks block_address total_blocks s
              else read_blocks block_address total_blocks s,
        )

    -- the switch of `scsi_command`
    unfoldable pub dispatch : ℕ → Device → S → Bool × Device × S
    unfolding command_inquiry command_request_sense command_read_capacity_10 command_mode_sense_6
        command_read_write_10
    dispatch sd_size d s =
        let op = arg d 0 in
        if op == 0x12
        then ((command_inquiry d).0, (command_inquiry d).1, s)
        else if op == 0x03
        then ((command_request_sense d).0, (command_request_sense d).1, s)
        else if op == 0x25
        then ((command_read_capacity_10 sd_size d).0, (command_read_capacity_10 sd_size d).1, s)
        else if op == 0x2a || op == 0x28
        then command_read_write_10 sd_size (op == 0x2a) d s
        else if op == 0x1a
        then ((command_mode_sense_6 d).0, (command_mode_sense_6 d).1, s)
        else if op == 0x00 || op == 0x2f || op == 0x1d
        then (true, record d { data_transfer_length = 0 }, s)
        else (false, set_error_response illegal_request invalid_command 0 d, s)

    unfoldable pub scsi_command : ℕ → Device → S → Bool × Device × S
    unfolding dispatch set_error_response
    scsi_command sd_size d s =
        let (succeeded, d', s') = dispatch sd_size d s in
        (succeeded, if succeeded then set_error_response 0 0 0 d' else d', s')
