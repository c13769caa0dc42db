-- ===== src/Scsi/Laws.antt =====
-- What the SCSI commands of src/scsi_impl.c answer.
use phatio.Prelude.{
  ℕ, ◌+◌, ◌-◌, ◌*◌, ◌%◌, ◌^◌, ◌≡◌, ◌≢◌, ◌⊎◌, inl, inr, min, Bool, true, false, List, ◌++◌, bit_and,
  take, replicate, length, length-append, length-take, length-replicate, ltb, if◌then◌else◌,
  Bool-cases, arith,
}
use phatio.Scsi.{
  Sense, Device, arg, be16, be32, illegal_request, out_of_range, transferred, scsi_command,
}

module _ (inquiry_response : List ℕ) (sense_bytes : Sense → List ℕ) {S : Type 0}
    (read_blocks write_blocks : ℕ → ℕ → S → S) (sd_size : ℕ) (d : Device) (s : S) where
  abbrev run : Bool × Device × S
  run = scsi_command inquiry_response sense_bytes read_blocks write_blocks sd_size d s

  -- The sense data tells the host of the last command: all zero after one that succeeded, and the key
  -- "illegal request" after one that failed.
  pub scsi_command_sense :
      ((run.0 ≡ true) × (run.1.error_response ≡ record { key = 0; code = 0; qualifier = 0 }))
      ⊎ ((run.0 ≡ false) × (run.1.error_response.key ≡ illegal_request))
  unfolding scsi_command
  scsi_command_sense = elim (Bool-cases run.0) [
    | inl h ↦ inl (h, ground arith)
    | inr h ↦ inr (h, ground arith)
  ]

  -- Only READ(10) and WRITE(10) touch the storage.
  pub scsi_command_storage : arg d 0 ≢ 0x28 → arg d 0 ≢ 0x2a → run.2 ≡ s
  unfolding scsi_command
  scsi_command_storage r w = ground arith

  -- A READ(10) or WRITE(10) whose first block is on the card is passed on whole, whatever its number
  -- of blocks, and any other one fails with "address out of range" and leaves the storage alone.
  pub scsi_command_read_write :
      (is_write : Bool)
      → arg d 0 ≡ (if is_write then 0x2a else 0x28)
      → run ≡ (
          if ltb (be32 d 2) sd_size
          then (
            true,
            record (transferred (be16 d 7 * 512) d) {
              error_response = record { key = 0; code = 0; qualifier = 0 };
            },
            (if is_write
                then write_blocks (be32 d 2) (be16 d 7) s
                else read_blocks (be32 d 2) (be16 d 7) s),
          )
          else (
            false,
            record d {
              error_response = record { key = illegal_request; code = out_of_range; qualifier = 0 };
            },
            s,
          ))
  unfolding scsi_command
  scsi_command_read_write true e = ground arith
  scsi_command_read_write false e = ground arith

  -- An INQUIRY with no optional bits sends as many bytes as the host allows for, and takes off the
  -- transfer length only those of the response itself.
  pub scsi_command_inquiry :
      arg d 0 ≡ 0x12
      → bit_and (arg d 1) 3 ≡ 0
      → arg d 2 ≡ 0
      → (run.0 ≡ true)
        × (length run.1.sent ≡ length d.sent + be16 d 3)
        × (run.1.data_transfer_length
            ≡ (d.data_transfer_length + 2 ^ 32 - min (be16 d 3) (length inquiry_response)) % 2 ^ 32)
  unfolding scsi_command
  scsi_command_inquiry op bits page =
      let n = min (be16 d 3) (length inquiry_response) in
      let body = take n inquiry_response in
      let pad = replicate {A = ℕ} (be16 d 3 - n) 0 in
      ground (
        arith,
        length-append (d.sent ++ body) pad,
        length-append d.sent body,
        length-take n inquiry_response,
        length-replicate {A = ℕ} (be16 d 3 - n) 0,
      )
