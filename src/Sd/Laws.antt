-- ===== src/Sd/Laws.antt =====
-- What `sd_read_block` and `wait_for` of src/sd.c give on any bus.
use phatio.Prelude.{
  ℕ, zero, suc, ◌+◌, ◌-◌, ◌*◌, ◌≤◌, ◌<◌, ◌≡◌, ◌≢◌, inl, inr, refl, ap, ◌∙◌, ==_iff, Bool, true,
  false, List, [], ◌∷◌, length, ◌==◌, if◌then◌else◌, Bool-cases, ltb, arith,
}
use phatio.Fat.{Disk}
use phatio.Sd.Bus.{M}
use phatio.Sd.{
  card_address, poll, wait_steps, wait_for, sd_read_start, read_bytes, read_started, sd_read_block,
}

module _ {S : Type 0} (exchange : ℕ → M S ℕ) (select deselect : M S (Unit {0})) where
  length-read_bytes : (n : ℕ) (s : S) → length (read_bytes exchange select deselect n s).0 ≡ n
  unfolding read_bytes
  length-read_bytes zero s = refl
  length-read_bytes (suc n) s = ap suc (length-read_bytes n (exchange 0xff s).1)

  abbrev pub BlockRead : Bool → Disk → Bool → Disk → Type 0
  BlockRead started sd ok sd' =
      (ok ≡ started)
      × (sd' ≡ (if started then record sd { buf = sd'.buf } else sd))
      × (length sd'.buf ≡ (if started then 512 else length sd.buf))

  read_started-BlockRead :
      (started : Bool) (sd : Disk) (s : S)
      → BlockRead started sd
          (read_started exchange select deselect started sd s).0.0
          (read_started exchange select deselect started sd s).0.1
  unfolding read_started
  read_started-BlockRead false sd s = (refl, refl, refl)
  read_started-BlockRead true sd s = (refl, refl, length-read_bytes 512 s)

  -- A block that cannot be read leaves the disk as it was; one that is read fills the buffer with 512
  -- bytes and changes nothing else. Which of the two is decided by `sd_read_start` on the address, in
  -- bytes for a card that is byte addressable.
  pub sd_read_block-BlockRead :
      (address : ℕ) (sd : Disk) (s : S)
      → BlockRead
          (sd_read_start exchange select deselect (card_address address sd) s).0
          sd
          (sd_read_block exchange select deselect address sd s).0.0
          (sd_read_block exchange select deselect address sd s).0.1
  unfolding sd_read_block
  sd_read_block-BlockRead address sd s =
      read_started-BlockRead (sd_read_start exchange select deselect (card_address address sd) s).0
        sd (sd_read_start exchange select deselect (card_address address sd) s).1

-- A bus that answers with the bytes of a list, one after the other, and then with 0xFF for ever.
abbrev pub answer : ℕ → M (List ℕ) ℕ
answer out [] = (0xff, [])
answer out (r ∷ rs) = (r, rs)

abbrev pub nothing : M (List ℕ) (Unit {0})
nothing s = (tt, s)

abbrev pub drop_busy : ℕ → List ℕ → List ℕ
drop_busy zero rs = rs
drop_busy (suc n) rs = 0xff ∷ drop_busy n rs

poll_busy :
    (required n k : ℕ) (rest : List ℕ)
    → required ≢ 0xff
    → k ≤ n
    → poll answer nothing nothing (λ r. r == required) n (drop_busy k (required ∷ rest))
      ≡ (required, rest)
unfolding poll
poll_busy required zero zero rest ne h = refl
poll_busy required zero (suc k) rest ne h = absurd (omega arith)
poll_busy required (suc n) zero rest ne h =
    let e : (required == required) ≡ true = ground arith in ground arith
poll_busy required (suc n) (suc k) rest ne h =
    ground (arith, poll_busy required n k rest ne (omega arith))

poll_late :
    (required n k : ℕ) (rs : List ℕ)
    → required ≢ 0xff
    → poll answer nothing nothing (λ r. r == required) n (drop_busy (suc n + k) rs)
      ≡ (0xff, drop_busy k rs)
unfolding poll
poll_late required zero k rs ne = let e : suc 0 + k ≡ suc k = omega arith in rw e
poll_late required (suc n) k rs ne =
    let e : suc (suc n) + k ≡ suc (suc n + k) = omega arith in
    let differ : (0xff == required) ≡ false = ground arith in
    rw (e, differ) (poll_late required n k rs ne)

differs : (required : ℕ) → required ≢ 0xff → (0xff == required) ≡ false
differs required ne = ground arith

not_zero : (n : ℕ) → n ≢ 0 → (n == 0) ≡ false
not_zero n ne = ground arith

abbrev poll_for : ℕ → M (List ℕ) ℕ
poll_for required = poll answer nothing nothing (λ r. r == required) 255

wait_steps_hit :
    (required n : ℕ) (rs rest : List ℕ)
    → poll_for required rs ≡ (required, rest)
    → wait_steps answer nothing nothing required (suc n) rs ≡ (required, rest)
unfolding wait_steps
wait_steps_hit required n rs rest p =
    let same : (required == required) ≡ true = (==_iff required required).1 refl in rw (p, same)

wait_steps_miss :
    (required n : ℕ) (rs rest : List ℕ)
    → required ≢ 0xff
    → n ≢ 0
    → poll_for required rs ≡ (0xff, rest)
    → wait_steps answer nothing nothing required (suc n) rs
      ≡ wait_steps answer nothing nothing required n rest
unfolding wait_steps
wait_steps_miss required n rs rest ne nz p =
    let differ : (0xff == required) ≡ false = differs required ne in
    let more : (n == 0) ≡ false = not_zero n nz in rw (p, differ, more)

wait_steps_busy :
    (required n k : ℕ) (rest : List ℕ)
    → required ≢ 0xff
    → k < 256 * n
    → wait_steps answer nothing nothing required n (drop_busy k (required ∷ rest))
      ≡ (required, rest)
wait_steps_busy required zero k rest ne h = absurd (omega arith)
wait_steps_busy required (suc n) k rest ne h = elim (Bool-cases (ltb k 256)) [
  | inl soon ↦
      wait_steps_hit required n (drop_busy k (required ∷ rest)) rest
        (poll_busy required 255 k rest ne (ground arith))
  | inr late ↦
      let e : k ≡ suc 255 + (k - 256) = ground arith in
      wait_steps_miss required n (drop_busy k (required ∷ rest))
        (drop_busy (k - 256) (required ∷ rest)) ne (ground arith)
        (ap (λ j. poll_for required (drop_busy j (required ∷ rest))) e
          ∙ poll_late required 255 (k - 256) (required ∷ rest) ne)
      ∙ wait_steps_busy required n (k - 256) rest ne (ground arith)
]

-- `wait_for` waits out a busy card: if the card answers 0xFF fewer than 2560 times for each
-- millisecond of the timeout and then the byte required, that byte is what is returned, and the next
-- byte read is the one behind it.
pub wait_for_busy :
    (required timeout k : ℕ) (rest : List ℕ)
    → required ≢ 0xff
    → k < 2560 * timeout
    → wait_for answer nothing nothing required timeout (drop_busy k (required ∷ rest))
      ≡ (required, rest)
unfolding wait_for
wait_for_busy required timeout k rest ne h =
    wait_steps_busy required (timeout * 10) k rest ne (omega arith)
