-- ===== src/Pins/PortLaws.antt =====
-- src/iopin.c: the 20 pins are independent.
use phatio.Prelude.{
  ℕ, ◌%◌, ◌<◌, ◌≡◌, ◌≢◌, ◌⊎◌, inl, inr, refl, ap, Bool, true, false, not, ◌&&◌, ◌||◌, List, get_or,
  set, length, get_or-set_self, get_or-set_ne, ltb, ==_iff, ◌==◌, if◌then◌else◌, Bool-cases, arith,
}
use phatio.Prelude.Bytes.{
  all_below, all_below_sound, set_bit, clear_bit, test_bit, test_bit-set_bit, test_bit-clear_bit,
}
use phatio.Pins.Ports.{
  Registers, iopins, port_of, bit_of, write_bit, read_bit, set_out, get_out, set_dir, get_dir,
}

-- a bank of registers: one byte for each of the ports B to F
pub record IsBank (bank : List ℕ) : Type 0 where
  pub size : length bank ≡ 13
  pub bytes : (i : ℕ) → get_or bank i 0 < 256

abbrev pub iopin : ℕ → ℕ
iopin i = get_or iopins i 0

abbrev fits_law : ℕ → Bool
fits_law i = ltb (port_of (iopin i)) 13 && ltb (bit_of (iopin i)) 8

fits_table : all_below 20 fits_law ≡ true
fits_table = refl

iopin_fits : (i : ℕ) → i < 20 → (port_of (iopin i) < 13) × (bit_of (iopin i) < 8)
iopin_fits i h =
    let t = all_below_sound 20 fits_law i fits_table h in (ground (arith, t), ground (arith, t))

-- two pins are one, or they differ in the port or in the bit
abbrev apart_law : ℕ → ℕ → Bool
apart_law i j =
    i == j
    || not (port_of (iopin i) == port_of (iopin j))
    || not (bit_of (iopin i) == bit_of (iopin j))

apart_table : all_below 20 (λ i. all_below 20 (λ j. apart_law i j)) ≡ true
apart_table = refl

iopin_apart : (i j : ℕ) → i < 20 → j < 20 → apart_law i j ≡ true
iopin_apart i j hi hj =
    all_below_sound 20 (λ j. apart_law i j) j
      (all_below_sound 20 (λ i. all_below 20 (λ j. apart_law i j)) i apart_table hi) hj

abbrev written : ℕ → ℕ → ℕ → ℕ
written reg bit v = if v == 0 then clear_bit reg bit else set_bit reg bit

test_bit-written :
    (reg k j v : ℕ)
    → reg < 256
    → k < 8
    → j < 8
    → test_bit (written reg k v) j ≡ (if k == j then not (v == 0) else test_bit reg j)
test_bit-written reg k j v hr hk hj = elim (Bool-cases (v == 0)) [
  | inl z ↦ rw z (test_bit-clear_bit reg k j hr hk hj)
  | inr nz ↦ rw nz (test_bit-set_bit reg k j hr hk hj)
]

read_same_port :
    (bank : List ℕ) (p q k j v : ℕ)
    → IsBank bank
    → p ≡ q
    → q < 13
    → k < 8
    → j < 8
    → test_bit (get_or (set bank p (written (get_or bank p 0) k v)) q 0) j
      ≡ (if k == j then not (v == 0) else test_bit (get_or bank q 0) j)
read_same_port bank p q k j v b e hq hk hj =
    rw (e, get_or-set_self bank q (written (get_or bank q 0) k v) 0 (omega (arith, b.size)))
      (test_bit-written (get_or bank q 0) k j v (b.bytes q) hk hj)

as_number :
    (one z t : Bool)
    → (if (if one then not z else t) then 1 else 0)
      ≡ (let r : ℕ = (if one then (if z then 0 else 1) else (if t then 1 else 0)) in r)
as_number true z t = ground arith
as_number false z t = refl

-- What a pin reads after a write of `v` to a pin: its own bit is set or cleared, and no other pin's.
pub read_bit-write_bit :
    (bank : List ℕ) (i j v : ℕ)
    → IsBank bank
    → i < 20
    → j < 20
    → read_bit (write_bit bank (iopin i) v) (iopin j)
      ≡ (if i == j then (if v == 0 then 0 else 1) else read_bit bank (iopin j))
unfolding read_bit write_bit
read_bit-write_bit bank i j v b hi hj = elim (Bool-cases (port_of (iopin i) == port_of (iopin j))) [
  | inl same ↦
      let e : port_of (iopin i) ≡ port_of (iopin j) = (==_iff _ _).0 same in
      rw
        (
          read_same_port bank (port_of (iopin i)) (port_of (iopin j)) (bit_of (iopin i))
              (bit_of (iopin j)) v b e (iopin_fits j hj).0 (iopin_fits i hi).1 (iopin_fits j hj).1,
          same_pin (Bool-cases (i == j)) e,
        )
        (as_number (i == j) (v == 0) _)
  | inr other ↦
      let ne : port_of (iopin i) ≢ port_of (iopin j) = λ e. (let t = (==_iff _ _).1 e in cc) in
      rw (
        get_or-set_ne bank (port_of (iopin i)) (port_of (iopin j))
            (written (get_or bank (port_of (iopin i)) 0) (bit_of (iopin i)) v) 0 ne,
        diff_pin (Bool-cases (i == j)) ne,
      )
]
  where
    same_pin :
        (i == j ≡ true) ⊎ (i == j ≡ false)
        → port_of (iopin i) ≡ port_of (iopin j)
        → (bit_of (iopin i) == bit_of (iopin j)) ≡ (i == j)
    same_pin (inl one) p = let e : i ≡ j = ground arith in rw e (ground arith)
    same_pin (inr two) p = ground (arith, iopin_apart i j hi hj)

    diff_pin :
        (i == j ≡ true) ⊎ (i == j ≡ false)
        → port_of (iopin i) ≢ port_of (iopin j)
        → (i == j) ≡ false
    diff_pin (inl one) p =
        let e : i ≡ j = ground arith in absurd (p (ap (λ x. port_of (iopin x)) e))
    diff_pin (inr two) p = two

-- Setting the output or the direction of one of the 20 pins gives that pin the value 0 or 1 that the
-- low byte of what is passed stands for, and leaves the output and direction of every other pin alone,
-- and of that pin the other of the two.
pub pins_independent :
    (r : Registers) (i j v : ℕ)
    → IsBank r.port
    → IsBank r.ddr
    → i < 20
    → j < 20
    → (get_out (iopin j) (set_out (iopin i) v r)
        ≡ (if i == j then (if v % 256 == 0 then 0 else 1) else get_out (iopin j) r))
      × (get_dir (iopin j) (set_dir (iopin i) v r)
          ≡ (if i == j then (if v % 256 == 0 then 0 else 1) else get_dir (iopin j) r))
      × (get_dir (iopin j) (set_out (iopin i) v r) ≡ get_dir (iopin j) r)
      × (get_out (iopin j) (set_dir (iopin i) v r) ≡ get_out (iopin j) r)
unfolding get_out set_out get_dir set_dir
pins_independent r i j v hp hd hi hj = (
  read_bit-write_bit r.port i j (v % 256) hp hi hj,
  read_bit-write_bit r.ddr i j (v % 256) hd hi hj,
  refl,
  refl,
)
