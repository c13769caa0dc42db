-- ===== src/Heap.antt =====
-- The data area of src/util.c, from which conditions, schedules and variables are taken. Of
-- `lio_stop` only the flag `lio_stopped` is modelled here.
use phatio.Prelude.{
  ℕ, ◌+◌, ◌-◌, ◌%◌, ◌^◌, ◌≤◌, ◌<◌, ◌≡◌, Bool, true, Option, none, some, ltb, if◌then◌else◌, arith,
}

pub record Heap : Type 0 where
  pub free_data : ℕ
  pub lio_stopped : Bool

abbrev pub datasize : ℕ
datasize = 300

-- A pointer is the index into `data`, 0 of the code is `none`. `free_data` is a uint8_t.
unfoldable pub data_alloc : ℕ → Heap → Option ℕ × Heap
data_alloc size h =
    if ltb datasize ((h.free_data + size) % 2 ^ 16)
    then (none, record h { lio_stopped = true })
    else (some h.free_data, record h { free_data = (h.free_data + size) % 256 })

unfoldable pub data_free : ℕ → Heap → Heap
data_free size h = record h { free_data = (h.free_data + 2 ^ 16 - size) % 256 }

-- Two requests of up to 45 bytes, one after the other, are both met. The second
-- area starts where the first ends if that is before index 256; if not, it starts 256 bytes lower.
pub data_alloc_wraps :
    (m n : ℕ) (h : Heap)
    → h.free_data < 256
    → m ≤ 45
    → n ≤ 45
    → let h' = (data_alloc m h).1 in
      ((data_alloc m h).0 ≡ some h.free_data)
      × ((data_alloc n h').0
          ≡ some (if ltb (h.free_data + m) 256 then h.free_data + m else h.free_data + m - 256))
      × (h'.lio_stopped ≡ h.lio_stopped)
unfolding data_alloc
data_alloc_wraps m n h small hm hn = (ground arith, ground arith, ground arith)

-- Freeing as many bytes as were allocated last, if they were there, gives the data area as it was.
pub data_free-data_alloc :
    (size : ℕ) (h : Heap)
    → h.free_data < 256
    → h.free_data + size ≤ 300
    → data_free size (data_alloc size h).1 ≡ h
unfolding data_alloc data_free
data_free-data_alloc size h small fits = ground arith
