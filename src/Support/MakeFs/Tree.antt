-- ===== src/Support/MakeFs/Tree.antt =====
-- `main` of support/make_fs.c: the files and directories of a card. The generated files.h creates the
-- files of a list, with their names and texts, in /io/etc, and those of another one in /io/lib.
use phatio.Prelude.{
  ℕ, zero, suc, ◌+◌, ◌*◌, ◌/◌, ◌%◌, none, some, List, [], ◌∷◌, drop, ltb, if◌then◌else◌,
}
use phatio.Support.MakeFs.{Volume, root_dir_start, format, create_file, create_directory}

-- `sprintf(name, "%d", i)` of a number below 100
abbrev pub print_decimal : ℕ → List ℕ
print_decimal i = if ltb i 10 then (48 + i) ∷ [] else (48 + i / 10) ∷ (48 + i % 10) ∷ []

-- the files 0, 1, ... of a directory, with the rounds left
unfoldable pub create_pin_files : ℕ → ℕ → ℕ → Volume → ℕ × Volume
unfolding create_file
create_pin_files zero i entry v = (entry, v)
create_pin_files (suc n) i entry v =
    let (entry', v') =
      create_file entry (print_decimal i) none 0 (b'?' ∷ b'?' ∷ b'?' ∷ b'?' ∷ []) none v in
    create_pin_files n (i + 1) entry' v'

-- the lines of files.h for one directory
unfoldable pub create_files : List (List ℕ × List ℕ) → ℕ → Volume → ℕ × Volume
unfolding create_file
create_files [] entry v = (entry, v)
create_files ((name, content) ∷ files) entry v =
    let (entry', v') = create_file entry name none 0 content none v in create_files files entry' v'

-- the names and texts of the files, as ASCII codes
abbrev pub boot_dir_name : List ℕ
boot_dir_name = 98 ∷ 111 ∷ 111 ∷ 116 ∷ []

abbrev pub status_name : List ℕ
status_name = 115 ∷ 116 ∷ 97 ∷ 116 ∷ 117 ∷ 115 ∷ []

abbrev pub run_name : List ℕ
run_name = 114 ∷ 117 ∷ 110 ∷ 46 ∷ 108 ∷ 105 ∷ 111 ∷ []

abbrev pub dev_name : List ℕ
dev_name = 100 ∷ 101 ∷ 118 ∷ []

abbrev pub etc_name : List ℕ
etc_name = 101 ∷ 116 ∷ 99 ∷ []

abbrev pub lib_name : List ℕ
lib_name = 108 ∷ 105 ∷ 98 ∷ []

abbrev pub metadata_name : List ℕ
metadata_name =
    46 ∷ 109 ∷ 101 ∷ 116 ∷ 97 ∷ 100 ∷ 97 ∷ 116 ∷ 97 ∷ 95 ∷ 110 ∷ 101 ∷ 118 ∷ 101 ∷ 114 ∷ 95 ∷ 105
    ∷ 110 ∷ 100 ∷ 101 ∷ 120 ∷ []

abbrev pub trashes_name : List ℕ
trashes_name = 46 ∷ 84 ∷ 114 ∷ 97 ∷ 115 ∷ 104 ∷ 101 ∷ 115 ∷ []

abbrev pub events_name : List ℕ
events_name = 46 ∷ 102 ∷ 115 ∷ 101 ∷ 118 ∷ 101 ∷ 110 ∷ 116 ∷ 115 ∷ 100 ∷ []

abbrev pub no_log_name : List ℕ
no_log_name = 110 ∷ 111 ∷ 95 ∷ 108 ∷ 111 ∷ 103 ∷ []

abbrev pub readme_name : List ℕ
readme_name = 114 ∷ 101 ∷ 97 ∷ 100 ∷ 109 ∷ 101 ∷ 46 ∷ 116 ∷ 120 ∷ 116 ∷ []

abbrev pub io_dir_name : List ℕ
io_dir_name = 105 ∷ 111 ∷ []

abbrev pub mode_name : List ℕ
mode_name = 109 ∷ 111 ∷ 100 ∷ 101 ∷ []

abbrev pub pins_name : List ℕ
pins_name = 112 ∷ 105 ∷ 110 ∷ 115 ∷ []

abbrev pub status_text : List ℕ
status_text =
    73 ∷ 102 ∷ 32 ∷ 121 ∷ 111 ∷ 117 ∷ 32 ∷ 99 ∷ 97 ∷ 110 ∷ 32 ∷ 115 ∷ 101 ∷ 101 ∷ 32 ∷ 116 ∷ 104
    ∷ 105 ∷ 115 ∷ 32 ∷ 112 ∷ 104 ∷ 97 ∷ 116 ∷ 105 ∷ 111 ∷ 32 ∷ 105 ∷ 115 ∷ 110 ∷ 39 ∷ 116 ∷ 32 ∷ 119
    ∷ 111 ∷ 114 ∷ 107 ∷ 105 ∷ 110 ∷ 103 ∷ 32 ∷ 99 ∷ 111 ∷ 114 ∷ 114 ∷ 101 ∷ 99 ∷ 116 ∷ 108 ∷ 121
    ∷ 46 ∷ 10 ∷ []

abbrev pub metadata_text : List ℕ
metadata_text =
    80 ∷ 114 ∷ 101 ∷ 115 ∷ 101 ∷ 110 ∷ 116 ∷ 32 ∷ 116 ∷ 111 ∷ 32 ∷ 115 ∷ 116 ∷ 111 ∷ 112 ∷ 32 ∷ 77
    ∷ 97 ∷ 99 ∷ 32 ∷ 79 ∷ 115 ∷ 32 ∷ 88 ∷ 32 ∷ 102 ∷ 114 ∷ 111 ∷ 109 ∷ 32 ∷ 105 ∷ 110 ∷ 100 ∷ 101
    ∷ 120 ∷ 105 ∷ 110 ∷ 103 ∷ 46 ∷ 10 ∷ []

abbrev pub trashes_text : List ℕ
trashes_text =
    80 ∷ 114 ∷ 101 ∷ 115 ∷ 101 ∷ 110 ∷ 116 ∷ 32 ∷ 116 ∷ 111 ∷ 32 ∷ 115 ∷ 116 ∷ 111 ∷ 112 ∷ 32 ∷ 77
    ∷ 97 ∷ 99 ∷ 32 ∷ 79 ∷ 115 ∷ 32 ∷ 88 ∷ 32 ∷ 102 ∷ 114 ∷ 111 ∷ 109 ∷ 32 ∷ 99 ∷ 114 ∷ 101 ∷ 97
    ∷ 116 ∷ 101 ∷ 32 ∷ 97 ∷ 32 ∷ 84 ∷ 114 ∷ 97 ∷ 115 ∷ 104 ∷ 32 ∷ 100 ∷ 105 ∷ 114 ∷ 101 ∷ 99 ∷ 116
    ∷ 111 ∷ 114 ∷ 121 ∷ 46 ∷ 10 ∷ []

abbrev pub events_text : List ℕ
events_text =
    80 ∷ 114 ∷ 101 ∷ 115 ∷ 101 ∷ 110 ∷ 116 ∷ 32 ∷ 116 ∷ 111 ∷ 32 ∷ 115 ∷ 116 ∷ 111 ∷ 112 ∷ 32 ∷ 77
    ∷ 97 ∷ 99 ∷ 32 ∷ 79 ∷ 115 ∷ 32 ∷ 88 ∷ 32 ∷ 102 ∷ 114 ∷ 111 ∷ 109 ∷ 32 ∷ 108 ∷ 111 ∷ 103 ∷ 103
    ∷ 105 ∷ 110 ∷ 103 ∷ 32 ∷ 102 ∷ 105 ∷ 108 ∷ 101 ∷ 115 ∷ 121 ∷ 115 ∷ 116 ∷ 101 ∷ 109 ∷ 32 ∷ 101
    ∷ 118 ∷ 101 ∷ 110 ∷ 116 ∷ 115 ∷ 46 ∷ 10 ∷ []

-- /io/mode or /io/pins
unfoldable pub create_pin_directory : List ℕ → ℕ → ℕ → Volume → ℕ × Volume
unfolding create_directory create_pin_files
create_pin_directory name io_cluster io_dir v =
    let (io_dir', (pin_dir, v')) = create_directory io_dir name none io_cluster 4 v in
    (io_dir', (create_pin_files 20 0 pin_dir v').1)

-- from /io/boot to /io/lib
unfoldable pub create_io_files :
    List ℕ → List ℕ → List (List ℕ × List ℕ) → List (List ℕ × List ℕ) → ℕ → ℕ → Volume → Volume
unfolding create_directory create_file create_files
create_io_files bootfile boot_text etc_files lib_files io_cluster io_dir v =
    let (io₁, (boot_dir, v₁)) = create_directory io_dir boot_dir_name none io_cluster 4 v in
    let (boot_dir', v₂) = create_file boot_dir (drop 3 bootfile) none 0 boot_text none v₁ in
    let (io₃, v₃) = create_file io₁ status_name none 0 status_text (some 512) v₂ in
    let (io₄, v₄) = create_file io₃ run_name none 0 (32 ∷ []) none v₃ in
    let (io₅, (dev_dir, v₅)) = create_directory io₄ dev_name none io_cluster 4 v₄ in
    let (io₆, (etc_dir, v₆)) = create_directory io₅ etc_name none io_cluster 4 v₅ in
    let (io₇, (lib_dir, v₇)) = create_directory io₆ lib_name none io_cluster 4 v₆ in
    let (etc_dir', v₈) = create_files etc_files etc_dir v₇ in (create_files lib_files lib_dir v₈).1

-- the files that keep a Macintosh from writing to the card
unfoldable pub create_mac_files : ℕ → Volume → Volume
unfolding create_directory create_file
create_mac_files root_dir v =
    let (root₁, v₁) = create_file root_dir metadata_name none 5 metadata_text none v in
    let (root₂, v₂) = create_file root₁ trashes_name none 5 trashes_text none v₁ in
    let (root₃, (event_dir, v₃)) = create_directory root₂ events_name none 0 2 v₂ in
    (create_file event_dir no_log_name none 5 events_text none v₃).1

-- The time, the text of readme.txt, and the name and the text of the boot file are given.
unfoldable pub make_fs :
    ℕ → List ℕ → List ℕ → List ℕ → List (List ℕ × List ℕ) → List (List ℕ × List ℕ) → Volume
unfolding format create_file create_directory create_pin_directory create_io_files create_mac_files
make_fs serial_number readme bootfile boot_text etc_files lib_files =
    let v₀ : Volume = record { image = format serial_number (λ a. 0); free_cluster = 2 } in
    let io_cluster = v₀.free_cluster in
    let (root₁, v₁) = create_file (root_dir_start * 512 + 32) readme_name none 0 readme none v₀ in
    let (root₂, (io_dir, v₂)) = create_directory root₁ io_dir_name none 0 4 v₁ in
    let (io₁, v₃) = create_pin_directory mode_name io_cluster io_dir v₂ in
    let (io₂, v₄) = create_pin_directory pins_name io_cluster io₁ v₃ in
    create_mac_files root₂
      (create_io_files bootfile boot_text etc_files lib_files io_cluster io₂ v₄)
