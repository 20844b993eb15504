-- ===== src/Afs/Layout.antt =====
-- Where things are in an image (cardreader/include/afs.hh): the constants, the tables, and texts and
-- words in the buffer. A text is the list of its bytes.
use anc.Base.{
  ℕ, zero, suc, ◌+◌, ◌-◌, ◌*◌, ◌/◌, Bool, not, ◌&&◌, ◌||◌, List, [], ◌∷◌, ltb, leb, ◌==◌,
  if◌then◌else◌, u8, update,
}
use anc.Cpu.Control.{copy_bytes}

abbrev pub max_cluster_count : ℕ
max_cluster_count = 196

abbrev pub max_dir_count : ℕ
max_dir_count = 96

abbrev pub cluster_size : ℕ
cluster_size = 323

abbrev pub file_name_size : ℕ
file_name_size = 17

abbrev pub file_ext_size : ℕ
file_ext_size = 3

abbrev pub dir_name_size : ℕ
dir_name_size = 15

abbrev pub block_info_address : ℕ
block_info_address = 257

abbrev pub dir_info_address : ℕ
dir_info_address = 649

abbrev pub data_address : ℕ
data_address = 2185

-- The bytes before the content in the first cluster of a file, and in the others.
abbrev pub header_size : Bool → ℕ
header_size first = if first then 23 else 3

abbrev pub capacity_of : Bool → ℕ
capacity_of first = cluster_size - header_size first

-- Clusters and directories are numbered from 1.
abbrev pub block : ℕ → ℕ
block id = (id - 1) * cluster_size + data_address

abbrev pub dir : ℕ → ℕ
dir id = (id - 1) * 16 + dir_info_address

abbrev pub Buffer : Type 0
Buffer = ℕ → ℕ

abbrev pub owner_address : ℕ → ℕ
owner_address id = block_info_address + 2 * (id - 1)

abbrev pub owner : ℕ → Buffer → ℕ
owner id m = m (owner_address id)

abbrev pub kind : ℕ → Buffer → ℕ
kind id m = m (owner_address id + 1)

abbrev pub cluster_unused : ℕ
cluster_unused = 0

abbrev pub cluster_used : ℕ
cluster_used = 1

abbrev pub cluster_continue : ℕ
cluster_continue = 2

unfoldable pub metadata : ℕ → ℕ → ℕ → Buffer → Buffer
metadata id parent type m =
    update (update m (owner_address id) (u8 parent)) (owner_address id + 1) (u8 type)

-- `std::fill_n(buffer.begin() + at, size, 0)`.
unfoldable pub clear : ℕ → ℕ → Buffer → Buffer
clear at size m x = if leb at x && ltb x (at + size) then 0 else m x

-- The bytes up to the first 0, at most `size`.
unfoldable pub get_text : ℕ → ℕ → Buffer → List ℕ
get_text zero at m = []
get_text (suc size) at m =
    let rest = get_text size (at + 1) m in if m at == 0 then [] else m at ∷ rest

unfoldable pub set_text : ℕ → ℕ → List ℕ → Buffer → Buffer
unfolding clear copy_bytes
set_text size at value m = copy_bytes value at (clear at size m)

abbrev pub get_word : ℕ → Buffer → ℕ
get_word at m = m at * 256 + m (at + 1)

unfoldable pub set_word : ℕ → ℕ → Buffer → Buffer
set_word at value m = update (update m at (u8 (value / 256))) (at + 1) (u8 value)

unfoldable pub valid_dir : ℕ → Buffer → Bool
valid_dir id m = id == 0 || (leb id max_dir_count && not (m (dir id + 1) == 0))
