-- ===== src/Afs/Content/Cluster.antt =====
-- What one round of the writing loop of `set_content` leaves in its cluster and elsewhere.
use anc.Cpu.Control.Inspect.{slice, slice-copy_bytes}
use anc.Afs.Search.{base_name, extension}
use anc.Cpu.Control.Copy.{copy_outside}
use anc.Afs.Content.{
  set_name, kind_of, set_word, write_cluster, set_text, base_name, get_word, kind, slice, extension,
  cluster_used,
}
use anc.Afs.Content.Buffers.{
  Outside, set_text-Outside, set_word-Outside, get_word-set_word, get_text-le, get_text_same,
  get_text-set_text,
}
use anc.Afs.Layout.{
  Buffer, header_size, max_cluster_count, metadata, file_name_size, owner_address, block,
  file_ext_size, capacity_of, cluster_size, set_word, set_text, data_address, get_word, kind, owner,
  cluster_used,
}
use anc.Base.{
  ℕ, ◌+◌, ◌-◌, ◌≤◌, ◌<◌, ◌≡◌, refl, ◌∙◌, inl, inr, Bool, true, false, List, arith, length, u8,
  update,
}

abbrev pub IsCluster : ℕ → Type 0
IsCluster id = (1 ≤ id) × (id ≤ max_cluster_count)

-- An address that is neither in the cluster nor in its entry in the table.
abbrev pub Spares : ℕ → ℕ → Type 0
Spares id x = Outside (owner_address id) 2 x × Outside (block id) cluster_size x

metadata-Outside :
    (id p k : ℕ) (m : Buffer) (x : ℕ) → Outside (owner_address id) 2 x → metadata id p k m x ≡ m x
unfolding metadata
metadata-Outside id p k m x h = ground arith

set_name-Outside :
    (head : Bool) (id : ℕ) (base ext : List ℕ) (m : Buffer) (x : ℕ)
    → length base ≤ file_name_size
    → length ext ≤ file_ext_size
    → Outside (block id) (file_name_size + file_ext_size) x
    → set_name head id base ext m x ≡ m x
set_name-Outside false id base ext m x b e h = refl
set_name-Outside true id base ext m x b e (inl h) =
    set_text-Outside file_ext_size (block id + file_name_size) ext
      (set_text file_name_size (block id) base m) x e (inl (omega arith))
    ∙ set_text-Outside file_name_size (block id) base m x b (inl h)
set_name-Outside true id base ext m x b e (inr h) =
    set_text-Outside file_ext_size (block id + file_name_size) ext
      (set_text file_name_size (block id) base m) x e (inr (omega arith))
    ∙ set_text-Outside file_name_size (block id) base m x b (inr (omega arith))

pub header_bounds : (head : Bool) → (3 ≤ header_size head) × (header_size head ≤ 23)
header_bounds true = omega arith
header_bounds false = omega arith

head_name : (head : Bool) → head ≡ true → header_size head ≡ 23
head_name head h = rw h refl

module _ (head : Bool) (p : ℕ) (base ext : List ℕ) (id next : ℕ) (chunk : List ℕ) (m : Buffer)
    (base_fits : length base ≤ file_name_size) (ext_fits : length ext ≤ file_ext_size)
    (chunk_fits : length chunk ≤ capacity_of head) (cluster : IsCluster id) where
  abbrev at : ℕ
  at = block id

  abbrev h : ℕ
  h = header_size head

  abbrev entered : Buffer
  entered = metadata id p (kind_of head) m

  abbrev named : Buffer
  named = set_name head id base ext entered

  abbrev linked : Buffer
  linked = update named (at + h - 3) (u8 next)

  abbrev measured : Buffer
  measured = set_word (at + h - 2) (length chunk) linked

  abbrev written : Buffer
  written = write_cluster head p base ext id next chunk m

  -- Below the link nothing changes after the name.
  low : (x : ℕ) → x < at + h - 3 → written x ≡ named x
  unfolding write_cluster
  low x lt =
      let b = header_bounds head in
      let here : update named (at + h - 3) (u8 next) x ≡ named x = ground arith in
      copy_outside chunk (at + h) measured x (inl (omega arith))
      ∙ set_word-Outside (at + h - 2) (length chunk) linked x (inl (omega arith))
      ∙ here

  high : (x : ℕ) → at + cluster_size ≤ x → written x ≡ named x
  unfolding write_cluster
  high x ge =
      let b = header_bounds head in
      let here : update named (at + h - 3) (u8 next) x ≡ named x = ground arith in
      copy_outside chunk (at + h) measured x (inr (omega arith))
      ∙ set_word-Outside (at + h - 2) (length chunk) linked x (inr (omega arith))
      ∙ here

  -- The name's part and all that is not written.
  pub cluster_outside :
      (x : ℕ) → Spares id x → write_cluster head p base ext id next chunk m x ≡ m x
  cluster_outside x (entry, inl lt) =
      let b = header_bounds head in
      low x (omega arith)
      ∙ set_name-Outside head id base ext entered x base_fits ext_fits (inl lt)
      ∙ metadata-Outside id p (kind_of head) m x entry
  cluster_outside x (entry, inr ge) =
      high x ge
      ∙ set_name-Outside head id base ext entered x base_fits ext_fits (inr (omega arith))
      ∙ metadata-Outside id p (kind_of head) m x entry

  entry_kept : (x : ℕ) → x < data_address → written x ≡ entered x
  entry_kept x lt =
      let b = header_bounds head in
      low x (omega arith)
      ∙ set_name-Outside head id base ext entered x base_fits ext_fits (inl (omega arith))

  pub cluster_kind : kind id (write_cluster head p base ext id next chunk m) ≡ kind_of head
  unfolding metadata
  cluster_kind = entry_kept (owner_address id + 1) (omega arith) ∙ ground arith

  pub cluster_owner : owner id (write_cluster head p base ext id next chunk m) ≡ u8 p
  unfolding metadata
  cluster_owner = entry_kept (owner_address id) (omega arith) ∙ ground arith

  pub cluster_link : write_cluster head p base ext id next chunk m (at + h - 3) ≡ u8 next
  unfolding write_cluster
  cluster_link =
      let b = header_bounds head in
      let here : update named (at + h - 3) (u8 next) (at + h - 3) ≡ u8 next = ground arith in
      copy_outside chunk (at + h) measured (at + h - 3) (inl (omega arith))
      ∙ set_word-Outside (at + h - 2) (length chunk) linked (at + h - 3) (inl (omega arith))
      ∙ here

  pub cluster_size_word :
      get_word (at + h - 2) (write_cluster head p base ext id next chunk m) ≡ length chunk
  unfolding write_cluster
  cluster_size_word =
      let b = header_bounds head in
      let first_byte = copy_outside chunk (at + h) measured (at + h - 2) (inl (omega arith)) in
      let second_byte = copy_outside chunk (at + h) measured (at + h - 2 + 1) (inl (omega arith)) in
      rw (first_byte, second_byte)
        (get_word-set_word (at + h - 2) (length chunk) linked (omega arith))

  pub cluster_data :
      slice (length chunk) (at + h) (write_cluster head p base ext id next chunk m) ≡ chunk
  unfolding write_cluster
  cluster_data = slice-copy_bytes chunk (at + h) measured

-- The name of a file is written back as it was.
pub cluster_name :
    (p : ℕ) (id next : ℕ) (chunk : List ℕ) (m0 m : Buffer)
    → length chunk ≤ capacity_of true
    → IsCluster id
    → (base_name id (write_cluster true p (base_name id m0) (extension id m0) id next chunk m)
        ≡ base_name id m0)
      × (extension id (write_cluster true p (base_name id m0) (extension id m0) id next chunk m)
          ≡ extension id m0)
cluster_name p id next chunk m0 m fits cluster =
    let base = base_name id m0 in
    let ext = extension id m0 in
    let b = get_text-le file_name_size (block id) m0 in
    let e = get_text-le file_ext_size (block id + file_name_size) m0 in
    let entered' = metadata id p cluster_used m in
    let based = set_text file_name_size (block id) base entered' in
    let kept = λ (x : ℕ) (lo : block id ≤ x) (hi : x < block id + file_name_size + file_ext_size).
      low true p base ext id next chunk m b e fits cluster x (omega arith) in
    let under = λ (x : ℕ) (lo : block id ≤ x) (hi : x < block id + file_name_size).
      kept x lo (omega arith)
      ∙ set_text-Outside file_ext_size (block id + file_name_size) ext based x e (inl hi) in
    let over =
      λ (x : ℕ) (lo : block id + file_name_size ≤ x)
          (hi : x < block id + file_name_size + file_ext_size).
        kept x (omega arith) hi in
    (
      get_text_same file_name_size (block id) based (write_cluster true p base ext id next chunk m)
            under
          ∙ get_text-set_text file_name_size (block id) m0 entered',
      get_text_same file_ext_size (block id + file_name_size)
            (set_text file_ext_size (block id + file_name_size) ext based)
            (write_cluster true p base ext id next chunk m) over
          ∙ get_text-set_text file_ext_size (block id + file_name_size) m0 based,
    )
