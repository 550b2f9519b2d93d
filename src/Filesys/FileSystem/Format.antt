-- ===== src/Filesys/FileSystem/Format.antt =====
-- `FileSystem(true)`: a formatted disk is consistent, whatever the disk and the memory held before.
use so.Prelude.{
  ℕ, ◌+◌, ◌==◌, if◌then◌else◌, true, false, List, none, some, length, ◌≡◌, refl, arith, ◌∙◌, ap,
  dec_lt,
}
use so.Userprog.BitMap
use so.Userprog.BitMap.{BitMap}
use so.Userprog.BitMap.View.{IsValid, member, mark_lem}
use so.Userprog.BitMap.Fresh.{bit_map_lem, num_clear-empty, num_clear-mark, member_outside}
use so.Filesys.Directory
use so.Filesys.Directory.{DirectoryEntry, directory, free_entries}
use so.Filesys.Directory.Lookup.{has_room, lookup}
use so.Filesys.Directory.Release.{directory_lem}
use so.Filesys.FileHeader.{FileHeader}
use so.Filesys.FileHeader.Sectors.{claims, holds, allocate_lem}
use so.Filesys.FileSystem.{FileSystem, num_sectors, num_dir_entries, update, write_header, format}
use so.Filesys.FileSystem.Consistent.{
  Consistent, file_claims, table_claims, system_claims, table_claims-free_entries,
  AreFiles-free_entries,
}

covered : (m : BitMap) → IsValid m → m.num_bits ≡ num_sectors → m.num_words ≡ 32
covered m v n = ground arith

format_exact :
    (disk : ℕ → FileHeader) (d : ℕ → DirectoryEntry) (h₃ h₄ : FileHeader) (m₀ m₁ m₂ m₃ m₄ : BitMap)
    (j : ℕ)
    → member m₀ j ≡ false
    → member m₁ j ≡ (if 0 == j then true else member m₀ j)
    → member m₂ j ≡ (if 1 == j then true else member m₁ j)
    → holds m₃ j ≡ holds m₂ j + claims h₃.data_sectors 0 h₃.num_sectors j
    → holds m₄ j ≡ holds m₃ j + claims h₄.data_sectors 0 h₄.num_sectors j
    → system_claims (update (update disk 0 h₃) 1 h₄) j
        + table_claims (update (update disk 0 h₃) 1 h₄) (free_entries d 0 num_dir_entries) j
      ≡ holds m₄ j
unfolding system_claims file_claims
format_exact disk d h₃ h₄ m₀ m₁ m₂ m₃ m₄ j e₀ e₁ e₂ e₃ e₄ =
    ground (arith, table_claims-free_entries (update (update disk 0 h₃) 1 h₄) d 0 num_dir_entries j)

-- A new bit map of the disk's size has every sector free, and nothing past the disk.
pub fresh_map :
    (g : ℕ → ℕ)
    → (m : BitMap) × (BitMap.bit_map g num_sectors ≡ some m)
      × IsValid m
      × (m.num_bits ≡ num_sectors)
      × (BitMap.num_clear m ≡ some num_sectors)
      × ((j : ℕ) → member m j ≡ false)
fresh_map g =
    let (m, e, v, n, h) = bit_map_lem g num_sectors in
    (
      m,
      e,
      v,
      n,
      num_clear-empty m (λ j lt. h j (omega (arith, n))) ∙ ap some n,
      λ j. elim (dec_lt j num_sectors) [
        | yes lt ↦ h j lt
        | no ge ↦ member_outside m j (omega (arith, covered m v n)) v
      ],
    )

-- Formatting succeeds: the disk is consistent, its directory has all entries free, so that no name
-- leads anywhere, and five sectors are taken.
pub format_lem :
    (g : ℕ → ℕ) (d : ℕ → DirectoryEntry) (h : FileHeader) (disk : ℕ → FileHeader)
    → length h.data_sectors ≡ 30
    → (s : FileSystem) × (format g d h disk ≡ some s)
      × Consistent s
      × (BitMap.num_clear s.free_map ≡ some 1019)
      × (has_room s.dir.table ≡ true)
      × ((q : List ℕ) → lookup s.dir.table q ≡ none)
unfolding format write_header directory
format_lem g d h disk len =
    let (m₀, e₀, v₀, n₀, c₀, empty) = fresh_map g in
    let (m₁, e₁, v₁, n₁, mem₁) = mark_lem m₀ 0 v₀ (omega (arith, n₀)) in
    let c₁ = num_clear-mark m₀ m₁ 0 1023 (empty 0) (omega (arith, n₀)) n₁ mem₁ c₀ in
    let (m₂, e₂, v₂, n₂, mem₂) = mark_lem m₁ 1 v₁ (omega (arith, n₀, n₁)) in
    let c₂ = num_clear-mark m₁ m₂ 1 1022 (mem₁ 1 ∙ empty 1) (omega (arith, n₀, n₁)) n₂ mem₂ c₁ in
    let (h₃, m₃, e₃, _, _, _, v₃, n₃, c₃, in₃, more₃) =
      allocate_lem h m₂ 1022 128 v₂ c₂ (omega arith) (omega arith) in
    let (h₄, m₄, e₄, _, _, _, v₄, n₄, c₄, in₄, more₄) =
      allocate_lem h m₃ 1021 200 v₃ c₃ (omega arith) (omega arith) in
    (
      record {
        free_map = m₄;
        dir = Directory.directory d num_dir_entries;
        header = update (update disk 0 h₃) 1 h₄;
      },
      rw (e₀, e₁, e₂, e₃, e₄) refl,
      record {
        valid = v₄;
        bits = n₄ ∙ n₃ ∙ n₂ ∙ n₁ ∙ n₀;
        distinct = (directory_lem d num_dir_entries).0;
        files = AreFiles-free_entries _ d 0 num_dir_entries;
        exact = λ j.
            format_exact disk d h₃ h₄ m₀ m₁ m₂ m₃ m₄ j (empty j) (mem₁ j) (mem₂ j) (more₃ j)
              (more₄ j);
      },
      c₄,
      refl,
      (directory_lem d num_dir_entries).1,
    )
