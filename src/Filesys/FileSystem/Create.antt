-- ===== src/Filesys/FileSystem/Create.antt =====
-- `FileSystem::Create`: success, each cause of failure, and what stays consistent.
use so.Prelude.{
  ℕ, zero, suc, ◌+◌, ◌≤◌, ◌<◌, ◌==◌, if◌then◌else◌, true, false, List, pos, negsuc, none, some,
  length, ◌≡◌, ◌≢◌, refl, arith, ◌∙◌, ◌⊎◌, inl, inr, Bool-cases, Option-cases,
}
use so.Userprog.BitMap
use so.Userprog.BitMap.{BitMap, div_round_up}
use so.Userprog.BitMap.View.{IsValid, member}
use so.Userprog.BitMap.Find.{find-some, find-none, num_clear-count}
use so.Filesys.Directory
use so.Filesys.Directory.{DirectoryEntry, Directory, add_from}
use so.Filesys.Directory.Lookup.{
  lookup, same_name, find-lookup, has_room, add_from-has_room, add_lem, Distinct-add_from,
}
use so.Filesys.FileHeader
use so.Filesys.FileHeader.{FileHeader, sector_size}
use so.Filesys.FileHeader.Sectors.{claims, InDisk, holds, allocate_lem, allocate_refused}
use so.Filesys.FileSystem.{FileSystem, num_sectors, update, write_header, create, create_at}
use so.Filesys.FileSystem.Consistent.{
  Consistent, IsFile, file_claims, table_claims, system_claims, table_claims-update,
  system_claims-update, find-FoundFile, AreFiles-update, table_claims-add_from, AreFiles-add_from,
}

file_claims_self :
    (hd : ℕ → FileHeader) (k : ℕ) (h : FileHeader) (j : ℕ)
    → file_claims (update hd k h) (pos k) j
      ≡ (if k == j then 1 else 0) + claims h.data_sectors 0 h.num_sectors j
unfolding file_claims
file_claims_self hd k h j = elim (Bool-cases (k == k)) [
  | inl e ↦ rw e refl
  | inr ne ↦ absurd (ground arith)
]

update_self : (f : ℕ → FileHeader) (k : ℕ) (h : FileHeader) → update f k h k ≡ h
update_self f k h = ground arith

-- The state after `Create` stored header `h` in sector `k` under `name`.
abbrev stored : FileSystem → List ℕ → ℕ → FileHeader → BitMap → FileSystem
stored s name k h m = record {
  free_map = m;
  dir = record s.dir { table = (add_from s.dir.table name (pos k)).1 };
  header = update s.header k h;
}

-- A header whose sectors were free, in a sector that was free, keeps the disk consistent.
stored-Consistent :
    (s : FileSystem) (name : List ℕ) (k : ℕ) (h : FileHeader) (m₁ m₂ : BitMap)
    → Consistent s
    → lookup s.dir.table name ≡ none
    → (add_from s.dir.table name (pos k)).0 ≡ true
    → k < num_sectors
    → member s.free_map k ≡ false
    → ((j : ℕ) → member m₁ j ≡ (if k == j then true else member s.free_map j))
    → IsValid m₂
    → m₂.num_bits ≡ num_sectors
    → InDisk h.data_sectors 0 h.num_sectors num_sectors
    → ((j : ℕ) → holds m₂ j ≡ holds m₁ j + claims h.data_sectors 0 h.num_sectors j)
    → Consistent (stored s name k h m₂)
unfolding IsFile
stored-Consistent s name k h m₁ m₂ c fresh room lt free mem v bits ok more = record {
  valid = v;
  bits = bits;
  distinct = Distinct-add_from s.dir.table name (pos k) fresh c.distinct;
  files =
      AreFiles-add_from _ s.dir.table name (pos k)
        (AreFiles-update s.header s.dir.table k h c.files unclaimed.1) (k, refl, lt, rw self ok);
  exact = λ j. ground (
    arith,
    c.exact j,
    mem j,
    more j,
    system_claims-update s.header k h j unclaimed.0,
    table_claims-update s.header s.dir.table k h j c.files unclaimed.1,
    table_claims-add_from (update s.header k h) s.dir.table name (pos k) j room,
    new_claims j,
  );
}
  where
    self : (k == k) ≡ true
    self = ground arith

    unclaimed : (system_claims s.header k ≡ 0) × (table_claims s.header s.dir.table k ≡ 0)
    unclaimed = ground (arith, c.exact k)

    new_claims :
        (j : ℕ)
        → file_claims (update s.header k h) (pos k) j
          ≡ (if k == j then 1 else 0) + claims h.data_sectors 0 h.num_sectors j
    new_claims j = file_claims_self s.header k h j

create_at_lem :
    (h : FileHeader) (s : FileSystem) (name : List ℕ) (size k : ℕ) (m : BitMap) (h' : FileHeader)
    (m' : BitMap)
    → k < num_sectors
    → Directory.add s.dir name (pos k)
      ≡ (true, record s.dir { table = (add_from s.dir.table name (pos k)).1 })
    → FileHeader.allocate h m size ≡ some (true, h', m')
    → create_at h s name size (pos k) m ≡ some (true, stored s name k h' m')
unfolding create_at write_header
create_at_lem h s name size k m h' m' lt e a = rw (e, a) (ground arith)

not_found :
    (s : FileSystem) (name : List ℕ)
    → lookup s.dir.table name ≡ none
    → Directory.find s.dir name ≡ negsuc 0
not_found s name fresh = rw (find-lookup s.dir name, fresh)

lookup_added :
    (s : FileSystem) (name : List ℕ) (k : ℕ)
    → lookup s.dir.table name ≡ none
    → has_room s.dir.table ≡ true
    → (Directory.add s.dir name (pos k)
        ≡ (true, record s.dir { table = (add_from s.dir.table name (pos k)).1 }))
      × ((q : List ℕ)
          → lookup (add_from s.dir.table name (pos k)).1 q
            ≡ (if same_name name q then some (pos k) else lookup s.dir.table q))
lookup_added s name k fresh room = elim (add_lem s.dir name (pos k)) [
  | inl (_, inl there) ↦ absurd (there fresh)
  | inl (_, inr full) ↦ cc
  | inr (_, _, e, l) ↦ (e, λ q. rw e at (l q))
]

-- `Create` of a name that is not there, with a free entry in the directory, enough free sectors and
-- a size that a header can describe, succeeds: the name leads to a header of that size, with as many data
-- sectors as it needs, in a sector that was free, all other names lead where they led, and the disk stays consistent.
pub create_lem :
    (h : FileHeader) (s : FileSystem) (name : List ℕ) (size c : ℕ)
    → Consistent s
    → lookup s.dir.table name ≡ none
    → has_room s.dir.table ≡ true
    → BitMap.num_clear s.free_map ≡ some (suc c)
    → div_round_up size sector_size ≤ c
    → div_round_up size sector_size ≤ length h.data_sectors
    → (k : ℕ) × (s' : FileSystem) × (create h s name size ≡ some (true, s'))
      × Consistent s'
      × (member s.free_map k ≡ false)
      × ((s'.header k).num_bytes ≡ size)
      × ((s'.header k).num_sectors ≡ div_round_up size sector_size)
      × ((q : List ℕ)
          → lookup s'.dir.table q
            ≡ (if same_name name q then some (pos k) else lookup s.dir.table q))
unfolding create
create_lem h s name size c ok fresh room e le fits =
    let (k, m₁, found, lt, free, v₁, n₁, e₁, mem) = find-some s.free_map c ok.valid e in
    let (h', m₂, e₂, bytes, sectors, _, v₂, n₂, _, in_disk, more) =
      allocate_lem h m₁ c size v₁ e₁ le fits in
    let added = lookup_added s name k fresh room in
    let lt' : k < num_sectors = omega (arith, lt, ok.bits) in
    (
      k,
      stored s name k h' m₂,
      rw (not_found s name fresh, found) (create_at_lem h s name size k m₁ h' m₂ lt' added.0 e₂),
      stored-Consistent s name k h' m₁ m₂ ok fresh
          (add_from-has_room s.dir.table name (pos k) ∙ room) lt' free mem v₂ (n₂ ∙ n₁ ∙ ok.bits)
          (rw (n₁ ∙ ok.bits) at in_disk) more,
      free,
      rw (update_self s.header k h') bytes,
      rw (update_self s.header k h') sectors,
      added.1,
    )

-- What makes `Create` fail.
pub data Refusal (s : FileSystem) (name : List ℕ) (size : ℕ) : Type 0 where
  exists : lookup s.dir.table name ≢ none → Refusal s name size
  no_sector : BitMap.num_clear s.free_map ≡ some 0 → Refusal s name size
  no_entry : has_room s.dir.table ≡ false → Refusal s name size
  no_space :
      (c : ℕ)
      → BitMap.num_clear s.free_map ≡ some (suc c)
      → c < div_round_up size sector_size
      → Refusal s name size

create_at_refused :
    (h : FileHeader) (s : FileSystem) (name : List ℕ) (size k c : ℕ) (m : BitMap)
    → lookup s.dir.table name ≡ none
    → BitMap.num_clear m ≡ some c
    → (has_room s.dir.table ≡ false) ⊎ (c < div_round_up size sector_size)
    → create_at h s name size (pos k) m ≡ some (false, s)
unfolding create_at
create_at_refused h s name size k c m fresh e why = elim (add_lem s.dir name (pos k)) [
  | inl (a, _) ↦ rw (a, create_at)
  | inr (_, room, a, _) ↦ elim why [
    | inl full ↦ cc
    | inr lt ↦
        let (h', r) = allocate_refused h m c size e lt in rw (a, create_at) (ground (arith, r))
  ]
]

-- `Create` of a new name, by the number of free sectors.
create_new_refused :
    (h : FileHeader) (s : FileSystem) (name : List ℕ) (size c : ℕ)
    → IsValid s.free_map
    → lookup s.dir.table name ≡ none
    → BitMap.num_clear s.free_map ≡ some c
    → (c ≡ 0) ⊎ (has_room s.dir.table ≡ false) ⊎ (c ≤ div_round_up size sector_size)
    → create h s name size ≡ some (false, s)
unfolding create create_at
create_new_refused h s name size zero v fresh e why =
    rw (not_found s name fresh, find-none s.free_map v e) refl
create_new_refused h s name size (suc c) v fresh e why =
    let (k, m, found, _, _, v', _, e', _) = find-some s.free_map c v e in
    rw (not_found s name fresh, found) (create_at_refused h s name size k c m fresh e' (causes why))
  where
    causes :
        (suc c ≡ 0) ⊎ (has_room s.dir.table ≡ false) ⊎ (suc c ≤ div_round_up size sector_size)
        → (has_room s.dir.table ≡ false) ⊎ (c < div_round_up size sector_size)
    causes (inl z) = absurd (omega arith)
    causes (inr (inl full)) = inl full
    causes (inr (inr le)) = inr le

create_exists :
    (h : FileHeader) (s : FileSystem) (name : List ℕ) (size : ℕ)
    → Consistent s
    → lookup s.dir.table name ≢ none
    → create h s name size ≡ some (false, s)
unfolding create
create_exists h s name size ok there = let f = find-FoundFile s name ok there in rw f.found refl

-- Where the name exists, or no sector is free for the header, or the directory is full, or too few
-- sectors are free for the data, `Create` returns false and the disk is as it was.
pub create_refused :
    (h : FileHeader) (s : FileSystem) (name : List ℕ) (size : ℕ)
    → Consistent s
    → Refusal s name size
    → create h s name size ≡ some (false, s)
create_refused h s name size ok why = elim (Option-cases (lookup s.dir.table name)) [
  | inr (x, there) ↦ create_exists h s name size ok (λ e. cc)
  | inl fresh ↦ go fresh why
]
  where
    go :
        lookup s.dir.table name ≡ none
        → Refusal s name size
        → create h s name size ≡ some (false, s)
    go fresh (exists there) = absurd (there fresh)
    go fresh (no_sector e) = create_new_refused h s name size 0 ok.valid fresh e (inl refl)
    go fresh (no_entry e) =
        create_new_refused h s name size _ ok.valid fresh (num_clear-count s.free_map) (inr (inl e))
    go fresh (no_space c e lt) =
        create_new_refused h s name size (suc c) ok.valid fresh e (inr (inr lt))
