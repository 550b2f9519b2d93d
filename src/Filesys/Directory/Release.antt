-- ===== src/Filesys/Directory/Release.antt =====
-- `Remove`, and a fresh directory, on the map from names to sectors.
use so.Prelude.{
  ℕ, zero, suc, ◌+◌, if◌then◌else◌, true, false, List, [], ◌∷◌, pos, none, ◌≡◌, ◌≢◌, refl, arith,
  ◌⊎◌, inl, inr, ◌∙◌, ap,
}
use so.Prelude.CString.{strncmp_equal_comm, strncmp_equal_trans}
use so.Filesys.Directory.{
  DirectoryEntry, Directory, directory, free_entries, find_index_from, find_index, release_at,
  remove,
}
use so.Filesys.Directory.Lookup.{
  same_name, lookup, Distinct, find_index_from-IndexOf, find_index-IndexOf, lookup_same,
}

lookup-release_at :
    (es : List DirectoryEntry) (i k : ℕ) (name q : List ℕ)
    → Distinct es
    → find_index_from es i name ≡ pos (i + k)
    → lookup (release_at es k) q ≡ (if same_name name q then none else lookup es q)
unfolding release_at lookup Distinct find_index_from same_name
lookup-release_at [] i k name q d h = cc
lookup-release_at (e ∷ es) i zero name q d h = ground (
  arith,
  lookup_same es e.name q,
  strncmp_equal_trans 9 e.name name q,
  strncmp_equal_trans 9 name e.name q,
  strncmp_equal_comm 9 e.name name,
  strncmp_equal_trans 9 e.name q name,
  strncmp_equal_comm 9 name q,
  find_index_from-IndexOf es (suc i) name,
)
lookup-release_at (e ∷ es) i (suc k) name q d h = ground (
  arith,
  lookup-release_at es (suc i) k name q,
  find_index_from-IndexOf es (suc i) name,
  strncmp_equal_trans 9 e.name q name,
  strncmp_equal_comm 9 name q,
)

lookup-release_none :
    (es : List DirectoryEntry) (k : ℕ) (q : List ℕ)
    → lookup es q ≡ none
    → lookup (release_at es k) q ≡ none
unfolding release_at lookup
lookup-release_none [] k q h = refl
lookup-release_none (e ∷ es) zero q h = ground arith
lookup-release_none (e ∷ es) (suc k) q h = ground (arith, lookup-release_none es k q)

pub Distinct-release_at :
    (es : List DirectoryEntry) (k : ℕ) → Distinct es → Distinct (release_at es k)
unfolding release_at Distinct
Distinct-release_at [] k d = tt
Distinct-release_at (e ∷ es) zero d = (λ u. cc, d.1)
Distinct-release_at (e ∷ es) (suc k) d =
    (λ u. lookup-release_none es k e.name (d.0 u), Distinct-release_at es k d.1)

pub find_index-release_at :
    (d : Directory) (k : ℕ) (name q : List ℕ)
    → Distinct d.table
    → find_index d name ≡ pos k
    → lookup (release_at d.table k) q ≡ (if same_name name q then none else lookup d.table q)
unfolding find_index
find_index-release_at d k name q u h =
    lookup-release_at d.table 0 k name q u (h ∙ ap pos (omega arith))

-- `Remove` of a name that is there takes it, and no other, out of the map, and keeps names distinct;
-- of a name that is not there it fails and changes nothing.
pub remove_lem :
    (d : Directory) (name : List ℕ)
    → Distinct d.table
    → ((lookup d.table name ≡ none) × (remove d name ≡ (false, d)))
      ⊎ ((lookup d.table name ≢ none)
          × ((remove d name).0 ≡ true)
          × Distinct (remove d name).1.table
          × ((q : List ℕ)
              → lookup (remove d name).1.table q
                ≡ (if same_name name q then none else lookup d.table q)))
unfolding remove
remove_lem d name u = elim (find_index-IndexOf d name) [
  | inl (a, b) ↦ inl (a, rw (b, remove) refl)
  | inr (k, b, a) ↦ inr (
    λ e. cc,
    rw (b, remove) refl,
    rw (b, remove) (Distinct-release_at d.table k u),
    λ q. rw (b, remove) (find_index-release_at d k name q u b),
  )
]

lookup-free_entries :
    (g : ℕ → DirectoryEntry) (i r : ℕ) (q : List ℕ) → lookup (free_entries g i r) q ≡ none
unfolding lookup
lookup-free_entries g i zero q = refl
lookup-free_entries g i (suc r) q = lookup-free_entries g (suc i) r q

Distinct-free_entries : (g : ℕ → DirectoryEntry) (i r : ℕ) → Distinct (free_entries g i r)
unfolding Distinct
Distinct-free_entries g i zero = tt
Distinct-free_entries g i (suc r) = (λ u. cc, Distinct-free_entries g (suc i) r)

-- A fresh directory holds no name, whatever the memory held.
pub directory_lem :
    (g : ℕ → DirectoryEntry) (size : ℕ)
    → Distinct (directory g size).table × ((q : List ℕ) → lookup (directory g size).table q ≡ none)
unfolding directory
directory_lem g size = (Distinct-free_entries g 0 size, lookup-free_entries g 0 size)
