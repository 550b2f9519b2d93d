-- ===== src/Filesys/Directory/Lookup.antt =====
-- A directory as a partial map from names to sectors. Names are told apart by their first
-- `FileNameMaxLen` bytes.
use so.Prelude.{
  ℕ, suc, ◌+◌, if◌then◌else◌, Bool, true, false, List, [], ◌∷◌, ℤ, pos, negsuc, Option, none, some,
  ◌≡◌, ◌≢◌, refl, arith, ◌⊎◌, inl, inr, Bool-cases, ◌∙◌, ap,
}
use so.Prelude.CString.{
  strncmp_equal, strncpy, strncmp_equal_refl, strncmp_equal_comm, strncmp_equal_trans,
  strncmp_equal-strncpy,
}
use so.Filesys.Directory.{
  DirectoryEntry, Directory, matches, find_index_from, find_index, sector_at, find, add_from, add,
}

unfoldable pub same_name : List ℕ → List ℕ → Bool
same_name a b = strncmp_equal 9 a b

unfoldable pub lookup : List DirectoryEntry → List ℕ → Option ℤ
lookup [] q = none
lookup (e ∷ es) q = if matches e q then some e.sector else lookup es q

-- No two entries in use have the same name.
unfoldable pub Distinct : List DirectoryEntry → Type 0
Distinct [] = Unit
Distinct (e ∷ es) = (e.in_use ≡ true → lookup es e.name ≡ none) × Distinct es

-- What the loop of `FindIndex` returns: no index when no entry has the name, or the index of one.
abbrev pub IndexOf : List DirectoryEntry → ℕ → List ℕ → ℤ → Type 0
IndexOf es i q r =
    ((lookup es q ≡ none) × (r ≡ negsuc 0))
    ⊎ ((k : ℕ) × (r ≡ pos (i + k)) × (lookup es q ≡ some (sector_at es k)))

pub find_index_from-IndexOf :
    (es : List DirectoryEntry) (i : ℕ) (q : List ℕ) → IndexOf es i q (find_index_from es i q)
unfolding lookup find_index_from sector_at
find_index_from-IndexOf [] i q = inl (refl, refl)
find_index_from-IndexOf (e ∷ es) i q = elim (Bool-cases (matches e q)) [
  | inl hit ↦ inr (0, rw hit (ap pos (omega arith)), rw hit)
  | inr miss ↦ elim (find_index_from-IndexOf es (suc i) q) [
    | inl (a, b) ↦ inl (rw miss a, rw miss b)
    | inr (k, a, b) ↦ inr (suc k, rw miss (a ∙ ap pos (omega arith)), rw miss b)
  ]
]

pub find_index-IndexOf :
    (d : Directory) (q : List ℕ)
    → ((lookup d.table q ≡ none) × (find_index d q ≡ negsuc 0))
      ⊎ ((k : ℕ) × (find_index d q ≡ pos k) × (lookup d.table q ≡ some (sector_at d.table k)))
unfolding find_index
find_index-IndexOf d q = elim (find_index_from-IndexOf d.table 0 q) [
  | inl h ↦ inl h
  | inr (k, a, b) ↦ inr (k, a ∙ ap pos (omega arith), b)
]

-- `Find` reads the map, and returns -1 for a name that it lacks.
pub find-lookup :
    (d : Directory) (q : List ℕ)
    → find d q ≡ elim (lookup d.table q) [ none ↦ negsuc 0 | some s ↦ s ]
unfolding find
find-lookup d q = elim (find_index-IndexOf d q) [
  | inl (a, b) ↦ rw (a, b, find)
  | inr (k, a, b) ↦ rw (a, b, find)
]

abbrev pub has_room : List DirectoryEntry → Bool
has_room [] = false
has_room (e ∷ es) = if e.in_use then has_room es else true

pub add_from-has_room :
    (es : List DirectoryEntry) (name : List ℕ) (s : ℤ) → (add_from es name s).0 ≡ has_room es
unfolding add_from
add_from-has_room [] name s = refl
add_from-has_room (e ∷ es) name s = ground (arith, add_from-has_room es name s)

pub lookup_same :
    (es : List DirectoryEntry) (p q : List ℕ) → same_name p q ≡ true → lookup es p ≡ lookup es q
unfolding lookup same_name
lookup_same [] p q h = refl
lookup_same (e ∷ es) p q h = ground (
  arith,
  lookup_same es p q h,
  strncmp_equal_trans 9 e.name p q,
  strncmp_equal_trans 9 e.name q p,
  strncmp_equal_comm 9 p q,
)

-- Filling a free entry adds one name to the map.
pub lookup-add_from :
    (es : List DirectoryEntry) (name q : List ℕ) (s : ℤ)
    → lookup es name ≡ none
    → (add_from es name s).0 ≡ true
    → lookup (add_from es name s).1 q ≡ (if same_name name q then some s else lookup es q)
unfolding add_from lookup same_name
lookup-add_from [] name q s fresh room = cc
lookup-add_from (e ∷ es) name q s fresh room = ground (
  arith,
  lookup-add_from es name q s,
  strncmp_equal-strncpy 9 e.name name q,
  lookup_same es name q,
  strncmp_equal_trans 9 e.name q name,
  strncmp_equal_comm 9 name q,
)

add_from_full :
    (es : List DirectoryEntry) (name : List ℕ) (s : ℤ) (n : ℕ)
    → (add_from es name s).0 ≡ false
    → ◌≡◌ {A = Bool × Directory}
        ((add_from es name s).0, record { table_size = n; table = (add_from es name s).1 })
        (false, record { table_size = n; table = es })
unfolding add_from
add_from_full [] name s n h = refl
add_from_full (e ∷ es) name s n h = ground (arith, add_from_full es name s n)

-- `Add` refuses a name that is there and a full table, and changes nothing then. Otherwise the name
-- leads to the sector, and every other name to what it led to before.
pub add_lem :
    (d : Directory) (name : List ℕ) (s : ℤ)
    → ((add d name s ≡ (false, d)) × ((lookup d.table name ≢ none) ⊎ (has_room d.table ≡ false)))
      ⊎ ((lookup d.table name ≡ none)
          × (has_room d.table ≡ true)
          × (add d name s ≡ (true, record d { table = (add_from d.table name s).1 }))
          × ((q : List ℕ)
              → lookup (add d name s).1.table q
                ≡ (if same_name name q then some s else lookup d.table q)))
unfolding add
add_lem d name s = elim (find_index-IndexOf d name) [
  | inr (k, a, b) ↦ inl (rw (a, add), inl (λ e. cc))
  | inl (a, b) ↦ elim (Bool-cases (add_from d.table name s).0) [
    | inl ok ↦ inr (
      a,
      ground (arith, add_from-has_room d.table name s),
      rw (b, add) (ground arith),
      λ q. rw (b, add) (lookup-add_from d.table name q s a ok),
    )
    | inr full ↦ inl (
      rw (b, add) (add_from_full d.table name s d.table_size full),
      inr (ground (arith, add_from-has_room d.table name s)),
    )
  ]
]

lookup-add_from_ne :
    (es : List DirectoryEntry) (name q : List ℕ) (s : ℤ)
    → lookup es q ≡ none
    → same_name name q ≡ false
    → lookup (add_from es name s).1 q ≡ none
unfolding add_from lookup same_name
lookup-add_from_ne [] name q s h ne = refl
lookup-add_from_ne (e ∷ es) name q s h ne =
    ground (arith, lookup-add_from_ne es name q s, strncmp_equal-strncpy 9 e.name name q)

pub Distinct-add_from :
    (es : List DirectoryEntry) (name : List ℕ) (s : ℤ)
    → lookup es name ≡ none
    → Distinct es
    → Distinct (add_from es name s).1
unfolding add_from Distinct lookup same_name
Distinct-add_from [] name s fresh d = tt
Distinct-add_from (e ∷ es) name s fresh d = elim (Bool-cases e.in_use) [
  | inl used ↦ rw used (
    λ u. lookup-add_from_ne es name e.name s (d.0 used) (other used),
    Distinct-add_from es name s (rest used) d.1,
  )
  | inr free ↦ rw free (
    λ u.
        lookup_same es (strncpy 9 e.name name) name
          (strncmp_equal-strncpy 9 e.name name name ∙ strncmp_equal_refl 9 name)
        ∙ rest' free,
    d.1,
  )
]
  where
    other : e.in_use ≡ true → same_name name e.name ≡ false
    other u = ground (arith, strncmp_equal_comm 9 name e.name)

    rest : e.in_use ≡ true → lookup es name ≡ none
    rest u = ground arith

    rest' : e.in_use ≡ false → lookup es name ≡ none
    rest' u = ground arith
