-- ===== src/Filesys/OpenFile/Claims.antt =====
-- The sectors that the entries of filesys/directory.cc claim: two entries claim both theirs.
use so.Prelude.{
  ℕ, zero, suc, ◌+◌, ◌≤◌, ◌<◌, ◌==◌, if◌then◌else◌, true, List, [], ◌∷◌, ℤ, pos, some, get_elem?,
  ◌≡◌, refl, arith, ◌∙◌, sym, ap, inl, inr, Bool-cases, ℕ_discrete,
}
use so.Filesys.Directory.{DirectoryEntry, matches, find_index_from, sector_at}
use so.Filesys.Directory.Lookup.{find_index_from-IndexOf}
use so.Filesys.FileHeader.{FileHeader}
use so.Filesys.FileHeader.Sectors.{claims, InDisk, names_sector}
use so.Filesys.FileSystem.Consistent.{file_claims, table_claims}

pub claims-one :
    (ds : List ℤ) (i r p k : ℕ)
    → get_elem? ds p ≡ some (pos k)
    → i ≤ p
    → p < i + r
    → 1 ≤ claims ds i r k
unfolding claims
claims-one ds i zero p k e a b = ground arith
claims-one ds i (suc r) p k e a b = elim (ℕ_discrete i p) [
  | yes y ↦ rw (y, e) ground arith
  | no n ↦ let c = claims-one ds (suc i) r p k e (omega arith) (omega arith) in omega arith
]

pub claims-two :
    (ds : List ℤ) (i r p q k : ℕ)
    → get_elem? ds p ≡ some (pos k)
    → get_elem? ds q ≡ some (pos k)
    → i ≤ p
    → p < q
    → q < i + r
    → 2 ≤ claims ds i r k
unfolding claims
claims-two ds i zero p q k e e₂ a b c = ground arith
claims-two ds i (suc r) p q k e e₂ a b c = elim (ℕ_discrete i p) [
  | yes y ↦
      let rest = claims-one ds (suc i) r q k e₂ (omega arith) (omega arith) in
      rw (y, e) ground arith
  | no n ↦
      let rest = claims-two ds (suc i) r p q k e e₂ (omega arith) b (omega arith) in omega arith
]

index_later :
    (e : DirectoryEntry) (es : List DirectoryEntry) (i a : ℕ) (name : List ℕ)
    → find_index_from (e ∷ es) i name ≡ pos (i + suc a)
    → find_index_from es (suc i) name ≡ pos (suc i + a)
unfolding find_index_from
index_later e es i a name h = elim (Bool-cases (matches e name)) [
  | inl hit ↦ ground arith
  | inr miss ↦ sym (rw miss refl) ∙ h ∙ ap pos (omega arith)
]

index_here :
    (e : DirectoryEntry) (es : List DirectoryEntry) (i : ℕ) (name : List ℕ)
    → find_index_from (e ∷ es) i name ≡ pos (i + 0)
    → e.in_use ≡ true
unfolding find_index_from
index_here e es i name h = ground (arith, find_index_from-IndexOf es (suc i) name)

-- An entry that a name leads to has its claims in the table's, and two entries have both theirs.
pub table_claims-one :
    (hd : ℕ → FileHeader) (es : List DirectoryEntry) (i a j : ℕ) (name : List ℕ)
    → find_index_from es i name ≡ pos (i + a)
    → file_claims hd (sector_at es a) j ≤ table_claims hd es j
unfolding table_claims sector_at find_index_from
table_claims-one hd [] i a j name h = cc
table_claims-one hd (e ∷ es) i zero j name h =
    let used = index_here e es i name h in rw used omega arith
table_claims-one hd (e ∷ es) i (suc a) j name h =
    let rest = table_claims-one hd es (suc i) a j name (index_later e es i a name h) in omega arith

pub table_claims-two :
    (hd : ℕ → FileHeader) (es : List DirectoryEntry) (i a b j : ℕ) (name name₂ : List ℕ)
    → find_index_from es i name ≡ pos (i + a)
    → find_index_from es i name₂ ≡ pos (i + b)
    → a < b
    → file_claims hd (sector_at es a) j + file_claims hd (sector_at es b) j ≤ table_claims hd es j
unfolding table_claims sector_at find_index_from
table_claims-two hd [] i a b j name name₂ h h₂ lt = cc
table_claims-two hd (e ∷ es) i a zero j name name₂ h h₂ lt = ground arith
table_claims-two hd (e ∷ es) i zero (suc b) j name name₂ h h₂ lt =
    let used = index_here e es i name h in
    let rest = table_claims-one hd es (suc i) b j name₂ (index_later e es i b name₂ h₂) in
    rw used omega arith
table_claims-two hd (e ∷ es) i (suc a) (suc b) j name name₂ h h₂ lt =
    let rest =
      table_claims-two hd es (suc i) a b j name name₂ (index_later e es i a name h)
        (index_later e es i b name₂ h₂) (omega arith) in
    omega arith

pub InDisk-at :
    (ds : List ℤ) (i r n p : ℕ)
    → InDisk ds i r n
    → i ≤ p
    → p < i + r
    → (k : ℕ) × (get_elem? ds p ≡ some (pos k)) × (k < n)
unfolding InDisk
InDisk-at ds i zero n p d a b = ground arith
InDisk-at ds i (suc r) n p d a b = elim (ℕ_discrete i p) [
  | yes y ↦ rw (sym y) d.0
  | no m ↦ InDisk-at ds (suc i) r n p d.1 (omega arith) (omega arith)
]

-- Together the claims on the sectors below `n` are as many as the rounds.
sum : (ℕ → ℕ) → ℕ → ℕ
sum f zero = 0
sum f (suc n) = f n + sum f n

sum-add : (f g : ℕ → ℕ) (n : ℕ) → sum (λ j. f j + g j) n ≡ sum f n + sum g n
unfolding sum
sum-add f g zero = omega arith
sum-add f g (suc n) = let e = sum-add f g n in omega arith

sum-none : (k n : ℕ) → n ≤ k → sum (λ j. if k == j then 1 else 0) n ≡ 0
unfolding sum
sum-none k zero le = refl
sum-none k (suc n) le = let e = sum-none k n (omega arith) in ground arith

sum-one : (k n : ℕ) → k < n → sum (λ j. if k == j then 1 else 0) n ≡ 1
unfolding sum
sum-one k zero lt = absurd (omega arith)
sum-one k (suc n) lt = elim (ℕ_discrete k n) [
  | yes y ↦ let e = sum-none k n (omega arith) in ground arith
  | no m ↦ let e = sum-one k n (omega arith) in ground arith
]

sum-bound : (f : ℕ → ℕ) (n : ℕ) → ((j : ℕ) → f j ≤ 1) → sum f n ≤ n
unfolding sum
sum-bound f zero le = omega arith
sum-bound f (suc n) le = omega (arith, le n, sum-bound f n le)

sum-zero : (n : ℕ) → sum (λ j. 0) n ≡ 0
unfolding sum
sum-zero zero = refl
sum-zero (suc n) = omega (arith, sum-zero n)

sum-claims : (ds : List ℤ) (i r n : ℕ) → InDisk ds i r n → sum (λ j. claims ds i r j) n ≡ r
unfolding claims InDisk
sum-claims ds i zero n d = sum-zero n
sum-claims ds i (suc r) n d =
    let (k, e, lt) = d.0 in
    let rest = sum-claims ds (suc i) r n d.1 in
    let both = sum-add (λ j. names_sector (get_elem? ds i) j) (λ j. claims ds (suc i) r j) n in
    let one : sum (λ j. names_sector (get_elem? ds i) j) n ≡ 1 = rw e (sum-one k n lt) in
    omega (arith, both, one, rest)

-- Where no sector is claimed twice, there are no more of them than the disk has.
pub claims-total :
    (ds : List ℤ) (i r n : ℕ) → InDisk ds i r n → ((j : ℕ) → claims ds i r j ≤ 1) → r ≤ n
claims-total ds i r n d once =
    omega (arith, sum-claims ds i r n d, sum-bound (λ j. claims ds i r j) n once)
