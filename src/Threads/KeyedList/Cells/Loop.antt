-- ===== src/Threads/KeyedList/Cells/Loop.antt =====
-- The loop of SortedInsert of threads/list.h, against the elements behind its pointer.
use so.Prelude.{
  ℕ, zero, suc, ltb, ◌<◌, ◌==◌, Bool, true, false, List, [], ◌∷◌, ◌++◌, Option, none, some, ◌≡◌,
  ◌≢◌, ◌⊎◌, refl, arith, ◌∙◌, sym, ap, inl, inr, Bool-cases, length,
}
use so.Threads.KeyedList.{ListElement, insert_after}
use so.Threads.KeyedList.Cells.{Cell, CellMap, store, set_next, insert_next, insert_loop}
use so.Threads.KeyedList.Cells.Segment.{Avoids, Distinct, last_of, cell_of, Segment, Segment-store}

module _ {A : Type 0} where
  -- What the loop leaves where it puts the element in behind `ptr`.
  pub record IsPutIn (c : CellMap A) (ptr a : ℕ) (e₀ e : ListElement A) (es : List (ListElement A))
      (vs : List ℕ) (c' : CellMap A) : Type 0 where
    pub n : Option ℕ
    pub ws : List ℕ
    pub here : c' ptr ≡ some (cell_of n e₀)
    pub elements : Segment c' n (insert_after es e.item e.key) ws
    pub distinct : Distinct (ptr ∷ ws)
    pub same_last : last_of (ptr ∷ ws) ≡ last_of (ptr ∷ vs)
    pub others : (b : ℕ) → Avoids b (ptr ∷ vs) → a ≢ b → (c' b ≡ c b) × Avoids b (ptr ∷ ws)

  abbrev linked : CellMap A → ℕ → ℕ → ℕ → Option ℕ → ListElement A → ListElement A → CellMap A
  linked c ptr a q n e₀ e =
      store (store c a (some (cell_of (some q) e))) ptr (some (cell_of (some a) e₀))

  IsPutIn-front :
      (c : CellMap A) (ptr a q : ℕ) (n : Option ℕ) (e₀ e y : ListElement A)
      (es : List (ListElement A)) (vs : List ℕ)
      → ltb e.key y.key ≡ true
      → Segment c (some q) (y ∷ es) (q ∷ vs)
      → Distinct (ptr ∷ q ∷ vs)
      → Avoids a (ptr ∷ q ∷ vs)
      → IsPutIn c ptr a e₀ e (y ∷ es) (q ∷ vs) (linked c ptr a q n e₀ e)
  unfolding Segment Distinct Avoids insert_after
  IsPutIn-front c ptr a q n e₀ e y es vs before s d v =
      let apart : (ptr == a) ≡ false = ground (arith, v.0) in
      let first = Segment-store c (some q) (y ∷ es) (q ∷ vs) a (some (cell_of (some q) e)) v.1 s in
      let c₁ = store c a (some (cell_of (some q) e)) in
      let both =
        Segment-store c₁ (some q) (y ∷ es) (q ∷ vs) ptr (some (cell_of (some a) e₀)) d.0 first in
      let new : linked c ptr a q n e₀ e a ≡ some (cell_of (some q) e) = rw apart (ground arith) in
      record {
        n = some a;
        ws = a ∷ q ∷ vs;
        here = ground arith;
        elements = rw before (some q, refl, new, both);
        distinct = ((λ z. v.0 (sym z), d.0), (v.1, d.1));
        same_last = refl;
        others = λ b w ne. (ground (arith, w.0, ne), (w.0, (ne, w.1)));
      }

  IsPutIn-later :
      (c : CellMap A) (ptr a q : ℕ) (e₀ e y : ListElement A) (es : List (ListElement A))
      (vs : List ℕ) (c' : CellMap A)
      → ltb e.key y.key ≡ false
      → c ptr ≡ some (cell_of (some q) e₀)
      → Distinct (ptr ∷ q ∷ vs)
      → Avoids a (ptr ∷ q ∷ vs)
      → IsPutIn c q a y e es vs c'
      → IsPutIn c ptr a e₀ e (y ∷ es) (q ∷ vs) c'
  unfolding Segment Distinct Avoids insert_after
  IsPutIn-later c ptr a q e₀ e y es vs c' after here d v later =
      let kept = later.others ptr d.0 (λ z. v.0 (sym z)) in
      record {
        n = some q;
        ws = q ∷ later.ws;
        here = kept.0 ∙ here;
        elements = rw after (later.n, refl, later.here, later.elements);
        distinct = (kept.1, later.distinct);
        same_last = later.same_last;
        others = λ b w ne. let o = later.others b w.1 ne in (o.0, (w.0, o.1));
      }

  -- The links that are set in front of the cell at `q`.
  insert_next-linked :
      (rest : ℕ → Option (Bool × CellMap A)) (c : CellMap A) (ptr a q : ℕ) (n : Option ℕ)
      (e₀ e y : ListElement A)
      → ltb e.key y.key ≡ true
      → ptr ≢ a
      → c ptr ≡ some (cell_of (some q) e₀)
      → c a ≡ some (cell_of none e)
      → c q ≡ some (cell_of n y)
      → insert_next rest c (some q) ptr a e.key ≡ some (true, linked c ptr a q n e₀ e)
  unfolding insert_next set_next
  insert_next-linked rest c ptr a q n e₀ e y before ne here new there =
      let apart : (a == ptr) ≡ false = ground (arith, ne) in
      rw (there, new, apart, here, before) refl

  insert_next-on :
      (rest : ℕ → Option (Bool × CellMap A)) (c : CellMap A) (ptr a q k : ℕ) (x : Cell A)
      → ltb k x.key ≡ false
      → c q ≡ some x
      → insert_next rest c (some q) ptr a k ≡ rest q
  unfolding insert_next
  insert_next-on rest c ptr a q k x after there = rw (there, after) refl

  insert_loop-round :
      (fuel : ℕ) (c : CellMap A) (ptr a k : ℕ) (x : Cell A)
      → c ptr ≡ some x
      → insert_loop (suc fuel) c ptr a k
        ≡ insert_next (λ q. insert_loop fuel c q a k) c x.next ptr a k
  unfolding insert_loop
  insert_loop-round fuel c ptr a k x here = rw here refl

  -- The loop puts the element in, or finds that it belongs at the end.
  unfoldable pub Outcome :
      ℕ → CellMap A → ℕ → ℕ → ListElement A → ListElement A → List (ListElement A) → List ℕ → Type 0
  Outcome fuel c ptr a e₀ e es vs =
      ((c' : CellMap A) × (insert_loop fuel c ptr a e.key ≡ some (true, c'))
        × IsPutIn c ptr a e₀ e es vs c')
      ⊎ ((insert_loop fuel c ptr a e.key ≡ some (false, c))
          × (insert_after es e.item e.key ≡ es ++ (e ∷ [])))

  pub insert_loop_lem :
      (fuel : ℕ) (c : CellMap A) (ptr a : ℕ) (p : Option ℕ) (e₀ e : ListElement A)
      (es : List (ListElement A)) (vs : List ℕ)
      → length es < fuel
      → c ptr ≡ some (cell_of p e₀)
      → c a ≡ some (cell_of none e)
      → Segment c p es vs
      → Distinct (ptr ∷ vs)
      → Avoids a (ptr ∷ vs)
      → Outcome fuel c ptr a e₀ e es vs
  unfolding Segment Distinct Avoids insert_after insert_next Outcome
  insert_loop_lem zero c ptr a p e₀ e es vs lt here new s d v = absurd (omega arith)
  insert_loop_lem (suc fuel) c ptr a p e₀ e [] [] lt here new s d v =
      let end : c ptr ≡ some (cell_of none e₀) = here ∙ ap (λ z. some (cell_of z e₀)) s in
      inr (insert_loop-round fuel c ptr a e.key (cell_of none e₀) end, refl)
  insert_loop_lem (suc fuel) c ptr a p e₀ e [] (q ∷ vs) lt here new s d v = absurd s
  insert_loop_lem (suc fuel) c ptr a p e₀ e (y ∷ es) [] lt here new s d v = absurd s
  insert_loop_lem (suc fuel) c ptr a p e₀ e (y ∷ es) (q ∷ vs) lt here new (n, at, there, s) d v =
      let here' : c ptr ≡ some (cell_of (some q) e₀) = here ∙ ap (λ z. some (cell_of z e₀)) at in
      let rest = λ (z : ℕ). insert_loop fuel c z a e.key in
      let round = insert_loop-round fuel c ptr a e.key (cell_of (some q) e₀) here' in
      let whole : Segment c (some q) (y ∷ es) (q ∷ vs) = (n, refl, there, s) in
      elim (Bool-cases (ltb e.key y.key)) [
        | inl before ↦ inl (
          linked c ptr a q n e₀ e,
          round ∙ (insert_next-linked rest c ptr a q n e₀ e y before v.0 here' new there),
          IsPutIn-front c ptr a q n e₀ e y es vs before whole d v,
        )
        | inr after ↦
            let on : insert_loop (suc fuel) c ptr a e.key ≡ insert_loop fuel c q a e.key =
              round ∙ insert_next-on rest c ptr a q e.key (cell_of n y) after there in
            elim (insert_loop_lem fuel c q a n y e es vs (omega arith) there new s d.1 v.1) [
              | inl (c', run, later) ↦
                  inl (c', on ∙ run, IsPutIn-later c ptr a q e₀ e y es vs c' after here' d v later)
              | inr (run, same) ↦ inr (on ∙ run, rw (after, same) refl)
            ]
      ]
