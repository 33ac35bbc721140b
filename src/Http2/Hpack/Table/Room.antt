-- ===== src/Http2/Hpack/Table/Room.antt =====
-- The dynamic table keeps count of its entries and never outgrows its capacity.
use bagel.Prelude.{
  ℕ, zero, suc, ◌+◌, ◌-◌, ◌≤◌, ◌≡◌, refl, ap, ◌≢◌, ◌⊎◌, inl, inr, false, Option, some, List, [],
  ◌∷◌, arith, ltb, leb, leb→le, Bool-cases, ltb-false→ge, leb-false→gt, length,
}
use bagel.Http2.Wire.{Ensures, Ensures-ok, Ensures-err, Ensures-if}
use bagel.Http2.Hpack.Table.{
  TableEntry, DynamicTable, max_table, pop_back, evict, evict_to, insert, push, resize, empty_table,
}

unfoldable pub total : List TableEntry → ℕ
total [] = 0
total (e ∷ es) = e.size + total es

-- `size` is the sum of the entries' sizes, at most `capacity`, which is at most 4096.
pub record IsWithin (t : DynamicTable) : Type 0 where
  pub counted : t.size ≡ total t.entries
  pub fits : t.size ≤ t.capacity
  pub bounded : t.capacity ≤ max_table

pub empty_table-IsWithin : IsWithin empty_table
unfolding empty_table total
empty_table-IsWithin = record { counted = refl; fits = omega arith; bounded = omega arith }

-- The last entry taken off, the others are one fewer and weigh so much less.
record Popped (es : List TableEntry) : Type 0 where
  front : List TableEntry
  last : TableEntry
  popped : pop_back es ≡ some (front, last)
  shorter : length es ≡ suc (length front)
  sum : total es ≡ total front + last.size

pop_back_lem : (e : TableEntry) (es : List TableEntry) → Popped (e ∷ es)
unfolding pop_back total
pop_back_lem e [] = record {
  front = [];
  last = e;
  popped = refl;
  shorter = refl;
  sum = omega arith;
}
pop_back_lem e (f ∷ es) =
    let r = pop_back_lem f es in
    record {
      front = e ∷ r.front;
      last = r.last;
      popped = over e (f ∷ es) r.front r.last r.popped;
      shorter = omega (arith, r.shorter);
      sum = omega (arith, r.sum);
    }
  where
    over :
        (e : TableEntry) (es front : List TableEntry) (last : TableEntry)
        → pop_back es ≡ some (front, last)
        → pop_back (e ∷ es) ≡ some (e ∷ front, last)
    over e es front last h = rw h refl

-- What `evict_to` does to a table that keeps count.
record Evicts (limit : ℕ) (t : DynamicTable) (o : Option DynamicTable) : Type 0 where
  table : DynamicTable
  result : o ≡ some table
  counted : table.size ≡ total table.entries
  fits : table.size ≤ limit
  same : table.capacity ≡ t.capacity

entries-cases : (es : List TableEntry) → (es ≡ []) ⊎ Popped es
entries-cases [] = inl refl
entries-cases (e ∷ es) = inr (pop_back_lem e es)

-- Only an empty table weighs nothing.
some_left :
    (size limit : ℕ) (es : List TableEntry) → size ≡ total es → leb size limit ≡ false → es ≢ []
unfolding total
some_left size limit es sized e nil =
    let zero_size : total es ≡ 0 = ap total nil in absurd (omega (arith, leb-false→gt size limit e))

evict_lem :
    (n limit : ℕ) (t : DynamicTable)
    → length t.entries ≤ n
    → t.size ≡ total t.entries
    → Evicts limit t (evict n limit t)
unfolding evict
evict_lem zero limit t le sized = elim (Bool-cases (leb t.size limit)) [
  | inl e ↦ record {
    table = t;
    result = rw e refl;
    counted = sized;
    fits = leb→le t.size limit e;
    same = refl;
  }
  | inr e ↦ elim (entries-cases t.entries) [
    | inl nil ↦ absurd (some_left t.size limit t.entries sized e nil)
    | inr p ↦ absurd (omega (arith, p.shorter))
  ]
]
evict_lem (suc n) limit t le sized = elim (Bool-cases (leb t.size limit)) [
  | inl e ↦ record {
    table = t;
    result = rw e refl;
    counted = sized;
    fits = leb→le t.size limit e;
    same = refl;
  }
  | inr e ↦ elim (entries-cases t.entries) [
    | inl nil ↦ absurd (some_left t.size limit t.entries sized e nil)
    | inr p ↦
        let smaller : DynamicTable = record {
          entries = p.front;
          size = t.size - p.last.size;
          capacity = t.capacity;
        } in
        let r = evict_lem n limit smaller (omega (arith, p.shorter)) (omega (arith, p.sum)) in
        rw (e, p.popped)
          record {
            table = r.table;
            result = r.result;
            counted = r.counted;
            fits = r.fits;
            same = r.same;
          }
  ]
]

evict_to_lem :
    (limit : ℕ) (t : DynamicTable) → t.size ≡ total t.entries → Evicts limit t (evict_to limit t)
unfolding evict_to
evict_to_lem limit t sized = evict_lem (length t.entries) limit t (omega arith) sized

push-IsWithin :
    (e : TableEntry) (t : DynamicTable)
    → t.size ≡ total t.entries
    → t.size + e.size ≤ t.capacity
    → t.capacity ≤ max_table
    → IsWithin (push e t)
unfolding push total
push-IsWithin e t c f b = record { counted = omega arith; fits = f; bounded = b }

-- Inserting into a dynamic table whose `size` is the sum of its entries' sizes, within a
-- capacity of at most 4096, never panics and leaves such a table.
pub insert-IsWithin :
    (e : TableEntry) (t : DynamicTable)
    → IsWithin t
    → (t' : DynamicTable) × (insert e t ≡ some t') × IsWithin t'
unfolding insert
insert-IsWithin e t w = elim (Bool-cases (ltb t.capacity e.size)) [
  | inl big ↦
      let r = evict_to_lem 0 t w.counted in
      (
        r.table,
        rw big r.result,
        record {
          counted = r.counted;
          fits = omega (arith, r.fits);
          bounded = rw (r.same) w.bounded;
        },
      )
  | inr small ↦
      let r = evict_to_lem (t.capacity - e.size) t w.counted in
      (
        push e r.table,
        rw (small, r.result) refl,
        push-IsWithin e r.table (r.counted)
            (omega (arith, r.fits, r.same, ltb-false→ge t.capacity e.size small))
            (rw (r.same) w.bounded),
      )
]

-- A resize that is not refused likewise never panics.
pub resize-IsWithin :
    (n : ℕ) (t : DynamicTable)
    → IsWithin t
    → Ensures (λ o. (t' : DynamicTable) × (o ≡ some t') × IsWithin t') (resize n t)
unfolding resize
resize-IsWithin n t w =
    let t0 : DynamicTable = record { entries = t.entries; size = t.size; capacity = n } in
    let r = evict_to_lem n t0 w.counted in
    Ensures-if (ltb max_table n) (λ _. Ensures-err _)
      (λ small. Ensures-ok _ (
        r.table,
        r.result,
        record {
          counted = r.counted;
          fits = omega (arith, r.fits, r.same);
          bounded = omega (arith, r.same, ltb-false→ge max_table n small);
        },
      ))
