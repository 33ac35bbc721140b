-- ===== src/Http2/Hpack/Order/Ends.antt =====
-- Reading a header block always ends, without a panic, in distinct pseudo headers.
use bagel.Prelude.{
  ℕ, zero, suc, ◌+◌, ◌*◌, ◌/◌, ◌%◌, ◌^◌, ◌≤◌, ◌<◌, ◌≡◌, refl, inl, inr, Bool, false, not, ◌||◌,
  Option, some, List, [], ◌∷◌, ◌++◌, arith, ltb, leb, ◌==◌, Option-cases, ||-false, length, any,
  u64_max,
}
use bagel.Http2.Wire.{
  Ensures, Ensures-ok, Ensures-err, Ensures-bind, Ensures-if, take, split_at?, split_at?-length,
}
use bagel.Http2.Hpack.Integer.{more, integer}
use bagel.Http2.Hpack.Table.{DynamicTable}
use bagel.Http2.Hpack.Table.Room.{IsWithin, insert-IsWithin, resize-IsWithin, empty_table-IsWithin}
use bagel.Http2.Hpack.Order.{
  PseudoHeader, is_same, Representation, indexed, literal_indexed, table_size, representation, mask,
  Progress, start, put, enter, with_table, string, literal_name, field, header, change_size, round,
  loop, parse, is_empty, starts_with_colon,
}

-- The input left is shorter than it was, or at least not longer.
abbrev IsShorter : ℕ → ℕ × List ℕ → Type 0
IsShorter n q = length q.1 < n

abbrev IsShort : ℕ → List ℕ × List ℕ → Type 0
IsShort n q = length q.1 ≤ n

more-IsShorter : (s v : ℕ) (xs : List ℕ) → Ensures (IsShorter (length xs)) (more s v xs)
unfolding more
more-IsShorter s v [] = Ensures-err _
more-IsShorter s v (b ∷ rest) =
    Ensures-if (leb 64 s || ltb u64_max (b % 128 * 2 ^ s) || ltb u64_max (v + b % 128 * 2 ^ s))
      (λ _. Ensures-err _)
      (λ _.
        Ensures-if (b / 128 % 2 == 0) (λ _. Ensures-ok _ (omega arith))
          (λ _. record {
            at = λ q e. omega (arith, (more-IsShorter (s + 7) (v + b % 128 * 2 ^ s) rest).at q e);
          }))

integer-IsShorter : (m : ℕ) (xs : List ℕ) → Ensures (IsShorter (length xs)) (integer m xs)
unfolding integer
integer-IsShorter m [] = Ensures-err _
integer-IsShorter m (b ∷ rest) =
    Ensures-if (ltb (b % (m + 1)) m) (λ _. Ensures-ok _ (omega arith))
      (λ _. record { at = λ q e. omega (arith, (more-IsShorter 0 (b % (m + 1)) rest).at q e) })

take-IsShort : (n : ℕ) (xs : List ℕ) → Ensures (IsShort (length xs)) (take n xs)
unfolding take
take-IsShort n xs = elim (Option-cases (split_at? n xs)) [
  | inl e ↦ rw (e, take) (Ensures-err _)
  | inr ((a, b), e) ↦ rw (e, take) (Ensures-ok _ (omega (arith, split_at?-length n xs a b e)))
]

module _ (huffman_decode : List ℕ → Option (List ℕ)) where
  string-IsShort : (xs : List ℕ) → Ensures (IsShort (length xs)) (string huffman_decode xs)
  unfolding string
  string-IsShort [] = Ensures-err _
  string-IsShort (b ∷ tail) = Ensures-bind λ q e. Ensures-bind λ r k.
      let le : length r.1 ≤ length (b ∷ tail) =
        omega (arith, (integer-IsShorter 127 (b ∷ tail)).at q e, (take-IsShort q.0 q.1).at r k) in
      Ensures-if (b / 128 % 2 == 0) (λ _. Ensures-ok _ le)
        (λ _. elim (Option-cases (huffman_decode r.0)) [
          | inl none_decoded ↦ rw none_decoded (Ensures-err _)
          | inr (d, decoded) ↦ rw decoded (Ensures-ok _ le)
        ])

  literal_name-IsShort :
      (t : DynamicTable) (i : ℕ) (xs : List ℕ)
      → Ensures (IsShort (length xs)) (literal_name huffman_decode t i xs)
  unfolding literal_name
  literal_name-IsShort t zero xs = string-IsShort xs
  literal_name-IsShort t (suc i) xs = Ensures-bind λ q e. Ensures-ok _ (omega arith)

  field-IsShort :
      (r : Representation) (t : DynamicTable) (i : ℕ) (xs : List ℕ)
      → Ensures (λ q. length q.2 ≤ length xs) (field huffman_decode r t i xs)
  unfolding field
  field-IsShort indexed t i xs = Ensures-bind λ q e. Ensures-ok _ (omega arith)
  field-IsShort _ t i xs = Ensures-bind λ q e. Ensures-bind λ r k.
      Ensures-ok _
        (omega (arith, (literal_name-IsShort t i xs).at q e, (string-IsShort q.1).at r k))

-- No pseudo header stands twice.
abbrev pub IsDistinct : List PseudoHeader → Type 0
IsDistinct [] = Unit
IsDistinct (h ∷ hs) = (any (is_same h) hs ≡ false) × IsDistinct hs

is_same_comm : (g h : PseudoHeader) → is_same g h ≡ is_same h g
is_same_comm g h = ground arith

any-snoc :
    (g h : PseudoHeader) (hs : List PseudoHeader)
    → any (is_same g) hs ≡ false
    → is_same h g ≡ false
    → any (is_same g) (hs ++ (h ∷ [])) ≡ false
any-snoc g h [] e k = rw (is_same_comm g h) (rw k refl)
any-snoc g h (x ∷ hs) e k =
    let (a, b) = ||-false (is_same g x) (any (is_same g) hs) e in rw a (any-snoc g h hs b k)

snoc-IsDistinct :
    (h : PseudoHeader) (hs : List PseudoHeader)
    → IsDistinct hs
    → any (is_same h) hs ≡ false
    → IsDistinct (hs ++ (h ∷ []))
snoc-IsDistinct h [] d e = (refl, tt)
snoc-IsDistinct h (g ∷ hs) (n, d) e =
    let (a, b) = ||-false (is_same h g) (any (is_same h) hs) e in
    (any-snoc g h hs n a, snoc-IsDistinct h hs d b)

put-IsDistinct :
    (name : List ℕ) (seen : Bool) (order : List PseudoHeader)
    → IsDistinct order
    → Ensures (λ q. IsDistinct q.0) (put name seen order)
unfolding put
put-IsDistinct name seen order d =
    Ensures-if (is_empty name) (λ _. Ensures-err _)
      (λ _.
        Ensures-if (starts_with_colon name)
          (λ _. Ensures-bind λ h _.
            Ensures-if (seen || any (is_same h) order) (λ _. Ensures-err _)
              (λ e.
                Ensures-ok _
                  (snoc-IsDistinct h order d (||-false seen (any (is_same h) order) e).1)))
          (λ _. Ensures-ok _ d))

record IsGood (p : Progress) : Type 0 where
  within : IsWithin p.table
  distinct : IsDistinct p.order

-- A round that ends, on a shorter input and in a good state.
record Advances (n : ℕ) (o : Option (Progress × List ℕ)) : Type 0 where
  progress : Progress
  rest : List ℕ
  result : o ≡ some (progress, rest)
  good : IsGood progress
  shorter : length rest < n

enter-IsWithin :
    (r : Representation) (name : List ℕ) (size : ℕ) (t : DynamicTable)
    → IsWithin t
    → (t' : DynamicTable) × (enter r name size t ≡ some t') × IsWithin t'
unfolding enter
enter-IsWithin literal_indexed name size t w = insert-IsWithin _ t w
enter-IsWithin _ name size t w = (t, refl, w)

module _ (huffman_decode : List ℕ → Option (List ℕ)) where
  header-Advances :
      (r : Representation) (xs : List ℕ) (p : Progress)
      → IsGood p
      → Ensures (Advances (length xs)) (header huffman_decode r xs p)
  unfolding header
  header-Advances r xs p g =
      Ensures-if (ltb 256 (p.header_count + 1)) (λ _. Ensures-err _)
        λ _. Ensures-bind λ a ea. Ensures-bind λ b eb.
          Ensures-if (ltb 65536 (p.decoded_total + b.1)) (λ _. Ensures-err _)
            λ _. Ensures-bind λ c ec.
              let (t, et, w) = enter-IsWithin r b.0 b.1 p.table g.within in
              rw (et) (
                Ensures-ok _ record {
                  progress = _;
                  rest = _;
                  result = refl;
                  good = record {
                    within = w;
                    distinct = (put-IsDistinct b.0 p.seen_regular p.order g.distinct).at c ec;
                  };
                  shorter = omega (
                    arith,
                    (integer-IsShorter (mask r) xs).at a ea,
                    (field-IsShort huffman_decode r p.table a.0 a.1).at b eb,
                  );
                })

  change_size-Advances :
      (xs : List ℕ) (p : Progress)
      → IsGood p
      → Ensures (Advances (length xs)) (change_size huffman_decode xs p)
  unfolding change_size with_table
  change_size-Advances xs p g =
      Ensures-if (not (p.header_count == 0)) (λ _. Ensures-err _)
        λ _. Ensures-bind λ a ea. Ensures-bind λ o eo.
          let (t, e, w) = (resize-IsWithin a.0 p.table g.within).at o eo in
          rw e (
            Ensures-ok _ record {
              progress = _;
              rest = _;
              result = refl;
              good = record { within = w; distinct = g.distinct };
              shorter = (integer-IsShorter 31 xs).at a ea;
            })

  round-Advances :
      (r : Representation) (xs : List ℕ) (p : Progress)
      → IsGood p
      → Ensures (Advances (length xs)) (round huffman_decode r xs p)
  unfolding round
  round-Advances table_size xs p g = change_size-Advances xs p g
  round-Advances r xs p g = header-Advances r xs p g

  loop_lem :
      (n : ℕ) (xs : List ℕ) (p : Progress)
      → length xs ≤ n
      → IsGood p
      → Ensures
          (λ o. (order : List PseudoHeader) × (o ≡ some order) × IsDistinct order)
          (loop huffman_decode n xs p)
  unfolding loop
  loop_lem n [] p le g = Ensures-ok _ (p.order, refl, g.distinct)
  loop_lem zero (b ∷ xs) p le g = absurd (omega arith)
  loop_lem (suc n) (b ∷ xs) p le g = Ensures-bind λ o e.
      let r = (round-Advances (representation b) (b ∷ xs) p g).at o e in
      rw (r.result) (loop_lem n r.rest r.progress (omega (arith, r.shorter)) r.good)

  -- Reading the pseudo headers of a header block is refused with an error or gives distinct
  -- ones: one round for each byte is enough, and no eviction finds the dynamic table empty.
  pub parse_ends :
      (block : List ℕ)
      → Ensures
          (λ o. (order : List PseudoHeader) × (o ≡ some order) × IsDistinct order)
          (parse huffman_decode block)
  unfolding parse start
  parse_ends block =
      Ensures-if (ltb 65536 (length block)) (λ _. Ensures-err _)
        λ _.
          loop_lem (length block) block start (omega arith)
            record { within = empty_table-IsWithin; distinct = tt }
