-- ===== src/Http2/Hpack/Order.antt =====
-- http2/hpack.rs, `PseudoHeaderOrder` and `Decoder`. `huffman_decode` is `httlib_huffman::decode`.
-- In `Result (Option A)`, `ok none` is the panic of `evict_to`, and no fuel.
pub mod Ends
use bagel.Prelude.{
  ℕ, zero, suc, ◌+◌, ◌/◌, ◌%◌, String, Bool, true, false, not, ◌&&◌, ◌||◌, Option, none, some, List,
  [], ◌∷◌, ◌++◌, ltb, leb, ◌==◌, if◌then◌else◌, length, any,
}
use bagel.Http2.Wire.{invalid, limited, Result, ok, err, ◌>>=◌, take}
use bagel.Http2.Hpack.Integer.{integer}
use bagel.Http2.Hpack.Table.{
  DynamicTable, TableEntry, empty_table, bytes, entry_overhead, get, resize, insert,
}

pub data PseudoHeader : Type 0 where
  method authority scheme path protocol : PseudoHeader

-- What `Display` writes for a header.
unfoldable pub letter : PseudoHeader → String
letter method = "m"
letter authority = "a"
letter scheme = "s"
letter path = "p"
letter protocol = "r"

abbrev pub is_same : PseudoHeader → PseudoHeader → Bool
is_same method method = true
is_same authority authority = true
is_same scheme scheme = true
is_same path path = true
is_same protocol protocol = true
is_same _ _ = false

abbrev pub bytes_eq : List ℕ → List ℕ → Bool
bytes_eq [] [] = true
bytes_eq (x ∷ xs) (y ∷ ys) = x == y && bytes_eq xs ys
bytes_eq _ _ = false

unfoldable pub pseudo_header : List ℕ → Result PseudoHeader
pseudo_header name =
    if bytes_eq name (bytes ":method")
    then ok method
    else if bytes_eq name (bytes ":authority")
    then ok authority
    else if bytes_eq name (bytes ":scheme")
    then ok scheme
    else if bytes_eq name (bytes ":path")
    then ok path
    else if bytes_eq name (bytes ":protocol")
    then ok protocol
    else err invalid

pub data Representation : Type 0 where
  indexed literal_indexed literal table_size : Representation

unfoldable pub representation : ℕ → Representation
representation first =
    if leb 128 first
    then indexed
    else if leb 64 first
    then literal_indexed
    else if leb 32 first
    then table_size
    else literal

unfoldable pub mask : Representation → ℕ
mask indexed = 127
mask literal_indexed = 63
mask literal = 15
mask table_size = 31

abbrev pub starts_with_colon : List ℕ → Bool
starts_with_colon [] = false
starts_with_colon (b ∷ bs) = b == 58

abbrev pub is_empty : List ℕ → Bool
is_empty [] = true
is_empty (b ∷ bs) = false

pub record Progress : Type 0 where
  pub table : DynamicTable
  pub decoded_total : ℕ
  pub header_count : ℕ
  pub order : List PseudoHeader
  pub seen_regular : Bool

pub start : Progress
start = record {
  table = empty_table;
  decoded_total = 0;
  header_count = 0;
  order = [];
  seen_regular = false;
}

-- The pseudo header, if the name is one, at the end of the order.
unfoldable pub put : List ℕ → Bool → List PseudoHeader → Result (List PseudoHeader × Bool)
put name seen_regular order =
    if is_empty name
    then err invalid
    else if starts_with_colon name
    then (do
      header ← pseudo_header name
      if seen_regular || any (is_same header) order
          then err invalid
          else ok (order ++ (header ∷ []), seen_regular))
    else ok (order, true)

-- Only a literal with indexing enters the table.
pub enter : Representation → List ℕ → ℕ → DynamicTable → Option DynamicTable
enter literal_indexed name size t = insert (record { name = name; size = size }) t
enter _ name size t = some t

pub with_table : DynamicTable → Progress → Progress
with_table t p = record {
  table = t;
  decoded_total = p.decoded_total;
  header_count = p.header_count;
  order = p.order;
  seen_regular = p.seen_regular;
}

module _ (huffman_decode : List ℕ → Option (List ℕ)) where
  pub string : List ℕ → Result (List ℕ × List ℕ)
  string [] = err invalid
  string (first ∷ tail) = do
    (n, input) ← integer 127 (first ∷ tail)
    (raw, input) ← take n input
    if first / 128 % 2 == 0
        then ok (raw, input)
        else elim (huffman_decode raw) [ none ↦ err invalid | some decoded ↦ ok (decoded, input) ]

  -- The name of a literal: its own, or that of a table entry.
  pub literal_name : DynamicTable → ℕ → List ℕ → Result (List ℕ × List ℕ)
  literal_name t zero input = string input
  literal_name t (suc i) input = do (name, _) ← get t (suc i); ok (name, input)

  -- The name, the size and the rest of the input of one header field after its index.
  pub field : Representation → DynamicTable → ℕ → List ℕ → Result (List ℕ × ℕ × List ℕ)
  field indexed t index input = do (name, size) ← get t index; ok (name, size, input)
  field _ t index input = do
    (name, input) ← literal_name t index input
    (value, input) ← string input
    ok (name, length name + length value + entry_overhead, input)

  -- A header field.
  pub header : Representation → List ℕ → Progress → Result (Option (Progress × List ℕ))
  unfolding put
  header r input p = if ltb 256 (p.header_count + 1) then err limited else do
    (index, input) ← integer (mask r) input
    (name, size, input) ← field r p.table index input
    if ltb 65536 (p.decoded_total + size) then err limited else do
      (order, seen_regular) ← put name p.seen_regular p.order
      elim (enter r name size p.table) [
        | none ↦ ok none
        | some table ↦ ok (
            some (
              record {
                table = table;
                decoded_total = p.decoded_total + size;
                header_count = p.header_count + 1;
                order = order;
                seen_regular = seen_regular;
              },
              input,
            ))
      ]

  -- A change of the table's size, which stands before all fields.
  pub change_size : List ℕ → Progress → Result (Option (Progress × List ℕ))
  change_size input p = if not (p.header_count == 0) then err invalid else do
    (capacity, input) ← integer 31 input
    table ← resize capacity p.table
    elim table [ none ↦ ok none | some t ↦ ok (some (with_table t p, input)) ]

  -- One round of the loop.
  pub round : Representation → List ℕ → Progress → Result (Option (Progress × List ℕ))
  round table_size input p = change_size input p
  round r input p = header r input p

  -- The loop, in at most `fuel` rounds.
  pub loop : ℕ → List ℕ → Progress → Result (Option (List PseudoHeader))
  loop fuel [] p = ok (some p.order)
  loop zero (first ∷ tail) p = ok none
  loop (suc fuel) (first ∷ tail) p = do
    next ← round (representation first) (first ∷ tail) p
    elim next [ none ↦ ok none | some (p', input) ↦ loop fuel input p' ]

  pub parse : List ℕ → Result (Option (List PseudoHeader))
  parse block = if ltb 65536 (length block) then err limited else loop (length block) block start
