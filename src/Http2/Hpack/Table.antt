-- ===== src/Http2/Hpack/Table.antt =====
-- http2/hpack.rs, `DynamicTable` and the static table. Index 1 is the first static entry; the
-- dynamic entries follow, the latest first.
pub mod Room
use bagel.Prelude.{
  ℕ, zero, suc, ◌+◌, ◌-◌, ◌/◌, String, Option, none, some, List, [], ◌∷◌, ltb, leb, if◌then◌else◌,
  length,
}
use bagel.Http2.Wire.{invalid, Result, ok, err, ◌>>=◌}
use Prim.Native.Char.{code}
use Prim.Native.String.{[] as empty, ◌∷◌ as ◌▹◌, len}

abbrev pub max_table : ℕ
max_table = 4096

abbrev pub entry_overhead : ℕ
entry_overhead = 32

-- The bytes of a text of ASCII characters.
unfoldable pub bytes : String → List ℕ
bytes empty = []
bytes (c ▹ s) = code c ∷ bytes s

unfoldable pub static_table : List (String × String)
static_table =
    (":authority", "")
    ∷ (":method", "GET")
    ∷ (":method", "POST")
    ∷ (":path", "/")
    ∷ (":path", "/index.html")
    ∷ (":scheme", "http")
    ∷ (":scheme", "https")
    ∷ (":status", "200")
    ∷ (":status", "204")
    ∷ (":status", "206")
    ∷ (":status", "304")
    ∷ (":status", "400")
    ∷ (":status", "404")
    ∷ (":status", "500")
    ∷ ("accept-charset", "")
    ∷ ("accept-encoding", "gzip, deflate")
    ∷ ("accept-language", "")
    ∷ ("accept-ranges", "")
    ∷ ("accept", "")
    ∷ ("access-control-allow-origin", "")
    ∷ ("age", "")
    ∷ ("allow", "")
    ∷ ("authorization", "")
    ∷ ("cache-control", "")
    ∷ ("content-disposition", "")
    ∷ ("content-encoding", "")
    ∷ ("content-language", "")
    ∷ ("content-length", "")
    ∷ ("content-location", "")
    ∷ ("content-range", "")
    ∷ ("content-type", "")
    ∷ ("cookie", "")
    ∷ ("date", "")
    ∷ ("etag", "")
    ∷ ("expect", "")
    ∷ ("expires", "")
    ∷ ("from", "")
    ∷ ("host", "")
    ∷ ("if-match", "")
    ∷ ("if-modified-since", "")
    ∷ ("if-none-match", "")
    ∷ ("if-range", "")
    ∷ ("if-unmodified-since", "")
    ∷ ("last-modified", "")
    ∷ ("link", "")
    ∷ ("location", "")
    ∷ ("max-forwards", "")
    ∷ ("proxy-authenticate", "")
    ∷ ("proxy-authorization", "")
    ∷ ("range", "")
    ∷ ("referer", "")
    ∷ ("refresh", "")
    ∷ ("retry-after", "")
    ∷ ("server", "")
    ∷ ("set-cookie", "")
    ∷ ("strict-transport-security", "")
    ∷ ("transfer-encoding", "")
    ∷ ("user-agent", "")
    ∷ ("vary", "")
    ∷ ("via", "")
    ∷ ("www-authenticate", "")
    ∷ []

pub record TableEntry : Type 0 where
  pub name : List ℕ
  pub size : ℕ

pub record DynamicTable : Type 0 where
  pub entries : List TableEntry
  pub size : ℕ
  pub capacity : ℕ

pub empty_table : DynamicTable
empty_table = record { entries = []; size = 0; capacity = max_table }

abbrev pub get_elem? {ℓ} : {A : Type ℓ} → List A → ℕ → Option A
get_elem? [] i = none
get_elem? (x ∷ xs) zero = some x
get_elem? (x ∷ xs) (suc i) = get_elem? xs i

-- The name and the size that an index stands for.
unfoldable pub get : DynamicTable → ℕ → Result (List ℕ × ℕ)
get t zero = err invalid
get t (suc offset) = elim (get_elem? static_table offset) [
  | some (name, value) ↦ ok (bytes name, len name + len value + entry_overhead)
  | none ↦ elim (get_elem? t.entries (offset - length static_table)) [
    | none ↦ err invalid
    | some entry ↦ ok (entry.name, entry.size)
  ]
]

pub pop_back : List TableEntry → Option (List TableEntry × TableEntry)
pop_back [] = none
pop_back (e ∷ es) = elim (pop_back es) [
  | none ↦ some ([], e)
  | some (front, last) ↦ some (e ∷ front, last)
]

-- The loop of `evict_to` in at most `fuel` rounds. `none` is the panic of `expect`, and no fuel.
unfoldable pub evict : ℕ → ℕ → DynamicTable → Option DynamicTable
evict zero limit t = if leb t.size limit then some t else none
evict (suc fuel) limit t = if leb t.size limit then some t else elim (pop_back t.entries) [
  | none ↦ none
  | some (front, removed) ↦
      evict fuel limit
        (record { entries = front; size = t.size - removed.size; capacity = t.capacity })
]

pub evict_to : ℕ → DynamicTable → Option DynamicTable
evict_to limit t = evict (length t.entries) limit t

pub resize : ℕ → DynamicTable → Result (Option DynamicTable)
resize capacity t =
    if ltb max_table capacity
    then err invalid
    else ok (evict_to capacity (record { entries = t.entries; size = t.size; capacity = capacity }))

-- `push_front` once there is room.
pub push : TableEntry → DynamicTable → DynamicTable
push entry t = record {
  entries = entry ∷ t.entries;
  size = t.size + entry.size;
  capacity = t.capacity;
}

pub insert : TableEntry → DynamicTable → Option DynamicTable
insert entry t =
    if ltb t.capacity entry.size
    then evict_to 0 t
    else elim (evict_to (t.capacity - entry.size) t) [
      | none ↦ none
      | some t' ↦ some (push entry t')
    ]
