-- ===== src/Poison.antt =====
-- crates/bagel-web/src/maze/memory.rs, `PoisonStore`. An identifier, an `Instant` and a `Duration`
-- are numbers, a `HashMap` is an association list, and the two times that `set` reads are inputs.
pub mod Memory
use bagel.Prelude.{
  ℕ, ◌+◌, min, String, Bool, false, not, ◌&&◌, Option, none, some, List, [], ◌∷◌, str_eq, ltb, leb,
  ◌==◌, if◌then◌else◌, is_none, length, keep,
}

abbrev pub memory_capacity : ℕ
memory_capacity = 65_536

pub record PoisonEntry : Type 0 where
  pub expires : ℕ
  pub maze : String

abbrev pub Poison : Type 0
Poison = List (ℕ × PoisonEntry)

pub find_entry : ℕ → Poison → Option PoisonEntry
find_entry id [] = none
find_entry id ((i, e) ∷ es) = if id == i then some e else find_entry id es

pub insert_entry : ℕ → PoisonEntry → Poison → Poison
insert_entry id e [] = (id, e) ∷ []
insert_entry id e ((i, d) ∷ es) = if id == i then (i, e) ∷ es else (i, d) ∷ insert_entry id e es

-- The entry that expires first, the first of those if there are several, and its removal.
unfoldable pub soonest : ℕ → Poison → ℕ
soonest m [] = m
soonest m ((i, e) ∷ es) = soonest (min m e.expires) es

unfoldable pub remove_expiring : ℕ → Poison → Poison
remove_expiring m [] = []
remove_expiring m ((i, e) ∷ es) = if e.expires == m then es else (i, e) ∷ remove_expiring m es

unfoldable pub remove_soonest : Poison → Poison
remove_soonest [] = []
remove_soonest ((i, e) ∷ es) = remove_expiring (soonest e.expires es) ((i, e) ∷ es)

unfoldable pub make_room : ℕ → ℕ → Poison → Poison
make_room now id es =
    let live = keep (λ r. ltb now r.1.expires) es in
    if leb memory_capacity (length es) && is_none (find_entry id es)
    then (if leb memory_capacity (length live) then remove_soonest live else live)
    else es

pub set : ℕ → ℕ → ℕ → String → ℕ → Poison → Poison
set retained now id maze ttl es =
    insert_entry id (record { expires = now + ttl; maze = maze }) (make_room retained id es)

pub contains : ℕ → ℕ → Poison → Bool
contains now id es = elim (find_entry id es) [ none ↦ false | some e ↦ ltb now e.expires ]

unfoldable pub purge_maze : String → Poison → Poison
purge_maze maze es = keep (λ r. not (str_eq r.1.maze maze)) es
