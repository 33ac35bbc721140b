-- ===== src/Poison/Memory.antt =====
-- What the poison store remembers.
use bagel.Prelude.{ℕ, ◌+◌, String, ◌≡◌, refl, inl, inr, some, [], ◌∷◌, ltb, ◌==◌, Bool-cases, ≡→==}
use bagel.Poison.{PoisonEntry, Poison, find_entry, insert_entry, make_room, set, contains}

find_entry-insert_entry :
    (id : ℕ) (e : PoisonEntry) (es : Poison) → find_entry id (insert_entry id e es) ≡ some e
unfolding find_entry insert_entry
find_entry-insert_entry id e [] = rw (≡→== id id refl) refl
find_entry-insert_entry id e ((i, d) ∷ es) = elim (Bool-cases (id == i)) [
  | inl same ↦ rw (same, same) refl
  | inr other ↦ rw (other, other) (find_entry-insert_entry id e es)
]

contains-found :
    (now id : ℕ) (e : PoisonEntry) (es : Poison)
    → find_entry id es ≡ some e
    → contains now id es ≡ ltb now e.expires
unfolding contains
contains-found now id e es h = rw (h, contains) refl

-- Whatever the store holds, and however full it is, an identifier that is set is remembered
-- until its time to live is over, and not later.
pub contains-set :
    (retained now later id : ℕ) (maze : String) (ttl : ℕ) (es : Poison)
    → contains later id (set retained now id maze ttl es) ≡ ltb later (now + ttl)
unfolding set
contains-set retained now later id maze ttl es =
    let e : PoisonEntry = record { expires = now + ttl; maze = maze } in
    contains-found later id e _ (find_entry-insert_entry id e (make_room retained id es))
