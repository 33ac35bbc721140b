-- ===== src/Rate/Shard.antt =====
-- `Shard` and `RateTracker`. `hash` is `DefaultHasher`'s value of a key, `same_network` the
-- derived equality of `SourceNetwork`. A lock is held for the whole of an operation.
pub mod Capacity
pub mod Keys
use bagel.Prelude.{
  ℕ, ◌+◌, ◌/◌, ◌%◌, min, max, String, Bool, ◌&&◌, Option, none, some, List, [], ◌∷◌, str_eq, ltb,
  leb, ◌==◌, if◌then◌else◌, is_none, length, keep,
}
use bagel.Rate.Entry.{RateSnapshot, Entry, window, advance, increment, snapshot, read}

abbrev pub shard_count : ℕ
shard_count = 64

pub record RateKey {ℓ} (Network : Type ℓ) : Type ℓ where
  pub host : String
  pub network : Network

pub record Shard {ℓ} (Network : Type ℓ) : Type ℓ where
  pub entries : List (RateKey Network × Entry)
  pub used : ℕ

pub record RateTracker {ℓ} (Network : Type ℓ) : Type ℓ where
  pub shards : ℕ → Shard Network
  pub shard_capacity : ℕ
  pub capacity : ℕ

-- `with_bucket`, but for the clock.
unfoldable pub new {ℓ} : {Network : Type ℓ} → ℕ → RateTracker Network
new capacity = record {
  shards = λ i. record { entries = []; used = 0 };
  shard_capacity = max ((capacity + 63) / shard_count) 1;
  capacity = capacity;
}

module _ {ℓ} {Network : Type ℓ} (same_network : Network → Network → Bool) where
  abbrev pub same_key : RateKey Network → RateKey Network → Bool
  same_key k l = str_eq k.host l.host && same_network k.network l.network

  unfoldable pub find : RateKey Network → List (RateKey Network × Entry) → Option Entry
  find k [] = none
  find k ((l, e) ∷ es) = if same_key k l then some e else find k es

  -- The entry of a key replaced, or added.
  unfoldable pub put :
      RateKey Network → Entry → List (RateKey Network × Entry) → List (RateKey Network × Entry)
  put k e [] = (k, e) ∷ []
  put k e ((l, d) ∷ es) = if same_key k l then (l, e) ∷ es else (l, d) ∷ put k e es

  -- The least recently used entry taken out: the first among those of the least `last_used`.
  pub least_used : ℕ → List (RateKey Network × Entry) → ℕ
  least_used m [] = m
  least_used m ((k, e) ∷ es) = least_used (min m e.last_used) es

  pub remove_used : ℕ → List (RateKey Network × Entry) → List (RateKey Network × Entry)
  remove_used m [] = []
  remove_used m ((k, e) ∷ es) = if e.last_used == m then es else (k, e) ∷ remove_used m es

  pub remove_oldest : List (RateKey Network × Entry) → List (RateKey Network × Entry)
  remove_oldest [] = []
  remove_oldest ((k, e) ∷ es) = remove_used (least_used e.last_used es) ((k, e) ∷ es)

  unfoldable pub evict : ℕ → List (RateKey Network × Entry) → List (RateKey Network × Entry)
  evict tick es = remove_oldest (keep (λ r. ltb tick (r.1.last_tick + window)) es)

  -- Room for a new key.
  pub make_room :
      ℕ → ℕ → RateKey Network → List (RateKey Network × Entry) → List (RateKey Network × Entry)
  make_room capacity tick k es =
      if is_none (find k es) && leb capacity (length es) then evict tick es else es

  pub fresh : ℕ → ℕ → Option Entry → Entry
  fresh tick used none = record { buckets = λ i. 0; last_tick = tick; last_used = used }
  fresh tick used (some e) = record {
    buckets = e.buckets;
    last_tick = e.last_tick;
    last_used = used;
  }

  -- `record_at` on the key's shard.
  pub record_in : ℕ → RateKey Network → ℕ → Shard Network → RateSnapshot × Shard Network
  record_in capacity k tick s =
      let used = s.used + 1 in
      let entries = make_room capacity tick k s.entries in
      let entry = increment tick (advance tick (fresh tick used (find k entries))) in
      (snapshot tick entry, record { entries = put k entry entries; used = used })

  pub peek_in : RateKey Network → ℕ → Shard Network → RateSnapshot
  peek_in k tick s = elim (find k s.entries) [
    | none ↦ record { last_1 = 0; last_10 = 0; last_60 = 0 }
    | some e ↦ read tick e
  ]

  module _ (hash : RateKey Network → ℕ) where
    abbrev pub shard_index : RateKey Network → ℕ
    shard_index k = hash k % shard_count

    pub record_at : RateKey Network → ℕ → RateTracker Network → RateSnapshot × RateTracker Network
    record_at k tick t =
        let i = shard_index k in
        let (shot, shard) = record_in t.shard_capacity k tick (t.shards i) in
        (
          shot,
          record {
            shards = λ j. if i == j then shard else t.shards j;
            shard_capacity = t.shard_capacity;
            capacity = t.capacity;
          },
        )

    pub peek_at : RateKey Network → ℕ → RateTracker Network → RateSnapshot
    peek_at k tick t = peek_in k tick (t.shards (shard_index k))
