-- ===== src/Pending.antt =====
-- crates/bagel-web/src/challenge/pending.rs. A key and a digest are numbers below 2^256, an
-- `Instant` and a `Duration` numbers. The `BTreeSet` of expiries is a list in its order. The time
-- and the keys that `SystemRandom` fills are inputs.
pub mod Table
use bagel.Prelude.{
  ℕ, ◌+◌, min, String, ◌⊎◌, inl, inr, Bool, false, not, ◌&&◌, ◌||◌, Option, none, some, List, [],
  ◌∷◌, ltb, leb, ◌==◌, if◌then◌else◌, is_some, length, keep,
}
use bagel.Rate.Entry.{RateSnapshot}
use bagel.Rate.Shard.{RateKey, RateTracker, record_at}

abbrev pub capacity : ℕ
capacity = 65_536

abbrev pub lifetime : ℕ
lifetime = 300

pub data IssueError : Type 0 where
  limited full random : IssueError

pub record ChallengeBinding {ℓ} (Network : Type ℓ) : Type ℓ where
  pub host : String
  pub network : Network
  pub digest : ℕ

pub record PendingChallenge : Type 0 where
  pub binding : ℕ
  pub pass_key : ℕ
  pub level : ℕ
  pub gpu_level : Option ℕ
  pub expiry : ℕ

pub record PendingTable : Type 0 where
  pub challenges : List (ℕ × PendingChallenge)
  pub expiries : List (ℕ × ℕ)

unfoldable pub get : ℕ → List (ℕ × PendingChallenge) → Option PendingChallenge
get key [] = none
get key ((k, c) ∷ cs) = if key == k then some c else get key cs

pub remove : ℕ → List (ℕ × PendingChallenge) → List (ℕ × PendingChallenge)
remove key cs = keep (λ r. not (key == r.0)) cs

-- The loop of `expire`: the expiries that are due, from the first, and their challenges.
unfoldable pub expire_from : ℕ → List (ℕ × ℕ) → List (ℕ × PendingChallenge) → PendingTable
expire_from now [] cs = record { challenges = cs; expiries = [] }
expire_from now ((expiry, key) ∷ es) cs =
    let rest = expire_from now es (remove key cs) in
    if ltb now expiry then record { challenges = cs; expiries = (expiry, key) ∷ es } else rest

unfoldable pub expire : ℕ → PendingTable → PendingTable
expire now t = expire_from now t.expiries t.challenges

-- An element of the set, in its place by the expiry and then the key.
unfoldable pub insert_expiry : ℕ × ℕ → List (ℕ × ℕ) → List (ℕ × ℕ)
insert_expiry (expiry, key) [] = (expiry, key) ∷ []
insert_expiry (expiry, key) ((e, k) ∷ es) =
    if ltb expiry e || expiry == e && ltb key k
    then (expiry, key) ∷ (e, k) ∷ es
    else if expiry == e && key == k
    then (e, k) ∷ es
    else (e, k) ∷ insert_expiry (expiry, key) es

unfoldable pub remove_expiry : ℕ → ℕ → List (ℕ × ℕ) → List (ℕ × ℕ)
remove_expiry expiry key es = keep (λ r. not (r.0 == expiry && r.1 == key)) es

-- The loop that draws a key; a source of randomness that ends is one that fails.
unfoldable pub draw : List ℕ → List (ℕ × PendingChallenge) → Option ℕ
draw [] cs = none
draw (key ∷ keys) cs = if is_some (get key cs) then draw keys cs else some key

-- `issue` once the rate is known.
pub store_challenge :
    ℕ → List ℕ → ℕ → ℕ → ℕ → Option ℕ → ℕ → PendingTable → (ℕ ⊎ IssueError) × PendingTable
store_challenge now keys digest pass_key level gpu_level duration table =
    let t = expire now table in
    if leb capacity (length t.challenges) then (inr full, t) else elim (draw keys t.challenges) [
      | none ↦ (inr random, t)
      | some key ↦
          let expiry = now + min duration lifetime in
          (
            inl key,
            record {
              challenges =
                  (
                    key,
                    record {
                      binding = digest;
                      pass_key = pass_key;
                      level = level;
                      gpu_level = gpu_level;
                      expiry = expiry;
                    },
                  )
                  ∷ t.challenges;
              expiries = insert_expiry (expiry, key) t.expiries;
            },
          )
    ]

unfoldable pub is_limited : RateSnapshot → Bool
is_limited rate = ltb 32 rate.last_1 || ltb 120 rate.last_60

abbrev pub is_offered : ℕ → PendingChallenge → Bool
is_offered level c = c.level == level || (elim c.gpu_level [ none ↦ false | some l ↦ l == level ])

-- `redeem` on the entry of its key in the table.
unfoldable pub redeem_entry :
    ℕ → ℕ → ℕ → PendingTable → Option PendingChallenge → Option ℕ × PendingTable
redeem_entry key digest level t none = (none, t)
redeem_entry key digest level t (some c) =
    if not (c.binding == digest) || not (is_offered level c) then (none, t) else (
      some c.pass_key,
      record {
        challenges = remove key t.challenges;
        expiries = remove_expiry c.expiry key t.expiries;
      },
    )

unfoldable pub redeem : ℕ → ℕ → ℕ → ℕ → PendingTable → Option ℕ × PendingTable
redeem now key digest level table =
    let t = expire now table in redeem_entry key digest level t (get key t.challenges)

pub record PendingChallenges {ℓ} (Network : Type ℓ) : Type ℓ where
  pub pending : PendingTable
  pub issuance : RateTracker Network
  pub verification : RateTracker Network

module _ {ℓ} {Network : Type ℓ} (same_network : Network → Network → Bool)
    (hash : RateKey Network → ℕ) where
  -- `tick` is the tracker's clock, `now` the table's.
  unfoldable pub issue :
      ℕ
      → ℕ
      → List ℕ
      → ChallengeBinding Network
      → ℕ
      → ℕ
      → Option ℕ
      → ℕ
      → PendingChallenges Network
      → (ℕ ⊎ IssueError) × PendingChallenges Network
  issue tick now keys b pass_key level gpu_level duration p =
      let (rate, issuance) =
        record_at same_network hash (record { host = b.host; network = b.network }) tick
          p.issuance in
      let (result, pending) =
        store_challenge now keys b.digest pass_key level gpu_level duration p.pending in
      if is_limited rate
      then (
        inr limited,
        record { pending = p.pending; issuance = issuance; verification = p.verification },
      )
      else (
        result,
        record { pending = pending; issuance = issuance; verification = p.verification },
      )

  unfoldable pub admit_verification :
      ℕ → String → Network → PendingChallenges Network → Bool × PendingChallenges Network
  admit_verification tick host network p =
      let (rate, verification) =
        record_at same_network hash (record { host = host; network = network }) tick
          p.verification in
      (
        leb rate.last_1 32 && leb rate.last_60 120,
        record { pending = p.pending; issuance = p.issuance; verification = verification },
      )
