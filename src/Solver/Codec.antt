-- ===== src/Solver/Codec.antt =====
-- The two blobs: what the page hands the solver, and what the solver posts back.
pub mod Trip
use bagel.Prelude.{
  ℕ, zero, suc, ◌+◌, ◌*◌, ◌/◌, ◌%◌, Option, none, some, List, [], ◌∷◌, ◌++◌, ◌==◌, if◌then◌else◌,
  length,
}
use bagel.Http2.Wire.{split_at?}
use bagel.Solver.Seal.{keystream}

pub data Kind : Type 0 where
  sha256 scratch : Kind

pub tag : Kind → ℕ
tag sha256 = 0
tag scratch = 1

pub from_tag : ℕ → Option Kind
from_tag zero = some sha256
from_tag (suc zero) = some scratch
from_tag _ = none

pub record Handoff : Type 0 where
  pub key : List ℕ
  pub kind : Kind
  pub difficulty : ℕ
  pub blocks_log2 : ℕ
  pub gpu_difficulty : ℕ

pub record Solution : Type 0 where
  pub key : List ℕ
  pub nonce : ℕ
  pub difficulty : ℕ
  pub probe : ℕ

-- `u64::to_be_bytes` of the `n` low bytes, and `u64::from_be_bytes`.
pub to_be_bytes : ℕ → ℕ → List ℕ
to_be_bytes zero x = []
to_be_bytes (suc n) x = to_be_bytes n (x / 256) ++ (x % 256 ∷ [])

pub from_be_bytes : ℕ → List ℕ → ℕ
from_be_bytes acc [] = acc
from_be_bytes acc (b ∷ bs) = from_be_bytes (acc * 256 + b) bs

pub pack_handoff : List ℕ → Handoff → List ℕ
pack_handoff iv h =
    iv
    ++ keystream iv (h.key ++ (tag h.kind ∷ h.difficulty ∷ h.blocks_log2 ∷ h.gpu_difficulty ∷ []))

-- The four bytes behind the key.
pub handoff_of : List ℕ → List ℕ → Option Handoff
handoff_of key (t ∷ d ∷ b ∷ g ∷ []) = elim (from_tag t) [
  | none ↦ none
  | some kind ↦
      some (record { key = key; kind = kind; difficulty = d; blocks_log2 = b; gpu_difficulty = g })
]
handoff_of key _ = none

pub unseal_handoff : Option (List ℕ × List ℕ) → Option Handoff
unseal_handoff none = none
unseal_handoff (some (iv, sealed)) = elim (split_at? 32 (keystream iv sealed)) [
  | none ↦ none
  | some (key, rest) ↦ handoff_of key rest
]

pub unpack_handoff : List ℕ → Option Handoff
unpack_handoff blob = if length blob == 40 then unseal_handoff (split_at? 4 blob) else none

pub pack_solution : List ℕ → Solution → List ℕ
pack_solution iv s =
    iv ++ keystream iv (s.key ++ (to_be_bytes 8 s.nonce ++ (s.difficulty ∷ to_be_bytes 8 s.probe)))

pub probe_of : List ℕ → List ℕ → Option (List ℕ × List ℕ) → Option Solution
probe_of key nonce none = none
probe_of key nonce (some (d ∷ [], rest)) = elim (split_at? 8 rest) [
  | none ↦ none
  | some (probe, after) ↦ some (record {
    key = key;
    nonce = from_be_bytes 0 nonce;
    difficulty = d;
    probe = from_be_bytes 0 probe;
  })
]
probe_of key nonce (some _) = none

pub nonce_of : List ℕ → Option (List ℕ × List ℕ) → Option Solution
nonce_of key none = none
nonce_of key (some (nonce, rest)) = probe_of key nonce (split_at? 1 rest)

pub key_of : Option (List ℕ × List ℕ) → Option Solution
key_of none = none
key_of (some (key, rest)) = nonce_of key (split_at? 8 rest)

pub unseal_solution : Option (List ℕ × List ℕ) → Option Solution
unseal_solution none = none
unseal_solution (some (iv, sealed)) = key_of (split_at? 32 (keystream iv sealed))

pub unpack_solution : List ℕ → Option Solution
unpack_solution blob = if length blob == 53 then unseal_solution (split_at? 4 blob) else none
