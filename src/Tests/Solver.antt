-- ===== src/Tests/Solver.antt =====
-- The solver's blobs at concrete inputs.
use bagel.Prelude.{ℕ, ◌<◌, ◌≡◌, refl, some, List, [], ◌∷◌, arith, All}
use bagel.Solver.Codec.{
  sha256, Handoff, Solution, pack_handoff, unpack_handoff, pack_solution, unpack_solution,
}
use bagel.Solver.Codec.Trip.{IsHandoff, IsSolution, unpack-pack}

abbrev key : List ℕ
key =
    1 ∷ 2 ∷ 3 ∷ 4 ∷ 5 ∷ 6 ∷ 7 ∷ 8 ∷ 9 ∷ 10 ∷ 11 ∷ 12 ∷ 13 ∷ 14 ∷ 15 ∷ 16 ∷ 17 ∷ 18 ∷ 19 ∷ 20 ∷ 21
    ∷ 22 ∷ 23 ∷ 24 ∷ 25 ∷ 26 ∷ 27 ∷ 28 ∷ 29 ∷ 30 ∷ 31 ∷ 255 ∷ []

abbrev handoff : Handoff
handoff = record { key = key; kind = sha256; difficulty = 5; blocks_log2 = 0; gpu_difficulty = 7 }

abbrev solution : Solution
solution = record {
  key = key;
  nonce = 81985529216486895;
  difficulty = 5;
  probe = 18446744073709551615;
}

abbrev iv : List ℕ
iv = 10 ∷ 20 ∷ 30 ∷ 40 ∷ []

key_bytes : All (λ b. b < 256) key
key_bytes = grind arith

handoff-IsHandoff : IsHandoff handoff
handoff-IsHandoff = record {
  key_length = refl;
  key_bytes = key_bytes;
  difficulty_byte = omega arith;
  blocks_byte = omega arith;
  gpu_byte = omega arith;
}

solution-IsSolution : IsSolution solution
solution-IsSolution = record {
  key_length = refl;
  key_bytes = key_bytes;
  nonce_u64 = omega arith;
  difficulty_byte = omega arith;
  probe_u64 = omega arith;
}

unpack-pack_example :
    (unpack_handoff (pack_handoff iv handoff) ≡ some handoff)
    × (unpack_solution (pack_solution iv solution) ≡ some solution)
unpack-pack_example = unpack-pack iv handoff solution refl handoff-IsHandoff solution-IsSolution
