-- ===== src/Defense/Records/Sequence.antt =====
-- How many records a source can have skipped before one is kept for its checkpoint.
use bagel.Prelude.{
  ℕ, suc, ◌+◌, ◌%◌, ◌≤◌, ◌<◌, String, ◌≡◌, refl, sym, ap, ◌∙◌, inl, inr, true, false, List, [], ◌∷◌,
  ◌++◌, arith, str_eq, eq_iff, ltb, ◌==◌, ==_iff, Bool-cases, lt→ltb, length, All, u64_max,
}
use bagel.Store.Result.{Result, Result-cases, ok, ok-injective, >>=-eq-ok}
use bagel.Store.Rows.{OffenseInput}
use bagel.Network.{Networks}
use bagel.Defense.Guard.{Settings}
use bagel.Defense.Records.{
  SourceRecord, CompiledPolicy, Detect, Marks, sequence_of, set_sequence, next_sequence,
  record_offenses, keep_record, gather,
}

sequence_of-set_sequence :
    (source : String) (n : ℕ) (sequences : List (String × ℕ))
    → sequence_of source (set_sequence source n sequences) ≡ n
unfolding set_sequence
sequence_of-set_sequence source n [] = rw ((eq_iff source source).1 refl) refl
sequence_of-set_sequence source n ((s, m) ∷ rest) = elim (Bool-cases (str_eq s source)) [
  | inl e ↦ rw (e, e) refl
  | inr e ↦ rw (e, e) (sequence_of-set_sequence source n rest)
]

-- A step that does not reach a multiple of 128 stays within its block.
step_within :
    (n left : ℕ)
    → n + suc left ≤ u64_max
    → (next_sequence n % 128 == 0) ≡ false
    → next_sequence n % 128 + left < 128
    → (n % 128 + suc left < 128) × (next_sequence n ≡ suc n)
step_within n left h k l =
    let grows : ltb n u64_max ≡ true = lt→ltb n u64_max (omega (arith, h)) in
    let away : ¬ (suc n % 128 ≡ 0) =
      λ z. absurd (cc (rw grows at k, (==_iff (suc n % 128) 0).1 z)) in
    (omega (arith, away, rw grows at l), rw grows refl)

append-empty {ℓ} : {A : Type ℓ} (xs ys : List A) → xs ++ ys ≡ [] → (xs ≡ []) × (ys ≡ [])
append-empty [] ys h = (refl, h)
append-empty (x ∷ xs) ys h = absurd (cc h)

module _ {Ip Network Context : Type 0} (nets : Networks Ip Network)
    (detect : Detect Network Context) (s : Settings Network) (locals : Result (List Ip)) where
  -- A record that yields no event moves its source's sequence to a number off the multiples of 128.
  keep_record-empty :
      (r : SourceRecord) (os : List (OffenseInput Network)) (sequences : List (String × ℕ))
      → (keep_record nets detect s locals r os sequences).0 ≡ []
      → ((next_sequence (sequence_of r.source sequences) % 128 == 0) ≡ false)
        × ((keep_record nets detect s locals r os sequences).1
            ≡ set_sequence r.source (next_sequence (sequence_of r.source sequences)) sequences)
  unfolding keep_record
  keep_record-empty r (o ∷ os) sequences h = absurd (cc h)
  keep_record-empty r [] sequences h = elim (Bool-cases r.oversized) [
    | inl e ↦ absurd (cc (simp e at h))
    | inr e ↦ elim (Bool-cases (next_sequence (sequence_of r.source sequences) % 128 == 0)) [
      | inl k ↦ absurd (cc (simp (e, k) at h))
      | inr k ↦ (k, simp e refl)
    ]
  ]

  gather-within :
      (source : String) (ps : List (CompiledPolicy Network)) (rs : List SourceRecord)
      (marks : Marks Context)
      → All (λ r. r.source ≡ source) rs
      → sequence_of source marks.sequences + length rs ≤ u64_max
      → (gather nets detect s locals ps rs marks).0 ≡ ok []
      → sequence_of source marks.sequences % 128 + length rs < 128
  unfolding gather
  gather-within source ps [] marks same h e = omega arith
  gather-within source ps (r ∷ rs) marks same h e =
      elim (Result-cases (record_offenses nets detect s locals r ps marks.context).0) [
        | inr (x, k) ↦ absurd (cc (rw (k, gather) at e))
        | inl (os, k) ↦
            let kept = keep_record nets detect s locals r os marks.sequences in
            let context = (record_offenses nets detect s locals r ps marks.context).1 in
            let next = next_sequence (sequence_of source marks.sequences) in
            let (more, done, nothing) =
              >>=-eq-ok
                (gather nets detect s locals ps rs
                  (record { sequences = kept.1; context = context })).0
                (λ more. ok (kept.0 ++ more)) (rw (k, gather) at e) in
            let (none_kept, none_later) = append-empty kept.0 more (ok-injective nothing) in
            let (off, moved) = keep_record-empty r os marks.sequences none_kept in
            let now : sequence_of source kept.1 ≡ next =
              ap (sequence_of source) moved ∙ moves same.0 in
            let off_source : (next % 128 == 0) ≡ false =
              sym (ap (λ t. next_sequence (sequence_of t marks.sequences) % 128 == 0) same.0)
              ∙ off in
            let small : next ≤ suc (sequence_of source marks.sequences) =
              next_small (sequence_of source marks.sequences) in
            let rest =
              gather-within source ps rs (record { sequences = kept.1; context = context }) same.1
                (omega (arith, now, small, h)) (done ∙ ap ok none_later) in
            (step_within (sequence_of source marks.sequences) (length rs) h off_source
              (rw now at rest)).0
      ]
    where
      next_small : (n : ℕ) → next_sequence n ≤ suc n
      next_small n = ground arith

      moves :
          r.source ≡ source
          → sequence_of source (
              set_sequence r.source
                (next_sequence (sequence_of r.source marks.sequences))
                marks.sequences)
            ≡ next_sequence (sequence_of source marks.sequences)
      moves e = rw e (
          sequence_of-set_sequence source (next_sequence (sequence_of source marks.sequences))
            marks.sequences)

  -- A checkpoint is kept in time: records of one source that are gathered without an error and
  -- without any event are fewer than 128, while the sequence of the source stays within 64 bits.
  pub gather-length :
      (source : String) (ps : List (CompiledPolicy Network)) (rs : List SourceRecord)
      (marks : Marks Context)
      → All (λ r. r.source ≡ source) rs
      → sequence_of source marks.sequences + length rs ≤ u64_max
      → (gather nets detect s locals ps rs marks).0 ≡ ok []
      → length rs < 128
  gather-length source ps rs marks same h e =
      omega (arith, gather-within source ps rs marks same h e)
