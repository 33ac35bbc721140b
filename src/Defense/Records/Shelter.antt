-- ===== src/Defense/Records/Shelter.antt =====
-- The networks that records lead to offenses and to active leases of.
use bagel.Prelude.{
  ℕ, ◌%◌, String, ◌≡◌, refl, inl, inr, Bool, true, false, not, ◌&&◌, ◌||◌, Option, none, some, List,
  [], ◌∷◌, ◌++◌, str_eq, eq_iff, ◌==◌, Bool-cases, is_some, ||-true_right, any, All, All-map,
}
use bagel.Config.{Action, block_parts}
use bagel.Store.Result.{
  Result, Result-cases, ok, Ensures, Ensures-ok, Ensures-err, Ensures-bind, Ensures-if,
}
use bagel.Store.Rows.{OffenseInput, EventInput}
use bagel.Network.{Networks}
use bagel.Defense.Guard.{Settings, is_protected, is_no_block_network, enforcement_action}
use bagel.Defense.Records.{
  next_sequence, sequence_of, SourceRecord, Detection, CompiledPolicy, Detect, Marks, offense_input,
  is_ignored, accept, accept_detected, offenses, record_offenses, event_of, keep_record, gather,
}

All-append {ℓ} :
    {A : Type 0} (P : A → Type ℓ) (xs ys : List A) → All P xs → All P ys → All P (xs ++ ys)
All-append P [] ys h k = k
All-append P (x ∷ xs) ys h k = (h.0, All-append P xs ys h.1 k)

module _ {Ip Network Context : Type 0} (nets : Networks Ip Network)
    (detect : Detect Network Context) (s : Settings Network) (locals : Result (List Ip)) where
  -- An offense of a policy that reads the source and does not ignore the network, against a network
  -- that is not protected; where the network is not to be blocked, the action is no block.
  pub record Admitted (source : String) (ps : List (CompiledPolicy Network))
      (o : OffenseInput Network) : Type 0 where
    pub unprotected : is_protected nets s locals o.network ≡ ok false
    pub unblocked : (is_no_block_network nets s o.network && is_some (block_parts o.action)) ≡ false
    pub asked :
        any
          (λ p.
            str_eq p.name o.policy
            && (str_eq p.source source && not (is_ignored nets detect s locals p o.network)))
          ps
        ≡ true

  Admitted-more :
      (source : String) (p : CompiledPolicy Network) (ps : List (CompiledPolicy Network))
      (o : OffenseInput Network)
      → Admitted source ps o
      → Admitted source (p ∷ ps) o
  Admitted-more source p ps o h = record {
    unprotected = h.unprotected;
    unblocked = h.unblocked;
    asked = ||-true_right _ h.asked;
  }

  enforcement_action-unblocked :
      (n : Network) (action : Action)
      → (is_no_block_network nets s n && is_some (block_parts (enforcement_action nets s n action)))
        ≡ false
  unfolding enforcement_action block_parts
  enforcement_action-unblocked n action = elim (Bool-cases (is_no_block_network nets s n)) [
    | inr e ↦ rw e refl
    | inl e ↦ elim (Bool-cases (is_some (block_parts action))) [
      | inl k ↦ rw (e, k) refl
      | inr k ↦ rw (e, k) k
    ]
  ]

  accept-Admitted :
      (r : SourceRecord) (p : CompiledPolicy Network) (ps : List (CompiledPolicy Network))
      (d : Detection Network)
      → str_eq p.source r.source ≡ true
      → Ensures (All (Admitted r.source (p ∷ ps))) (accept nets detect s locals p d)
  unfolding accept offense_input
  accept-Admitted r p ps d h = Ensures-bind λ guarded e.
      Ensures-if (guarded || is_ignored nets detect s locals p d.network) (λ _. Ensures-ok _ tt)
        λ f. Ensures-ok _ (admitted guarded e f, tt)
    where
      admitted :
          (guarded : Bool)
          → is_protected nets s locals d.network ≡ ok guarded
          → (guarded || is_ignored nets detect s locals p d.network) ≡ false
          → Admitted r.source (p ∷ ps) (offense_input nets detect s locals p d)
      admitted true e f = absurd (cc f)
      admitted false e f = record {
        unprotected = e;
        unblocked = enforcement_action-unblocked d.network p.action;
        asked = rw ((eq_iff p.name p.name).1 refl, h, f) refl;
      }

  accept_detected-Admitted :
      (r : SourceRecord) (p : CompiledPolicy Network) (ps : List (CompiledPolicy Network))
      (d : Option (Detection Network))
      → str_eq p.source r.source ≡ true
      → Ensures (All (Admitted r.source (p ∷ ps))) (accept_detected nets detect s locals p d)
  unfolding accept_detected
  accept_detected-Admitted r p ps none h = Ensures-ok _ tt
  accept_detected-Admitted r p ps (some d) h = accept-Admitted r p ps d h

  offenses-Admitted :
      (r : SourceRecord) (ps : List (CompiledPolicy Network)) (context : Context)
      → Ensures (All (Admitted r.source ps)) (offenses nets detect s locals r ps context).0
  unfolding offenses
  offenses-Admitted r [] context = Ensures-ok _ tt
  offenses-Admitted r (p ∷ ps) context = elim (Bool-cases (str_eq p.source r.source)) [
    | inr e ↦ rw e (weaker (offenses-Admitted r ps context))
    | inl e ↦
        let after = (detect p.name r.payload r.observed_at r.correlation context).1 in
        elim (Result-cases (
          accept_detected nets detect s locals p
            (detect p.name r.payload r.observed_at r.correlation context).0)) [
              | inr (x, k) ↦ rw (e, k) (Ensures-err x)
              | inl (os, k) ↦
                  rw (e, k)
                    (Ensures-bind λ later d. Ensures-ok _ (
                      All-append _ os later ((accept_detected-Admitted r p ps _ e).at os k)
                        ((weaker (offenses-Admitted r ps after)).at later d)))
            ]
  ]
    where
      weaker :
          {x : Result (List (OffenseInput Network))}
          → Ensures (All (Admitted r.source ps)) x
          → Ensures (All (Admitted r.source (p ∷ ps))) x
      weaker h = record { at = λ os e. All-map os (λ o. Admitted-more r.source p ps o) (h.at os e) }

  abbrev EventAdmitted : List (CompiledPolicy Network) → EventInput Network → Type 0
  EventAdmitted ps e = All (Admitted e.source ps) e.offenses

  record_offenses-Admitted :
      (r : SourceRecord) (ps : List (CompiledPolicy Network)) (context : Context)
      → Ensures (All (Admitted r.source ps)) (record_offenses nets detect s locals r ps context).0
  unfolding record_offenses
  record_offenses-Admitted r ps context = elim (Bool-cases r.oversized) [
    | inl e ↦ simp e (Ensures-ok _ tt)
    | inr e ↦ simp e (offenses-Admitted r ps context)
  ]

  keep_record-Admitted :
      (r : SourceRecord) (ps : List (CompiledPolicy Network)) (os : List (OffenseInput Network))
      (sequences : List (String × ℕ))
      → All (Admitted r.source ps) os
      → All (EventAdmitted ps) (keep_record nets detect s locals r os sequences).0
  unfolding keep_record event_of
  keep_record-Admitted r ps (o ∷ os) sequences h = (h, tt)
  keep_record-Admitted r ps [] sequences h = elim (Bool-cases r.oversized) [
    | inl e ↦ rw e (tt, tt)
    | inr e ↦ elim (Bool-cases (next_sequence (sequence_of r.source sequences) % 128 == 0)) [
      | inl k ↦ rw (e, k) (tt, tt)
      | inr k ↦ rw (e, k) tt
    ]
  ]

  gather-Ensures :
      (ps : List (CompiledPolicy Network)) (rs : List SourceRecord) (marks : Marks Context)
      → Ensures (All (EventAdmitted ps)) (gather nets detect s locals ps rs marks).0
  unfolding gather
  gather-Ensures ps [] marks = Ensures-ok _ tt
  gather-Ensures ps (r ∷ rs) marks =
      elim (Result-cases (record_offenses nets detect s locals r ps marks.context).0) [
        | inr (x, e) ↦ rw (e, gather) (Ensures-err x)
        | inl (os, e) ↦
            rw (e, gather)
              (Ensures-bind λ more k. Ensures-ok _ (
                All-append (EventAdmitted ps) _ more
                  (keep_record-Admitted r ps os marks.sequences
                    ((record_offenses-Admitted r ps marks.context).at os e))
                  ((gather-Ensures ps rs _).at more k)))
      ]

  -- When a batch of records is gathered without an error, each offense of each event is of a
  -- policy that reads the source of its record and does not ignore the network, the network is
  -- not protected, and where it is not to be blocked the action is no block.
  pub gather-Admitted :
      (ps : List (CompiledPolicy Network)) (rs : List SourceRecord) (marks : Marks Context)
      (events : List (EventInput Network))
      → (gather nets detect s locals ps rs marks).0 ≡ ok events
      → All (λ e. All (Admitted e.source ps) e.offenses) events
  gather-Admitted ps rs marks events h = (gather-Ensures ps rs marks).at events h
