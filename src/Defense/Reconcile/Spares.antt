-- ===== src/Defense/Reconcile/Spares.antt =====
-- What a reconciliation enforces against, and what it spares.
use bagel.Prelude.{
  ℕ, String, ◌≡◌, refl, sym, ap, ◌∙◌, inl, inr, Bool, true, false, ◌&&◌, ◌||◌, Option, List, [],
  ◌∷◌, ◌++◌, arith, if◌then◌else◌, Bool-cases, ||-false, ||-cases, ||-true_right, any, All,
}
use bagel.Store.Result.{ok, ok-injective, ◌>>=◌, Ensures, Ensures-ok, Ensures-bind, Ensures-if}
use bagel.Store.Rows.{Lease}
use bagel.Network.{Networks, IsPrefixed, networks_overlap, networks_overlap_lem}
use bagel.Firewall.{Membership, is_block, normalize_memberships}
use bagel.Firewall.Packets.{Packet, matches, blocked, redirected, is_pinned, is_redirect_to}
use bagel.Firewall.Laws.{normalize_memberships-redirected}
use bagel.Firewall.Normal.{sends}
use bagel.Defense.Guard.{Settings, is_protected, is_no_block_network}
use bagel.Defense.Rules.{membership}
use bagel.Defense.Reconcile.{Sorted, add_lease, classify}
use bagel.Defense.Reconcile.Pinned.{membership-pinned}

-- An address in a protected network or in one that is not to be blocked, or one of the machine's own.
unfoldable pub is_sheltered :
    {Ip Network : Type 0} → Networks Ip Network → Settings Network → List Ip → Ip → Bool
is_sheltered nets s locals a =
    any (λ n. nets.contains n a) s.protected
    || (any (λ ip. nets.contains (nets.host ip) a) locals
        || any (λ n. nets.contains n a) s.no_block)

module _ {Ip Network : Type 0} (nets : Networks Ip Network) (law : IsPrefixed nets) where
  pub any-overlap :
      {A : Type 0} (f : A → Network) (n : Network) (a : Ip) (xs : List A)
      → nets.contains n a ≡ true
      → any (λ x. nets.contains (f x) a) xs ≡ true
      → any (λ x. networks_overlap nets (f x) n) xs ≡ true
  any-overlap f n a [] h k = absurd (cc k)
  any-overlap f n a (x ∷ xs) h k = elim (||-cases (nets.contains (f x) a) _ k) [
    | inl here ↦ rw (networks_overlap_lem nets law (f x) n a here h) refl
    | inr later ↦ ||-true_right (networks_overlap nets (f x) n) (any-overlap f n a xs h later)
  ]

  module _ (parse_port : String → Option ℕ) (s : Settings Network) (locals : List Ip) where
    pub is_protected_lem :
        (n : Network)
        → is_protected nets s (ok locals) n
          ≡ ok (
              any (λ p. networks_overlap nets p n) s.protected
              || any (λ ip. networks_overlap nets (nets.host ip) n) locals)
    unfolding is_protected ◌>>=◌
    is_protected_lem n = elim (Bool-cases (any (λ p. networks_overlap nets p n) s.protected)) [
      | inl e ↦ rw e refl
      | inr e ↦ rw e refl
    ]

    -- A network with a sheltered address gets no rule.
    pub guards :
        (n : Network) (a : Ip)
        → is_sheltered nets s locals a ≡ true
        → nets.contains n a ≡ true
        → (guarded : Bool) → is_protected nets s (ok locals) n ≡ ok guarded
        → (guarded || is_no_block_network nets s n) ≡ true
    unfolding is_sheltered is_no_block_network
    guards n a h k guarded e =
        rw (ok-injective (sym e ∙ is_protected_lem n)) (elim (||-cases _ _ h) [
          | inl named ↦ rw (any-overlap (λ p. p) n a s.protected k named) refl
          | inr other ↦ elim (||-cases _ _ other) [
            | inl local ↦
                either
                  {a = any (λ p. networks_overlap nets p n) s.protected
                    || any (λ ip. networks_overlap nets (nets.host ip) n) locals}
                  _ (rw (any-overlap nets.host n a locals k local) (either_true _))
            | inr shared ↦ ||-true_right _ (any-overlap (λ p. p) n a s.no_block k shared)
          ]
        ])
      where
        either_true : (b : Bool) → (b || true) ≡ true
        either_true b = ground arith

        either : {a : Bool} (b : Bool) → a ≡ true → (a || b) ≡ true
        either b h = rw h refl

    abbrev Harmless : Packet Ip → List (Membership Network) → Type 0
    Harmless p ms = All (λ m. is_pinned nets m ≡ true) ms × (any (λ m. matches nets m p) ms ≡ false)

    Harmless-append :
        (p : Packet Ip) (ms ns : List (Membership Network))
        → Harmless p ms
        → Harmless p ns
        → Harmless p (ms ++ ns)
    Harmless-append p [] ns h k = k
    Harmless-append p (m ∷ ms) ns h k =
        let (here, later) = ||-false (matches nets m p) _ h.1 in
        let rest = Harmless-append p ms ns (h.0.1, later) k in
        ((h.0.0, rest.0), rw (here, rest.1) refl)

    add_lease-Harmless :
        (guarded spared : Bool) (l : Lease Network) (p : Packet Ip) (ms : List (Membership Network))
        (c : Sorted Network)
        → Harmless p ms
        → Harmless p c.memberships
        → Harmless p (add_lease guarded spared l ms c).memberships
    unfolding add_lease
    add_lease-Harmless true spared l p ms c h k = k
    add_lease-Harmless false true l p ms c h k = k
    add_lease-Harmless false false l p ms c h k = Harmless-append p ms c.memberships h k

    -- Rules of a network without the packet's source do nothing to it.
    outside :
        (p : Packet Ip) (n : Network) (ms : List (Membership Network))
        → ¬ (nets.contains n p.source ≡ true)
        → All (λ m. (m.network ≡ n) × (is_pinned nets m ≡ true)) ms
        → Harmless p ms
    outside p n [] out h = (tt, refl)
    outside p n (m ∷ ms) out h = elim (Bool-cases (nets.contains m.network p.source)) [
      | inl e ↦ absurd (out (sym (ap (λ k. nets.contains k p.source) h.0.0) ∙ e))
      | inr e ↦ let rest = outside p n ms out h.1 in ((h.0.1, rest.0), rw (e, rest.1) refl)
    ]

    classify-Harmless :
        (p : Packet Ip)
        → is_sheltered nets s locals p.source ≡ true
        → (ls : List (Lease Network))
        → Ensures (λ c. Harmless p c.memberships) (classify nets parse_port s (ok locals) ls)
    unfolding classify
    classify-Harmless p h [] = Ensures-ok _ (tt, refl)
    classify-Harmless p h (l ∷ ls) = Ensures-bind λ guarded e. Ensures-bind λ ms k.
        Ensures-bind λ c d. Ensures-ok _ (
          add_lease-Harmless guarded _ l p ms c ((rule guarded e).at ms k)
            ((classify-Harmless p h ls).at c d))
      where
        rule :
            (guarded : Bool)
            → is_protected nets s (ok locals) l.network ≡ ok guarded
            → Ensures (Harmless p) (
                if guarded || is_no_block_network nets s l.network
                then ok []
                else membership parse_port s l)
        rule guarded e =
            Ensures-if (guarded || is_no_block_network nets s l.network)
              (λ _. Ensures-ok _ (tt, refl))
              (λ f. record {
                at = λ ms k.
                    outside p l.network ms
                      (λ c. absurd (cc (sym (guards l.network p.source h c guarded e) ∙ f)))
                      ((membership-pinned nets parse_port s l).at ms k);
              })

    harmless-blocked :
        (t : ℕ) (p : Packet Ip) (ms rest : List (Membership Network))
        → any (λ m. matches nets m p) rest ≡ false
        → (blocked nets p rest ≡ false) × (any (sends nets t ms p) rest ≡ false)
    unfolding blocked
    harmless-blocked t p ms [] h = (refl, refl)
    harmless-blocked t p ms (m ∷ rest) h =
        let (here, later) = ||-false (matches nets m p) _ h in
        let (a, b) = harmless-blocked t p ms rest later in
        (
          rw (here, a) (and_none (is_block nets m)),
          rw (here, b) (and_none (is_redirect_to nets t m)),
        )
      where
        and_none : (a : Bool) → ((a && false) || false) ≡ false
        and_none a = ground arith

    -- For networks that are prefixes, whatever the leases: when they are sorted and the
    -- memberships are normalized, no rule that results blocks or redirects a packet whose source
    -- is in a protected network or in one that is not to be blocked, or is one of the machine's
    -- own addresses.
    pub classify-redirected :
        (t : ℕ) (p : Packet Ip) (ls : List (Lease Network)) (c : Sorted Network)
        (out : List (Membership Network))
        → is_sheltered nets s locals p.source ≡ true
        → classify nets parse_port s (ok locals) ls ≡ ok c
        → normalize_memberships nets c.memberships ≡ ok out
        → (blocked nets p out ≡ false) × (redirected nets t p out ≡ false)
    classify-redirected t p ls c out h k e =
        let (pin, none_match) = (classify-Harmless p h ls).at c k in
        let (a, b) = harmless-blocked t p c.memberships c.memberships none_match in
        let (d, f) = normalize_memberships-redirected nets t p c.memberships out pin e in
        (d ∙ a, f ∙ b)
