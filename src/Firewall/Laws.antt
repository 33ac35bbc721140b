-- ===== src/Firewall/Laws.antt =====
-- The normalized memberships as a whole.
use bagel.Prelude.{
  ℕ, ◌≡◌, refl, sym, ap, ◌∙◌, inl, inr, Bool, true, false, ◌&&◌, ◌||◌, List, [], ◌∷◌, ◌++◌, arith,
  Bool-cases, Option-cases, &&-true, ||-cases, ||-true_right, keep, any, All,
}
use bagel.Store.Result.{ok, Ensures, Ensures-ok, Ensures-err, Ensures-bind, Ensures-if}
use bagel.Network.{Networks, IsPrefixed, networks_overlap_lem}
use bagel.Firewall.{
  Scope, Protocol, Membership, is_empty, is_block, is_blocker, redirects, open_ports, is_conflict,
  with_ports, normalize_memberships,
}
use bagel.Firewall.Packets.{
  Packet, takes, scope_matches, matches, is_redirect_to, redirected, blocked, is_shadowed,
  is_pinned,
}
use bagel.Firewall.Normal.{Verdict-cases, protocols_overlap_lem, redirects-redirected, sends}
use bagel.Firewall.Agree.{redirects-agree}

any-append {ℓ} :
    {A : Type ℓ} (p : A → Bool) (xs ys : List A) → any p (xs ++ ys) ≡ (any p xs || any p ys)
any-append p [] ys = refl
any-append p (x ∷ xs) ys = rw (any-append p xs ys) (or_assoc (p x) (any p xs) (any p ys))
  where
    or_assoc : (a b c : Bool) → (a || (b || c)) ≡ ((a || b) || c)
    or_assoc a b c = ground arith

scope_matches-takes :
    (s : Scope) (protocol : Protocol) (port : ℕ)
    → scope_matches s protocol port ≡ true
    → takes port s ≡ true
scope_matches-takes s protocol port h = elim (Option-cases s.protocol) [
  | inl e ↦ rw e refl
  | inr (q, e) ↦ rw e (&&-true _ _ (rw e at h)).1
]

module _ {Ip Network : Type 0} (nets : Networks Ip Network) where
  block_target :
      (t : ℕ) (m : Membership Network) → is_block nets m ≡ true → is_redirect_to nets t m ≡ false
  block_target t m h = elim (Verdict-cases m.scope.verdict) [
    | inl e ↦ rw e refl
    | inr (inl e) ↦ rw e refl
    | inr (inr (τ, e)) ↦ absurd (cc (rw e at h))
  ]

  blocks-redirected :
      (t : ℕ) (p : Packet Ip) (ms : List (Membership Network))
      → redirected nets t p (keep (is_block nets) ms) ≡ false
  unfolding redirected
  blocks-redirected t p [] = refl
  blocks-redirected t p (m ∷ ms) = elim (Bool-cases (is_block nets m)) [
    | inl e ↦ rw e (rw (block_target t m e) (blocks-redirected t p ms))
    | inr e ↦ rw e (blocks-redirected t p ms)
  ]

  blocks-blocked :
      (p : Packet Ip) (ms : List (Membership Network))
      → blocked nets p (keep (is_block nets) ms) ≡ blocked nets p ms
  unfolding blocked
  blocks-blocked p [] = refl
  blocks-blocked p (m ∷ ms) = elim (Bool-cases (is_block nets m)) [
    | inl e ↦ rw e (rw e (ap (λ b. matches nets m p || b) (blocks-blocked p ms)))
    | inr e ↦ rw e (blocks-blocked p ms)
  ]

  -- The adjusted redirects block nothing.
  redirects-blocked :
      (p : Packet Ip) (all rest : List (Membership Network))
      → Ensures (λ out. blocked nets p out ≡ false) (redirects nets all rest)
  unfolding redirects blocked with_ports
  redirects-blocked p all [] = Ensures-ok _ refl
  redirects-blocked p all (m ∷ rest) = elim (Verdict-cases m.scope.verdict) [
    | inl e ↦ rw e (redirects-blocked p all rest)
    | inr (inl e) ↦ rw e (redirects-blocked p all rest)
    | inr (inr (τ, e)) ↦ simp e (
        Ensures-if (is_empty (open_ports nets all m)) (λ _. redirects-blocked p all rest)
          (λ _.
            Ensures-if (any (is_conflict nets τ m (open_ports nets all m)) rest)
              (λ _. Ensures-err _)
              (λ _. Ensures-bind λ ms k. Ensures-ok _ ((redirects-blocked p all rest).at ms k))))
  ]

  -- What holds of the two parts of the normalized list holds of it.
  normalize_memberships-Ensures :
      (t : ℕ) (p : Packet Ip) (ms : List (Membership Network))
      → All (λ m. is_pinned nets m ≡ true) ms
      → Ensures
          (λ out.
            (blocked nets p out ≡ blocked nets p ms)
            × (redirected nets t p out ≡ any (sends nets t ms p) ms))
          (normalize_memberships nets ms)
  unfolding normalize_memberships redirected blocked
  normalize_memberships-Ensures t p ms pin = Ensures-bind λ rs k. Ensures-ok _ (
    any-append _ (keep (is_block nets) ms) rs
        ∙ both_or (blocks-blocked p ms) ((redirects-blocked p ms ms).at rs k)
        ∙ or_none (blocked nets p ms),
    any-append _ (keep (is_block nets) ms) rs
        ∙ both_or (blocks-redirected t p ms) ((redirects-redirected nets t ms p ms pin).at rs k),
  )
    where
      both_or : {a b c d : Bool} → a ≡ b → c ≡ d → (a || c) ≡ (b || d)
      both_or h l = rw (h, l) refl

      or_none : (a : Bool) → (a || false) ≡ a
      or_none a = ground arith

  -- Where every redirect names its protocol and some port and the memberships are normalized
  -- without an error, the result blocks the packets that they block, and redirects a packet to a
  -- port just where one of the redirects does so and no block that overlaps its network and
  -- protocol holds the packet's port.
  pub normalize_memberships-redirected :
      (t : ℕ) (p : Packet Ip) (ms out : List (Membership Network))
      → All (λ m. is_pinned nets m ≡ true) ms
      → normalize_memberships nets ms ≡ ok out
      → (blocked nets p out ≡ blocked nets p ms)
        × (redirected nets t p out ≡ any (sends nets t ms p) ms)
  normalize_memberships-redirected t p ms out pin h =
      (normalize_memberships-Ensures t p ms pin).at out h

module _ {Ip Network : Type 0} (nets : Networks Ip Network) (law : IsPrefixed nets) where
  -- A rule that blocks a packet takes its port from every redirect of it.
  blocked-is_shadowed :
      (p : Packet Ip) (m : Membership Network) (bs : List (Membership Network))
      → matches nets m p ≡ true
      → blocked nets p bs ≡ true
      → is_shadowed nets bs m p.port ≡ true
  unfolding blocked is_shadowed
  blocked-is_shadowed p m [] hm h = absurd (cc h)
  blocked-is_shadowed p m (b ∷ bs) hm h =
      elim (||-cases (is_block nets b && matches nets b p) _ h) [
        | inr later ↦
            ||-true_right (is_blocker nets m b && takes p.port b.scope)
              (blocked-is_shadowed p m bs hm later)
        | inl here ↦
            let (blocks, hit) = &&-true (is_block nets b) (matches nets b p) here in
            let (b_net, b_scope) = &&-true (nets.contains b.network p.source) _ hit in
            let (m_net, m_scope) = &&-true (nets.contains m.network p.source) _ hm in
            rw
              (
                blocks,
                networks_overlap_lem nets law b.network m.network p.source b_net m_net,
                protocols_overlap_lem b.scope m.scope p.protocol p.port b_scope m_scope,
                scope_matches-takes b.scope p.protocol p.port b_scope,
              )
              refl
      ]

  sends-blocked :
      (t : ℕ) (p : Packet Ip) (all rest : List (Membership Network))
      → blocked nets p all ≡ true
      → any (sends nets t all p) rest ≡ false
  sends-blocked t p all [] h = refl
  sends-blocked t p all (m ∷ rest) h = elim (Bool-cases (matches nets m p)) [
    | inl e ↦
        rw (blocked-is_shadowed p m all e h)
          (nothing (is_redirect_to nets t m) (matches nets m p) (sends-blocked t p all rest h))
    | inr e ↦ rw e (none_of (is_redirect_to nets t m) (sends-blocked t p all rest h))
  ]
    where
      nothing : (a b : Bool) {c : Bool} → c ≡ false → ((a && (b && false)) || c) ≡ false
      nothing a b h = ground (arith, h)

      none_of : (a : Bool) {c : Bool} → c ≡ false → ((a && false) || c) ≡ false
      none_of a h = ground (arith, h)

  pub normalize_memberships-blocked :
      (t : ℕ) (p : Packet Ip) (ms out : List (Membership Network))
      → All (λ m. is_pinned nets m ≡ true) ms
      → normalize_memberships nets ms ≡ ok out
      → blocked nets p ms ≡ true
      → redirected nets t p out ≡ false
  normalize_memberships-blocked t p ms out pin h b =
      (normalize_memberships-redirected nets t p ms out pin h).1 ∙ sends-blocked t p ms ms b

  normalize_memberships-agree-Ensures :
      (t u : ℕ) (p : Packet Ip) (ms : List (Membership Network))
      → All (λ m. is_pinned nets m ≡ true) ms
      → Ensures
          (λ out. redirected nets t p out ≡ true → redirected nets u p out ≡ true → t ≡ u)
          (normalize_memberships nets ms)
  unfolding normalize_memberships redirected
  normalize_memberships-agree-Ensures t u p ms pin = Ensures-bind λ rs k.
      Ensures-ok _
        (λ a b. (redirects-agree nets law t u ms p ms pin).at rs k (later t rs a) (later u rs b))
    where
      later :
          (v : ℕ) (rs : List (Membership Network))
          → redirected nets v p (keep (is_block nets) ms ++ rs) ≡ true
          → redirected nets v p rs ≡ true
      later v rs h =
          rw (blocks-redirected nets v p ms) at
            (sym (any-append _ (keep (is_block nets) ms) rs) ∙ h)

  -- For networks that are prefixes and redirects that name their protocol and some port,
  -- memberships that are normalized without an error do not redirect one packet to two ports.
  pub normalize_memberships-agree :
      (t u : ℕ) (p : Packet Ip) (ms out : List (Membership Network))
      → All (λ m. is_pinned nets m ≡ true) ms
      → normalize_memberships nets ms ≡ ok out
      → redirected nets t p out ≡ true
      → redirected nets u p out ≡ true
      → t ≡ u
  normalize_memberships-agree t u p ms out pin h =
      (normalize_memberships-agree-Ensures t u p ms pin).at out h
