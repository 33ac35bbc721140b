-- ===== src/Defense/Reconcile/Pinned.antt =====
-- The redirects that leases lead to name their protocol and some port.
use bagel.Prelude.{
  ℕ, String, ◌≡◌, refl, inl, inr, Bool, true, not, ◌&&◌, ◌||◌, Option, none, some, List, [], ◌∷◌,
  arith, is_some, Option-cases, All,
}
use bagel.Config.{Action, tarpit_redirect, block_parts, BlockVerdict, drops, rejects, BlockTarget}
use bagel.Store.Result.{Ensures, Ensures-ok, Ensures-bind}
use bagel.Store.Rows.{Lease}
use bagel.Network.{Networks}
use bagel.Firewall.{
  Protocol, Verdict, redirect, Scope, is_redirect, is_empty, new_scope, all_ports, protocol_scope,
}
use bagel.Firewall.Packets.{is_pinned}
use bagel.Firewall.Ports.{new_scope-IsCanonical}
use bagel.Defense.Guard.{Settings}
use bagel.Defense.Rules.{verdict_of, target_scope, redirect_scope, scope_of, membership}

abbrev pinned_scope : Scope → Bool
pinned_scope s = not (is_redirect s.verdict) || (is_some s.protocol && not (is_empty s.ports))

new_scope-pinned :
    (p : Protocol) (ports : List ℕ) (verdict : Verdict)
    → Ensures (λ s. pinned_scope s ≡ true) (new_scope p ports verdict)
new_scope-pinned p ports verdict = record {
  at = λ s e.
      let c = new_scope-IsCanonical p ports verdict s e in
      rw (c.same_protocol_as, c.some_port) (or_true (not (is_redirect s.verdict)));
}
  where
    or_true : (a : Bool) → (a || true) ≡ true
    or_true a = ground arith

target_scope-pinned :
    (v : BlockVerdict) (t : BlockTarget)
    → Ensures (λ s. pinned_scope s ≡ true) (target_scope (verdict_of v) t)
unfolding target_scope verdict_of all_ports protocol_scope
target_scope-pinned drops BlockTarget.all = Ensures-ok _ refl
target_scope-pinned rejects BlockTarget.all = Ensures-ok _ refl
target_scope-pinned drops (BlockTarget.protocol p) = Ensures-ok _ refl
target_scope-pinned rejects (BlockTarget.protocol p) = Ensures-ok _ refl
target_scope-pinned v (BlockTarget.ports p ports) = new_scope-pinned _ ports (verdict_of v)

abbrev IfSome {ℓ} : {A : Type 0} → (A → Type ℓ) → Option A → Type ℓ
IfSome P none = Unit
IfSome P (some a) = P a

module _ {Network : Type 0} (parse_port : String → Option ℕ) (s : Settings Network) where
  redirect_scope-pinned :
      (action : Action)
      → Ensures (IfSome (λ c. pinned_scope c ≡ true)) (redirect_scope parse_port s action)
  unfolding redirect_scope
  redirect_scope-pinned (tarpit_redirect p ports listener) =
      Ensures-bind λ port _.
        Ensures-bind λ c e. Ensures-ok _ ((new_scope-pinned _ ports (redirect port)).at c e)
  redirect_scope-pinned _ = Ensures-ok _ tt

  scope_of-pinned :
      (action : Action)
      → Ensures (IfSome (λ c. pinned_scope c ≡ true)) (scope_of parse_port s action)
  unfolding scope_of
  scope_of-pinned action = elim (Option-cases (block_parts action)) [
    | inl e ↦ rw (e, scope_of) (redirect_scope-pinned action)
    | inr ((v, t), e) ↦
        rw (e, scope_of) (Ensures-bind λ c k. Ensures-ok _ ((target_scope-pinned v t).at c k))
  ]

module _ {Ip Network : Type 0} (nets : Networks Ip Network) (parse_port : String → Option ℕ)
    (s : Settings Network) where
  -- A membership is of the network of its lease.
  pub membership-pinned :
      (l : Lease Network)
      → Ensures
          (All (λ m. (m.network ≡ l.network) × (is_pinned nets m ≡ true)))
          (membership parse_port s l)
  unfolding membership
  membership-pinned l =
      Ensures-bind λ c e. Ensures-ok _ (listed c ((scope_of-pinned parse_port s l.action).at c e))
    where
      listed :
          (c : Option Scope)
          → IfSome (λ c. pinned_scope c ≡ true) c
          → All
              (λ m. (m.network ≡ l.network) × (is_pinned nets m ≡ true))
              (elim c [ none ↦ [] | some c ↦ record { network = l.network; scope = c } ∷ [] ])
      listed none h = tt
      listed (some c) h = ((refl, h), tt)
