-- ===== src/Firewall/Ports.antt =====
-- The canonical ports of a scope.
use bagel.Prelude.{
  ℕ, ◌≤◌, ◌<◌, ◌≡◌, refl, ap, ◌∙◌, inl, inr, Bool, false, not, ◌&&◌, ◌||◌, some, List, [], ◌∷◌,
  arith, leb, ◌==◌, leb→le, Bool-cases, leb-false→gt, ==-false→≢, ==→≡, All,
}
use bagel.Store.Result.{ok, Ensures, Ensures-ok, Ensures-err, Ensures-if}
use bagel.Firewall.{
  Protocol, tcp, Verdict, Scope, insert_sorted, sort, dedup_after, dedup, is_empty, elem,
  is_redirect, same_protocol, new_scope,
}

-- Every port is above the one before it.
pub IsAscending : List ℕ → Type 0
IsAscending [] = Unit
IsAscending (p ∷ ps) = All (λ q. p < q) ps × IsAscending ps

IsSorted : List ℕ → Type 0
IsSorted [] = Unit
IsSorted (p ∷ ps) = All (λ q. p ≤ q) ps × IsSorted ps

All-insert_sorted :
    (n p : ℕ) (ps : List ℕ) → n ≤ p → All (λ q. n ≤ q) ps → All (λ q. n ≤ q) (insert_sorted p ps)
unfolding insert_sorted
All-insert_sorted n p [] h a = (h, tt)
All-insert_sorted n p (q ∷ qs) h a = elim (Bool-cases (leb p q)) [
  | inl e ↦ rw e (h, a)
  | inr e ↦ rw e (a.0, All-insert_sorted n p qs h a.1)
]

All-weaken : (m n : ℕ) (ps : List ℕ) → m ≤ n → All (λ q. n ≤ q) ps → All (λ q. m ≤ q) ps
All-weaken m n [] h a = tt
All-weaken m n (p ∷ ps) h a = (omega (arith, a.0), All-weaken m n ps h a.1)

insert_sorted-IsSorted : (p : ℕ) (ps : List ℕ) → IsSorted ps → IsSorted (insert_sorted p ps)
unfolding insert_sorted IsSorted
insert_sorted-IsSorted p [] h = (tt, tt)
insert_sorted-IsSorted p (q ∷ qs) h = elim (Bool-cases (leb p q)) [
  | inl e ↦ let le = leb→le p q e in rw e ((le, All-weaken p q qs le h.0), h)
  | inr e ↦
      let gt = leb-false→gt p q e in
      rw e (All-insert_sorted q p qs (omega (arith, gt)) h.0, insert_sorted-IsSorted p qs h.1)
]

sort-IsSorted : (ps : List ℕ) → IsSorted (sort ps)
unfolding sort IsSorted
sort-IsSorted [] = tt
sort-IsSorted (p ∷ ps) = insert_sorted-IsSorted p (sort ps) (sort-IsSorted ps)

-- What follows a port in the list without repetitions is above it.
dedup_after-IsAscending :
    (p : ℕ) (ps : List ℕ)
    → All (λ q. p ≤ q) ps
    → IsSorted ps
    → All (λ q. p < q) (dedup_after p ps) × IsAscending (dedup_after p ps)
unfolding dedup_after IsSorted IsAscending
dedup_after-IsAscending p [] a s = (tt, tt)
dedup_after-IsAscending p (q ∷ qs) a s = elim (Bool-cases (p == q)) [
  | inl e ↦ rw e (dedup_after-IsAscending p qs a.1 s.1)
  | inr e ↦
      let lt : p < q = omega (arith, a.0, ==-false→≢ p q e) in
      let (above, rest) = dedup_after-IsAscending q qs s.0 s.1 in
      rw e ((lt, All-below p q (dedup_after q qs) lt above), (above, rest))
]
  where
    All-below : (m n : ℕ) (ps : List ℕ) → m < n → All (λ q. n < q) ps → All (λ q. m < q) ps
    All-below m n [] h a = tt
    All-below m n (r ∷ ps) h a = (omega (arith, a.0), All-below m n ps h a.1)

dedup-IsAscending : (ps : List ℕ) → IsSorted ps → IsAscending (dedup ps)
unfolding dedup IsSorted IsAscending
dedup-IsAscending [] h = tt
dedup-IsAscending (p ∷ ps) h = dedup_after-IsAscending p ps h.0 h.1

elem-insert_sorted : (n p : ℕ) (ps : List ℕ) → elem n (insert_sorted p ps) ≡ ((p == n) || elem n ps)
unfolding insert_sorted
elem-insert_sorted n p [] = refl
elem-insert_sorted n p (q ∷ qs) = elim (Bool-cases (leb p q)) [
  | inl e ↦ rw e refl
  | inr e ↦ rw (e, elem-insert_sorted n p qs) (swap (q == n) (p == n) (elem n qs))
]
  where
    swap : (a b c : Bool) → (a || (b || c)) ≡ (b || (a || c))
    swap a b c = ground arith

elem-sort : (n : ℕ) (ps : List ℕ) → elem n (sort ps) ≡ elem n ps
unfolding sort
elem-sort n [] = refl
elem-sort n (p ∷ ps) = rw (elem-insert_sorted n p (sort ps), elem-sort n ps) refl

or_twice : (a b c : Bool) → a ≡ b → (a || c) ≡ (a || (b || c))
or_twice a b c h = ground (arith, h)

elem-dedup_after :
    (n p : ℕ) (ps : List ℕ) → ((p == n) || elem n (dedup_after p ps)) ≡ ((p == n) || elem n ps)
unfolding dedup_after
elem-dedup_after n p [] = refl
elem-dedup_after n p (q ∷ qs) = elim (Bool-cases (p == q)) [
  | inl e ↦ rw e (
      elem-dedup_after n p qs
      ∙ or_twice (p == n) (q == n) (elem n qs) (ap (λ r. r == n) (==→≡ p q e)))
  | inr e ↦ rw e (ap (λ b. (p == n) || b) (elem-dedup_after n q qs))
]

elem-dedup : (n : ℕ) (ps : List ℕ) → elem n (dedup ps) ≡ elem n ps
unfolding dedup
elem-dedup n [] = refl
elem-dedup n (p ∷ ps) = elem-dedup_after n p ps

-- What `new_scope` promises of a scope and a port.
pub record IsCanonical (protocol : Protocol) (ports : List ℕ) (verdict : Verdict) (scope : Scope)
    : Type 0 where
  pub ascending : IsAscending scope.ports
  pub same_ports : (port : ℕ) → elem port scope.ports ≡ elem port ports
  pub some_port : is_empty scope.ports ≡ false
  pub same_protocol_as : scope.protocol ≡ some protocol
  pub same_verdict : scope.verdict ≡ verdict
  pub redirects_tcp : (is_redirect verdict && not (same_protocol protocol tcp)) ≡ false

new_scope-Ensures :
    (protocol : Protocol) (ports : List ℕ) (verdict : Verdict)
    → Ensures (IsCanonical protocol ports verdict) (new_scope protocol ports verdict)
unfolding new_scope
new_scope-Ensures protocol ports verdict =
    Ensures-if (is_empty (dedup (sort ports))) (λ _. Ensures-err _)
      λ filled.
        Ensures-if (is_redirect verdict && not (same_protocol protocol tcp)) (λ _. Ensures-err _)
          λ allowed. Ensures-ok _ record {
            ascending = dedup-IsAscending (sort ports) (sort-IsSorted ports);
            same_ports = λ port. elem-dedup port (sort ports) ∙ elem-sort port ports;
            some_port = filled;
            same_protocol_as = refl;
            same_verdict = refl;
            redirects_tcp = allowed;
          }

-- A scope that `Scope::new` accepts has the given ports, each once and in ascending order, and
-- at least one; it keeps the protocol and the verdict, and is no redirect of UDP.
pub new_scope-IsCanonical :
    (protocol : Protocol) (ports : List ℕ) (verdict : Verdict) (scope : Scope)
    → new_scope protocol ports verdict ≡ ok scope
    → IsCanonical protocol ports verdict scope
new_scope-IsCanonical protocol ports verdict scope h =
    (new_scope-Ensures protocol ports verdict).at scope h
