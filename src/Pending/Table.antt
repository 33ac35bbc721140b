-- ===== src/Pending/Table.antt =====
-- A challenge is redeemed once, and the table of pending challenges is bounded.
use bagel.Prelude.{
  ℕ, ◌≤◌, ◌≡◌, refl, inl, inr, Bool, not, ◌||◌, Option, none, some, List, [], ◌∷◌, arith, ltb, leb,
  ◌==◌, Bool-cases, Option-cases, leb-false→gt, length, keep,
}
use bagel.Pending.{
  PendingChallenge, PendingTable, capacity, get, remove, expire, expire_from, draw, redeem,
  redeem_entry, store_challenge, is_offered,
}

get-keep :
    (p : ℕ × PendingChallenge → Bool) (key : ℕ) (cs : List (ℕ × PendingChallenge))
    → get key cs ≡ none
    → get key (keep p cs) ≡ none
unfolding get
get-keep p key [] h = refl
get-keep p key ((k, c) ∷ cs) h = elim (Bool-cases (key == k)) [
  | inl same ↦ absurd (cc (rw same at h))
  | inr other ↦ elim (Bool-cases (p (k, c))) [
    | inl kept ↦ rw (kept, other) (get-keep p key cs (rw other at h))
    | inr gone ↦ rw gone (get-keep p key cs (rw other at h))
  ]
]

get-remove : (key : ℕ) (cs : List (ℕ × PendingChallenge)) → get key (remove key cs) ≡ none
unfolding get remove
get-remove key [] = refl
get-remove key ((k, c) ∷ cs) = elim (Bool-cases (key == k)) [
  | inl same ↦ rw same (get-remove key cs)
  | inr other ↦ rw (other, other) (get-remove key cs)
]

-- Expiry brings no challenge back.
get-expire_from :
    (now key : ℕ) (es : List (ℕ × ℕ)) (cs : List (ℕ × PendingChallenge))
    → get key cs ≡ none
    → get key (expire_from now es cs).challenges ≡ none
unfolding expire_from remove
get-expire_from now key [] cs h = h
get-expire_from now key ((e, k) ∷ es) cs h = elim (Bool-cases (ltb now e)) [
  | inl later ↦ rw later h
  | inr due ↦ rw due (get-expire_from now key es (remove k cs) (get-keep _ key cs h))
]

redeem-none :
    (now key digest level : ℕ) (t : PendingTable)
    → get key t.challenges ≡ none
    → (redeem now key digest level t).0 ≡ none
unfolding redeem redeem_entry expire
redeem-none now key digest level t h =
    let gone = get-expire_from now key t.expiries t.challenges h in rw gone refl

redeem_entry_lem :
    (key digest level pass : ℕ) (t : PendingTable) (o : Option PendingChallenge)
    → (redeem_entry key digest level t o).0 ≡ some pass
    → get key (redeem_entry key digest level t o).1.challenges ≡ none
unfolding redeem_entry
redeem_entry_lem key digest level pass t none h = absurd (cc h)
redeem_entry_lem key digest level pass t (some c) h =
    elim (Bool-cases (not (c.binding == digest) || not (is_offered level c))) [
      | inl refused ↦ absurd (cc (rw refused at h))
      | inr taken ↦ rw taken (get-remove key t.challenges)
    ]

-- A key that has been redeemed is refused when it comes again to the table that redeeming left,
-- at any time and with any binding and level.
pub redeem_once :
    (now key digest level pass now' digest' level' : ℕ) (t : PendingTable)
    → (redeem now key digest level t).0 ≡ some pass
    → (redeem now' key digest' level' (redeem now key digest level t).1).0 ≡ none
unfolding redeem
redeem_once now key digest level pass now' digest' level' t h =
    let t' = expire now t in
    redeem-none now' key digest' level' _
      (redeem_entry_lem key digest level pass t' (get key t'.challenges) h)

keep-length :
    (p : ℕ × PendingChallenge → Bool) (cs : List (ℕ × PendingChallenge))
    → length (keep p cs) ≤ length cs
keep-length p [] = omega arith
keep-length p (r ∷ cs) = elim (Bool-cases (p r)) [
  | inl e ↦ rw e (omega (arith, keep-length p cs))
  | inr e ↦ rw e (omega (arith, keep-length p cs))
]

expire_from-length :
    (now : ℕ) (es : List (ℕ × ℕ)) (cs : List (ℕ × PendingChallenge))
    → length (expire_from now es cs).challenges ≤ length cs
unfolding expire_from remove
expire_from-length now [] cs = omega arith
expire_from-length now ((e, k) ∷ es) cs = elim (Bool-cases (ltb now e)) [
  | inl later ↦ rw later (omega arith)
  | inr due ↦
      rw due (
        omega
          (arith, expire_from-length now es (remove k cs), keep-length (λ r. not (k == r.0)) cs))
]

-- Issuing a challenge into a table within the capacity leaves it within the capacity.
pub store_challenge-length :
    (now : ℕ) (keys : List ℕ) (digest pass_key level : ℕ) (gpu_level : Option ℕ) (duration : ℕ)
    (t : PendingTable)
    → length t.challenges ≤ capacity
    → length (store_challenge now keys digest pass_key level gpu_level duration t).1.challenges
      ≤ capacity
unfolding store_challenge expire
store_challenge-length now keys digest pass_key level gpu_level duration t le =
    let fewer = expire_from-length now t.expiries t.challenges in
    let t' = expire_from now t.expiries t.challenges in
    elim (Bool-cases (leb capacity (length t'.challenges))) [
      | inl full ↦ rw full (omega (arith, fewer, le))
      | inr space ↦
          let lt = leb-false→gt capacity (length t'.challenges) space in
          elim (Option-cases (draw keys t'.challenges)) [
            | inl e ↦ rw (space, e) (omega (arith, fewer, le))
            | inr (key, e) ↦ rw (space, e) (omega (arith, lt))
          ]
    ]
