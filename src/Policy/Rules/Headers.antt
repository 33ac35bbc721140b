-- ===== src/Policy/Rules/Headers.antt =====
-- The headers that `context` rules add: outer ones win in the answer to the client, inner ones in
-- the request upstream.
use bagel.Prelude.{
  String, ◌≡◌, refl, sym, ap, ◌∙◌, inl, inr, true, false, Option, none, some, [], ◌∷◌, str_eq,
  eq_iff, Bool-cases,
}
use bagel.Policy.Rules.{
  HeaderMap, insert, insert_all, get, Marker, Response, RuleOutcome, continue, dropped, handled,
  context, rule, RuleList, end, next, View, with_request_headers, Calls, attach, attach_pending,
}
use bagel.Policy.Rules.Walk.{under, settle, evaluate_rule, eval_children}

-- A name stands once in a map.
abbrev pub IsDistinct : HeaderMap → Type 0
IsDistinct [] = Unit
IsDistinct ((n, v) ∷ rest) = (get n rest ≡ none) × IsDistinct rest

abbrev pub or_else : {A : Type 0} → Option A → Option A → Option A
or_else none b = b
or_else (some a) b = some a

get-insert_same :
    (name value : String) (h : HeaderMap) → get name (insert name value h) ≡ some value
unfolding insert
get-insert_same name value [] = rw ((eq_iff name name).1 refl) refl
get-insert_same name value ((n, v) ∷ rest) = elim (Bool-cases (str_eq n name)) [
  | inl e ↦ rw (e, (eq_iff name name).1 refl) refl
  | inr e ↦ rw (e, e) (get-insert_same name value rest)
]

get-insert_other :
    (name other value : String) (h : HeaderMap)
    → str_eq name other ≡ false
    → get other (insert name value h) ≡ get other h
unfolding insert
get-insert_other name other value [] d = rw d refl
get-insert_other name other value ((n, v) ∷ rest) d = elim (Bool-cases (str_eq n name)) [
  | inl e ↦ rw (e, d, same e) refl
  | inr e ↦ elim (Bool-cases (str_eq n other)) [
    | inl k ↦ rw (e, k) refl
    | inr k ↦ rw (e, k) (get-insert_other name other value rest d)
  ]
]
  where
    same : str_eq n name ≡ true → str_eq n other ≡ false
    same e = ap (λ t. str_eq t other) ((eq_iff n name).0 e) ∙ d

-- What the inserted map has wins.
pub get-insert_all :
    (name : String) (a b : HeaderMap)
    → IsDistinct a
    → get name (insert_all a b) ≡ or_else (get name a) (get name b)
unfolding insert_all
get-insert_all name [] b d = refl
get-insert_all name ((n, v) ∷ rest) b d = elim (Bool-cases (str_eq n name)) [
  | inl e ↦
      let here : get name rest ≡ none = ap (λ t. get t rest) (sym ((eq_iff n name).0 e)) ∙ d.0 in
      get-insert_all name rest (insert n v b) d.1
      ∙ rw (e, here)
          (ap (λ t. get t (insert n v b)) (sym ((eq_iff n name).0 e)) ∙ get-insert_same n v b)
  | inr e ↦
      get-insert_all name rest (insert n v b) d.1
      ∙ rw e (ap (or_else (get name rest)) (get-insert_other n name v b e))
]

-- The headers of the answer that the rules have set so far, and those of the request upstream.
abbrev pub set_headers : {Body : Type 0} → Response Body → HeaderMap
set_headers r = elim r.marker [
  | none ↦ r.headers
  | some m ↦ elim r.pending_response [ none ↦ [] | some h ↦ h ]
]

pub attach-set_headers :
    {Body : Type 0} (request response : HeaderMap) (r : Response Body) (name : String)
    → IsDistinct response
    → get name (set_headers (attach request response r))
      ≡ or_else (get name response) (get name (set_headers r))
attach-set_headers {Body} request response r name d = by_marker r.marker
  where
    by_marker :
        (m : Option Marker)
        → get name (set_headers (attach request response (record r { marker = m })))
          ≡ or_else (get name response) (get name (set_headers (record r { marker = m })))
    by_marker none = unfold attach in get-insert_all name response r.headers d
    by_marker (some m) =
        unfold attach in
        get-insert_all name response (elim r.pending_response [ none ↦ [] | some h ↦ h ]) d

-- The headers upstream that a proxied response asks for.
abbrev pub sent_headers : {Body : Type 0} → HeaderMap → Response Body → HeaderMap
sent_headers default r = elim r.pending_request [ none ↦ default | some h ↦ h ]

module _ {Ast Pattern Body State : Type 0} (calls : Calls Ast Pattern Body State) where
  abbrev pub map_handled :
      (Response Body → Response Body) → RuleOutcome Body × State → RuleOutcome Body × State
  map_handled f (continue, st) = (continue, st)
  map_handled f (dropped, st) = (dropped, st)
  map_handled f (handled r, st) = (handled (f r), st)

  settle-map_handled :
      (pending : Option (HeaderMap × HeaderMap)) (one rest rest' : RuleOutcome Body × State)
      → rest ≡ map_handled (attach_pending pending) rest'
      → settle calls pending one rest
        ≡ map_handled (attach_pending pending) (settle calls none one rest')
  unfolding settle
  settle-map_handled pending (continue, st) rest rest' h = h
  settle-map_handled pending (dropped, st) rest rest' h = refl
  settle-map_handled pending (handled r, st) rest rest' h = unfold attach_pending in refl

  pub eval_children-pending :
      (rs : RuleList Ast Pattern) (pending : Option (HeaderMap × HeaderMap)) (view : View)
      (st : State)
      → eval_children calls rs pending view st
        ≡ map_handled (attach_pending pending) (eval_children calls rs none view st)
  unfolding eval_children
  eval_children-pending end pending view st = refl
  eval_children-pending (next r rs) pending view st =
      settle-map_handled pending (evaluate_rule calls r view st) _ _
        (eval_children-pending rs pending view (evaluate_rule calls r view st).1)

  context_answer :
      (name : String) (response request : HeaderMap) (kids : RuleList Ast Pattern) (view : View)
      (st after : State) (r : Response Body)
      → eval_children calls kids none (with_request_headers calls.text_of request view) st
        ≡ (handled r, after)
      → evaluate_rule calls (rule name none (context response request) kids) view st ≡ (
        handled (attach (with_request_headers calls.text_of request view).headers response r),
        after,
      )
  unfolding evaluate_rule under attach_pending
  context_answer name response request kids view st after r h =
      let inner = with_request_headers calls.text_of request view in
      eval_children-pending kids (some (inner.headers, response)) inner st ∙ ap (map_handled _) h

  -- Where the children of a `context` rule without a condition handle a request, the rule
  -- handles it, and each response header is the one that the rule sets, or else the one that the
  -- children set. The names of its response headers are distinct.
  pub evaluate_rule-context :
      (name : String) (response request : HeaderMap) (kids : RuleList Ast Pattern) (view : View)
      (st after : State) (r : Response Body) (n : String)
      → IsDistinct response
      → eval_children calls kids none (with_request_headers calls.text_of request view) st
        ≡ (handled r, after)
      → (answer : Response Body) × (evaluate_rule calls
            (rule name none (context response request) kids)
            view
            st
          ≡ (handled answer, after))
        × (get n (set_headers answer) ≡ or_else (get n response) (get n (set_headers r)))
  evaluate_rule-context name response request kids view st after r n d h =
      let inner = with_request_headers calls.text_of request view in
      (
        attach inner.headers response r,
        context_answer name response request kids view st after r h,
        attach-set_headers inner.headers response r n d,
      )

  -- Where the children of a `context` rule without a condition let a request be proxied, each
  -- header to send upstream is the one that an inner `context` rule left, or without such a rule
  -- the one that this rule sets, or else the one that the enclosing rules set. The names of its
  -- request headers are distinct.
  pub evaluate_rule-sent :
      (name : String) (response request : HeaderMap) (kids : RuleList Ast Pattern) (view : View)
      (st after : State) (r : Response Body) (m : Marker) (n : String)
      → IsDistinct request
      → r.marker ≡ some m
      → eval_children calls kids none (with_request_headers calls.text_of request view) st
        ≡ (handled r, after)
      → (answer : Response Body) × (evaluate_rule calls
            (rule name none (context response request) kids)
            view
            st
          ≡ (handled answer, after))
        × (get n (sent_headers [] answer) ≡ elim r.pending_request [
          | none ↦ or_else (get n request) (get n view.headers)
          | some h ↦ get n h
        ])
  evaluate_rule-sent name response request kids view st after r m n d proxied h =
      let inner = with_request_headers calls.text_of request view in
      (
        attach inner.headers response r,
        context_answer name response request kids view st after r h,
        by_marker r.marker proxied ∙ merged r.pending_request,
      )
    where
      by_marker :
          (k : Option Marker)
          → k ≡ some m
          → get n (
              sent_headers [] (
                attach
                  (with_request_headers calls.text_of request view).headers
                  response
                  (record r { marker = k })))
            ≡ get n (sent_headers (with_request_headers calls.text_of request view).headers r)
      by_marker none e = absurd (cc e)
      by_marker (some k) e = unfold attach in refl

      merged :
          (p : Option HeaderMap)
          → get n (elim p [
            | none ↦ (with_request_headers calls.text_of request view).headers
            | some h ↦ h
          ])
            ≡ elim p [ none ↦ or_else (get n request) (get n view.headers) | some h ↦ get n h ]
      merged none = unfold with_request_headers in get-insert_all n request view.headers d
      merged (some h) = refl
