-- ===== src/Ipc/Laws.antt =====
-- What the handler answers, and what it may change.
use tarvaultsync.Prelude.{
  ℕ, zero, suc, ◌≡◌, refl, ◌≢◌, ◌∙◌, ap, sym, Option, none, some, Bool, List, [], ◌∷◌, ◌++◌, nat_eq,
  if◌then◌else◌, leb, ltb, not, length, length-append, arith, Option-cases, Bool-cases, inl, inr,
}
use mathlib.Core.List.{reverse, reverse-append, reverse-reverse}
use tarvaultsync.Prelude.Text.{Text, text_eq}
use tarvaultsync.Azure.{is_some}
use tarvaultsync.Core.{Bytes, Event, outcome_eq}
use tarvaultsync.Core.Engine.{Parts, Engine}
use tarvaultsync.Ipc.{
  Request, status_request, events_request, trigger_request, acknowledge_request, enable_request,
  unauthorized_response, invalid_response, take, lines, collect, recent_events, respond, handle,
}

-- The token that a request carries
unfoldable pub token_of : Request → Text
token_of (status_request t) = t
token_of (events_request t) = t
token_of (trigger_request t _) = t
token_of (acknowledge_request t _) = t
token_of (enable_request t _) = t

module _ {W : Type 0} (p : Parts W) (decode : Bytes → Option Event) (is_utf8 : Bytes → Bool) where
  respond-unauthorized :
      (token : Text) (r : Request) (e : Engine W)
      → token_of r ≢ token
      → respond p decode is_utf8 token (some r) e ≡ (unauthorized_response, e)
  unfolding respond token_of
  respond-unauthorized token (status_request t) e ne = ground arith
  respond-unauthorized token (events_request t) e ne = ground arith
  respond-unauthorized token (trigger_request t id) e ne = ground arith
  respond-unauthorized token (acknowledge_request t id) e ne = ground arith
  respond-unauthorized token (enable_request t id) e ne = ground arith

  -- A line that is no request of the token, whatever else it is, changes nothing, and its answer tells
  -- nothing about the state: none to a line that is too long, and else that the line is invalid, when
  -- it does not parse, or that the request is unauthorised.
  pub handle-unauthorized :
      (token : Text) (parse : Bytes → Option Request) (line : Bytes) (e : Engine W)
      → ((r : Request) → parse line ≡ some r → token_of r ≢ token)
      → handle p decode is_utf8 token parse line e ≡ (
        if ltb 4096 (length line)
            then none
            else some
                (if not (is_some (parse line)) then invalid_response else unauthorized_response),
        e,
      )
  unfolding handle respond
  handle-unauthorized token parse line e ne = elim (Option-cases (parse line)) [
    | inl q ↦ ground arith
    | inr (r, q) ↦ ground (arith, respond-unauthorized token r e (ne r q))
  ]

-- The last `n` of a list, or all of them
abbrev pub last {ℓ} : {A : Type ℓ} → ℕ → List A → List A
last n [] = []
last n (x ∷ xs) = let rest = last n xs in if leb (suc (length xs)) n then x ∷ xs else rest

module _ {ℓ} {A : Type ℓ} where
  length-reverse : (xs : List A) → length (reverse xs) ≡ length xs
  length-reverse [] = refl
  length-reverse (x ∷ xs) =
      ap length (reverse-append (x ∷ []) xs) ∙ rw length-append (omega (arith, length-reverse xs))

  take-snoc :
      (n : ℕ) (ys : List A) (x : A)
      → take n (ys ++ x ∷ []) ≡ (if leb n (length ys) then take n ys else ys ++ x ∷ [])
  unfolding take
  take-snoc zero ys x = ground arith
  take-snoc (suc zero) [] x = ground arith
  take-snoc (suc (suc n)) [] x = ground arith
  take-snoc (suc n) (y ∷ ys) x = ground (arith, take-snoc n ys x)

  take-nil : (n : ℕ) → take {A = A} n [] ≡ []
  unfolding take
  take-nil zero = refl
  take-nil (suc n) = refl

  kept :
      (n : ℕ) (xs : List A) (x : A)
      → reverse (take n (reverse xs)) ≡ last n xs
      → reverse (if leb n (length (reverse xs)) then take n (reverse xs) else reverse xs ++ x ∷ [])
        ≡ last n (x ∷ xs)
  kept n xs x ih = elim (Bool-cases (leb n (length xs))) [
    | inl h ↦ rw (length-reverse, h) (ih ∙ ground arith)
    | inr h ↦
        rw (length-reverse, h)
          (reverse-append (reverse xs) (x ∷ [])
            ∙ ap (λ ys. x ∷ ys) (reverse-reverse xs)
            ∙ ground arith)
  ]

  reverse-take-reverse : (n : ℕ) (xs : List A) → reverse (take n (reverse xs)) ≡ last n xs
  reverse-take-reverse n [] = ap reverse (take-nil n)
  reverse-take-reverse n (x ∷ xs) =
      ap (λ ys. reverse (take n ys)) (reverse-append (x ∷ []) xs)
      ∙ ap reverse (take-snoc n (reverse xs) x)
      ∙ kept n xs x (reverse-take-reverse n xs)

module _ (decode : Bytes → Option Event) where
  collect-append_one :
      (ls : List Bytes) (l : Bytes)
      → collect decode (ls ++ l ∷ []) ≡ (elim (collect decode ls) [
        | none ↦ none
        | some xs ↦ elim (decode l) [ none ↦ none | some x ↦ some (xs ++ x ∷ []) ]
      ])
  unfolding collect
  collect-append_one [] l = ground arith
  collect-append_one (k ∷ ls) l = ground (arith, collect-append_one ls l)

  regroup :
      (l : Bytes) (ls : List Bytes)
      → (elim (collect decode ls) [ none ↦ none | some xs ↦ some (reverse xs) ])
        ≡ collect decode (reverse ls)
      → (elim (collect decode (l ∷ ls)) [ none ↦ none | some xs ↦ some (reverse xs) ])
        ≡ (elim (collect decode (reverse ls)) [
          | none ↦ none
          | some xs ↦ elim (decode l) [ none ↦ none | some x ↦ some (xs ++ x ∷ []) ]
        ])
  unfolding collect
  regroup l ls ih = elim (Option-cases (collect decode ls)) [
    | inl r ↦ ground arith
    | inr (xs, r) ↦ elim (Option-cases (decode l)) [
      | inl q ↦ ground arith
      | inr (x, q) ↦ ground (arith, reverse-append (x ∷ []) xs)
    ]
  ]

  collect-reverse :
      (ls : List Bytes)
      → (elim (collect decode ls) [ none ↦ none | some xs ↦ some (reverse xs) ])
        ≡ collect decode (reverse ls)
  unfolding collect
  collect-reverse [] = refl
  collect-reverse (l ∷ ls) =
      regroup l ls (collect-reverse ls)
      ∙ sym (collect-append_one (reverse ls) l)
      ∙ ap (collect decode) (sym (reverse-append (l ∷ []) ls))

  -- The events of the answer are the last hundred lines of the log, decoded in their order; if one
  -- of these lines does not decode there is no answer.
  pub recent_events-eq-collect :
      (log : Bytes) → recent_events decode log ≡ collect decode (last 100 (lines log))
  unfolding recent_events
  recent_events-eq-collect log =
      collect-reverse (take 100 (reverse (lines log)))
      ∙ ap (collect decode) (reverse-take-reverse 100 (lines log))
