-- ===== src/Targets/KeyValue/Changed.antt =====
-- The lines that the loop of `render_key_value` of src/targets.rs leaves, in the single-quoted style.
use tarvaultsync.Prelude.{
  ℕ, ◌≡◌, refl, ◌≢◌, ◌∙◌, sym, ap, subst, inl, inr, Bool, true, false, not, List, [], ◌∷◌, ◌++◌,
  map, nat_eq, ℕ_discrete, if◌then◌else◌, all, All, length, arith, Bool-cases,
}
use mathlib.Core.List.{append_assoc, append-nil}
use tarvaultsync.Prelude.Text.{Text, text, text_eq, starts_with}
use tarvaultsync.Core.{Bytes}
use tarvaultsync.Targets.Spaces.{trim_start}
use tarvaultsync.Targets.KeyValue.{
  KeyValueStyle, single_quoted, trim_line_end, ends_line, candidate, is_candidate, defines,
  rewritten,
}
use tarvaultsync.Targets.KeyValue.Escape.{is_clean, all-append}
use tarvaultsync.Targets.KeyValue.Lines.{
  IsLines, IsLine, IsTerminated, IsNewline, concat, bodies, bodies-concat, trim-append, trim-clean,
  trim-IsNewline, clean-has_no_feed, append-IsTerminated, ends-IsTerminated, ends-unterminated,
}
use tarvaultsync.Targets.KeyValue.Keys.{
  IsKey, IsPrefix, assignment, candidate-assignment, keys_clean, key_bytes,
}
use tarvaultsync.Targets.KeyValue.Render.{filter, new_line, hits}

-- Does a line, without its end, have the key?
abbrev pub has_candidate : Text → Bytes → Bool
has_candidate key body = is_candidate (candidate single_quoted body) key

-- The lines of the key in a style
abbrev pub definitions_in : KeyValueStyle → Text → Bytes → List Bytes
definitions_in style key s = filter (λ b. is_candidate (candidate style b) key) (bodies s)

-- In the single-quoted style: the lines of the key and the other lines, without their ends, in order
abbrev pub definitions : Text → Bytes → List Bytes
definitions key s = filter (has_candidate key) (bodies s)

abbrev pub others : Text → Bytes → List Bytes
others key s = filter (λ b. not (has_candidate key b)) (bodies s)

module _ {A : Type 0} (p : A → Bool) where
  filter_skip :
      (x y : A) (xs ys : List A)
      → p x ≡ true
      → p y ≡ true
      → filter (λ z. not (p z)) xs ≡ filter (λ z. not (p z)) ys
      → filter (λ z. not (p z)) (x ∷ xs) ≡ filter (λ z. not (p z)) (y ∷ ys)
  filter_skip x y xs ys a b h = rw a (rw b h)

  filter_same :
      (x y : A) (xs ys : List A)
      → x ≡ y
      → filter p xs ≡ filter p ys
      → filter p (x ∷ xs) ≡ filter p (y ∷ ys)
  filter_same x y xs ys e h = rw e (ap (λ rest. if p y then y ∷ rest else rest) h)

  pub filter_in : (x : A) (xs : List A) → p x ≡ true → filter p (x ∷ xs) ≡ x ∷ filter p xs
  filter_in x xs h = rw h refl

  pub filter_out : (x : A) (xs : List A) → p x ≡ false → filter p (x ∷ xs) ≡ filter p xs
  filter_out x xs h = rw h refl

  pub filter-append : (xs ys : List A) → filter p (xs ++ ys) ≡ filter p xs ++ filter p ys
  filter-append [] ys = refl
  filter-append (x ∷ xs) ys = elim (Bool-cases (p x)) [
    | inl h ↦ rw h (ap (λ rest. x ∷ rest) (filter-append xs ys))
    | inr h ↦ rw h (filter-append xs ys)
  ]

pub append-ne-nil : (s t : Bytes) → t ≢ [] → s ++ t ≢ []
append-ne-nil [] t h e = h e
append-ne-nil (c ∷ s) t h e = cc

module _ (key encoded newline : Bytes) (is_key : IsKey key) (clean : all is_clean encoded ≡ true)
    (end : IsNewline newline) where
  pub defines_body : (l : Bytes) → has_candidate key (trim_line_end l) ≡ defines single_quoted key l
  unfolding defines
  defines_body l = refl

  -- The `export` that a line keeps
  abbrev pub kept_prefix : Bytes → Bytes
  kept_prefix l =
      if starts_with (trim_start (trim_line_end l)) (text "export ") then text "export " else []

  kept_prefix-IsPrefix : (l : Bytes) → IsPrefix (kept_prefix l)
  kept_prefix-IsPrefix l =
      elim (Bool-cases (starts_with (trim_start (trim_line_end l)) (text "export "))) [
        | inl h ↦ rw h (inr refl)
        | inr h ↦ rw h (inl refl)
      ]

  abbrev pub new_body : Bytes → Bytes
  new_body l = kept_prefix l ++ assignment key encoded

  prefix-clean : (q : Bytes) → IsPrefix q → all is_clean q ≡ true
  unfolding nat_eq ℕ_discrete
  prefix-clean q (inl e) = rw e refl
  prefix-clean q (inr e) = rw e refl

  body-clean : (q : Bytes) → IsPrefix q → all is_clean (q ++ assignment key encoded) ≡ true
  unfolding nat_eq ℕ_discrete
  body-clean q h =
      all-append is_clean q (assignment key encoded)
      ∙ rw (prefix-clean q h) (
          all-append is_clean key (b'=' ∷ encoded)
          ∙ rw (keys_clean key (key_bytes key is_key)) clean)

  rewritten-eq-new_body :
      (l : Bytes)
      → rewritten key encoded newline l ≡ new_body l ++ (if ends_line l then newline else [])
  unfolding rewritten
  rewritten-eq-new_body l =
      let q = kept_prefix l in
      let e = if ends_line l then newline else [] in
      sym (
        append_assoc q (assignment key encoded) e
        ∙ ap (λ (t : Bytes). q ++ t) (append_assoc key (b'=' ∷ encoded) e))

  -- A line that was rewritten still has the key, and nothing else of it is known.
  pub defines-new_body : (l : Bytes) → has_candidate key (new_body l) ≡ true
  unfolding text_eq
  defines-new_body l =
      ap (λ o. is_candidate o key)
        (candidate-assignment (kept_prefix l) key encoded (kept_prefix-IsPrefix l) is_key)
      ∙ ground arith

  new_body-clean : (l : Bytes) → all is_clean (new_body l) ≡ true
  new_body-clean l = body-clean (kept_prefix l) (kept_prefix-IsPrefix l)

  new_body-ne-nil : (l : Bytes) → new_body l ≢ []
  new_body-ne-nil l =
      append-ne-nil (kept_prefix l) (assignment key encoded)
        (append-ne-nil key (b'=' ∷ encoded) (λ e. cc))

  -- The end that a line keeps
  abbrev pub kept_end : Bytes → Bytes
  kept_end l = if ends_line l then newline else []

  trim-kept_end : (l : Bytes) → trim_line_end (kept_end l) ≡ []
  trim-kept_end l = elim (Bool-cases (ends_line l)) [
    | inl h ↦ rw h (trim-IsNewline newline end)
    | inr h ↦ rw h (unfold trim_line_end in refl)
  ]

  trim-rewritten : (l : Bytes) → trim_line_end (rewritten key encoded newline l) ≡ new_body l
  trim-rewritten l =
      ap trim_line_end (rewritten-eq-new_body l)
      ∙ trim-append (new_body l) (kept_end l) (trim-kept_end l)
      ∙ trim-clean (new_body l) (new_body-clean l)

  abbrev pub changed : Bytes → Bytes
  changed l = new_line single_quoted key encoded newline l

  trim-changed :
      (l : Bytes)
      → trim_line_end (changed l)
        ≡ (if defines single_quoted key l then new_body l else trim_line_end l)
  trim-changed l = elim (Bool-cases (defines single_quoted key l)) [
    | inl d ↦ rw d (trim-rewritten l)
    | inr d ↦ rw d refl
  ]

  rewritten-IsTerminated :
      (l : Bytes) → ends_line l ≡ true → IsTerminated (rewritten key encoded newline l)
  rewritten-IsTerminated l h = subst IsTerminated (sym (rewritten-eq-new_body l)) (
      rw h (
        append-IsTerminated (new_body l) newline (clean-has_no_feed (new_body l) (new_body-clean l))
          end))

  rewritten-IsLine : (l : Bytes) → ends_line l ≡ false → IsLine (rewritten key encoded newline l)
  rewritten-IsLine l h = subst IsLine (sym (rewritten-eq-new_body l)) (
      rw h (
        rw append-nil (inr (clean-has_no_feed (new_body l) (new_body-clean l), new_body-ne-nil l))))

  changed-IsTerminated : (l : Bytes) → IsTerminated l → IsTerminated (changed l)
  changed-IsTerminated l t = elim (Bool-cases (defines single_quoted key l)) [
    | inl d ↦ rw d (rewritten-IsTerminated l (ends-IsTerminated l t))
    | inr d ↦ rw d t
  ]

  changed-IsLine : (l : Bytes) → IsLine l → IsLine (changed l)
  changed-IsLine l (inl t) = inl (changed-IsTerminated l t)
  changed-IsLine l (inr (n, ne)) = elim (Bool-cases (defines single_quoted key l)) [
    | inl d ↦ rw d (rewritten-IsLine l (ends-unterminated l n))
    | inr d ↦ rw d (inr (n, ne))
  ]

  pub map-changed-IsLines : (ls : List Bytes) → IsLines ls → IsLines (map changed ls)
  map-changed-IsLines [] t = tt
  map-changed-IsLines (l ∷ []) t = changed-IsLine l t
  map-changed-IsLines (l ∷ m ∷ ls) (t, more) =
      (changed-IsTerminated l t, map-changed-IsLines (m ∷ ls) more)

  -- The bodies of the lines after the loop: those of the key are new, the others are kept.
  pub bodies-changed :
      (ls : List Bytes)
      → IsLines ls
      → bodies (concat (map changed ls)) ≡ map trim_line_end (map changed ls)
  bodies-changed ls t = bodies-concat (map changed ls) (map-changed-IsLines ls t)

  changed-has_candidate :
      (l : Bytes)
      → defines single_quoted key l ≡ true
      → (trim_line_end (changed l) ≡ new_body l)
        × (has_candidate key (trim_line_end (changed l)) ≡ true)
  changed-has_candidate l d =
      let e : trim_line_end (changed l) ≡ new_body l = trim-changed l ∙ rw d refl in
      (e, ap (has_candidate key) e ∙ defines-new_body l)

  changed-kept :
      (l : Bytes)
      → defines single_quoted key l ≡ false
      → trim_line_end (changed l) ≡ trim_line_end l
  changed-kept l d = trim-changed l ∙ rw d refl

  pub others-changed :
      (ls : List Bytes)
      → filter (λ b. not (has_candidate key b)) (map trim_line_end (map changed ls))
        ≡ filter (λ b. not (has_candidate key b)) (map trim_line_end ls)
  others-changed [] = refl
  others-changed (l ∷ ls) = elim (Bool-cases (defines single_quoted key l)) [
    | inl d ↦
        filter_skip (has_candidate key) (trim_line_end (changed l)) (trim_line_end l)
          (map trim_line_end (map changed ls)) (map trim_line_end ls) (changed-has_candidate l d).1
          (defines_body l ∙ d) (others-changed ls)
    | inr d ↦
        filter_same (λ b. not (has_candidate key b)) (trim_line_end (changed l)) (trim_line_end l)
          (map trim_line_end (map changed ls)) (map trim_line_end ls) (changed-kept l d)
          (others-changed ls)
  ]

  -- The lines of the key after the loop are new ones, as many as there were.
  abbrev pub AreNew : List Bytes → ℕ → Type 0
  AreNew bs n =
      (length bs ≡ n) × All (λ b. (q : Bytes) × IsPrefix q × (b ≡ q ++ assignment key encoded)) bs

  pub definitions-changed :
      (ls : List Bytes)
      → AreNew
          (filter (has_candidate key) (map trim_line_end (map changed ls)))
          (hits single_quoted key encoded newline ls)
  definitions-changed [] = (refl, tt)
  definitions-changed (l ∷ ls) =
      let rest = map trim_line_end (map changed ls) in
      let (n, new) = definitions-changed ls in
      elim (Bool-cases (defines single_quoted key l)) [
        | inl d ↦
            let (e, h) = changed-has_candidate l d in
            subst (λ bs. AreNew bs (hits single_quoted key encoded newline (l ∷ ls)))
              (sym (filter_in (has_candidate key) (trim_line_end (changed l)) rest h))
              (rw d (omega (arith, n)), ((kept_prefix l, kept_prefix-IsPrefix l, e), new))
        | inr d ↦
            let h : has_candidate key (trim_line_end (changed l)) ≡ false =
              ap (has_candidate key) (changed-kept l d) ∙ defines_body l ∙ d in
            subst (λ bs. AreNew bs (hits single_quoted key encoded newline (l ∷ ls)))
              (sym (filter_out (has_candidate key) (trim_line_end (changed l)) rest h))
              (rw d (omega (arith, n)), new)
      ]
