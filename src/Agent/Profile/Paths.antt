-- ===== src/Agent/Profile/Paths.antt =====
-- A path that passes the validation stays below every directory that it is joined to.
use mathlib.Core.List.{
  reverse, reverse_aux, reverse-append, reverse-cons, reverse-reverse, append_assoc, append-nil,
}
use text.Mathlib.TextLemmas
use text.Mathlib.TextPositions.{starts_with-append}
use stoker_operator.Prelude.{
  String, ◌<>◌, ◌≡◌, ◌≢◌, ◌⊎◌, ==_refl, refl, ap, sym, ◌∙◌, Bool, true, false, List, [], ◌∷◌, ◌++◌,
  All, arith, ◌==◌, string_eq, starts_with, Bool-cases, inl, inr,
}
use stoker_operator.Prelude.Outcome.{done}
use stoker_operator.Prelude.Text.{
  split_slash, join_by, join, clean, clean_from, push_component, push_relative, push_parts,
}
use stoker_operator.Engine.Disk.{FilePath}
use stoker_operator.Engine.Plan.Stage.{components}
use stoker_operator.Engine.Plan.Stage.Keeps.{IsInside}
use stoker_operator.Agent.Profile.{
  cleaned_text, clean_relative, is_traversal, validate_resolved_path,
}

-- The bottom of the stack is "..".
leads_up : List String → Bool
leads_up [] = false
leads_up (x ∷ []) = x == ".."
leads_up (x ∷ y ∷ r) = leads_up (y ∷ r)

leads_up-push_relative :
    (stack : List String) (part : String)
    → leads_up stack ≡ true
    → leads_up (push_relative stack part) ≡ true
unfolding leads_up push_relative
leads_up-push_relative [] part h = absurd (cc)
leads_up-push_relative (x ∷ []) part h = ground (arith, h)
leads_up-push_relative (x ∷ y ∷ r) part h = ground (arith, h)

leads_up-push_parts :
    (parts stack : List String) → leads_up stack ≡ true → leads_up (push_parts stack parts) ≡ true
unfolding push_parts
leads_up-push_parts [] stack h = h
leads_up-push_parts (part ∷ parts) stack h =
    leads_up-push_parts parts (push_relative stack part) (leads_up-push_relative stack part h)

abbrev NoUps : List String → Type 0
NoUps = All (λ x. x ≢ "..")

push_step :
    (stack base : List String) (part : String)
    → NoUps stack
    → (leads_up (push_relative stack part) ≡ true)
      ⊎ ((push_component (stack ++ base) part ≡ push_relative stack part ++ base)
          × NoUps (push_relative stack part))
unfolding leads_up push_relative push_component
push_step [] base part n = ground arith
push_step (top ∷ stack) base part n = ground (arith, n)

-- Without a step above the start, the joined path goes through the same steps above the base.
push_parts-clean_from :
    (parts stack base : List String)
    → NoUps stack
    → leads_up (push_parts stack parts) ≡ false
    → clean_from (stack ++ base) parts ≡ reverse (push_parts stack parts ++ base)
unfolding push_parts clean_from
push_parts-clean_from [] stack base n h = refl
push_parts-clean_from (part ∷ parts) stack base n h = elim (push_step stack base part n) [
  | inl up ↦
      let still = leads_up-push_parts parts (push_relative stack part) up in
      absurd (ground (arith, h, still))
  | inr (same, clear) ↦
      rw same (push_parts-clean_from parts (push_relative stack part) base clear h)
]

-- Plain components stay as they are.
abbrev pub IsPlain : String → Type 0
IsPlain x = (x ≢ "") × (x ≢ ".") × (x ≢ "..")

clean_from-plain :
    (base stack parts : List String)
    → All IsPlain base
    → clean_from stack (base ++ parts) ≡ clean_from (reverse base ++ stack) parts
unfolding clean_from push_component
clean_from-plain [] stack parts h = refl
clean_from-plain (x ∷ base) stack parts h =
    rw (reverse-cons x base, append_assoc)
      (ground (arith, h, clean_from-plain base (x ∷ stack) parts h.1))

reverse-leads_up :
    (x : String) (stack : List String)
    → leads_up (x ∷ stack) ≡ true
    → (r : List String) × (reverse (x ∷ stack) ≡ ".." ∷ r)
unfolding leads_up
reverse-leads_up x [] h = ([], ground (arith, h))
reverse-leads_up x (y ∷ stack) h =
    let (r, e) = reverse-leads_up y stack h in
    (r ++ x ∷ [], rw (reverse-cons x (y ∷ stack), e) refl)

is_traversal_up : (r : List String) → is_traversal (join_by "/" (".." ∷ r)) ≡ true
unfolding is_traversal join_by
is_traversal_up [] = ground (arith, ==_refl {A = String} "..")
is_traversal_up (x ∷ r) =
    let prefixed : starts_with (".." <> ("/" <> join_by "/" (x ∷ r))) "../" ≡ true =
      ap (λ s. starts_with s "../") (sym (TextLemmas.append_assoc ".." "/" (join_by "/" (x ∷ r))))
      ∙ starts_with-append "../" (join_by "/" (x ∷ r)) in
    ground (arith, prefixed)

is_traversal-cleaned_text :
    (stack : List String) → is_traversal (cleaned_text stack) ≡ false → leads_up stack ≡ false
unfolding leads_up
is_traversal-cleaned_text [] h = refl
is_traversal-cleaned_text (x ∷ stack) h = elim (Bool-cases (leads_up (x ∷ stack))) [
  | inl up ↦
      let (r, e) = reverse-leads_up x stack up in
      let bad = ap (λ l. is_traversal (join_by "/" l)) e ∙ is_traversal_up r in
      absurd (ground (arith, bad, h))
  | inr down ↦ down
]

-- A step into a directory.
abbrev pub IsStep : String → Type 0
IsStep x = (x ≢ "") × (x ≢ "..")

push_relative-IsStep :
    (stack : List String) (part : String)
    → All IsStep stack
    → (leads_up (push_relative stack part) ≡ true) ⊎ All IsStep (push_relative stack part)
unfolding leads_up push_relative
push_relative-IsStep [] part n = ground arith
push_relative-IsStep (top ∷ stack) part n = ground (arith, n)

push_parts-IsStep :
    (parts stack : List String)
    → All IsStep stack
    → leads_up (push_parts stack parts) ≡ false
    → All IsStep (push_parts stack parts)
unfolding push_parts
push_parts-IsStep [] stack n h = n
push_parts-IsStep (part ∷ parts) stack n h = elim (push_relative-IsStep stack part n) [
  | inl up ↦
      let still = leads_up-push_parts parts (push_relative stack part) up in
      absurd (ground (arith, h, still))
  | inr steps ↦ push_parts-IsStep parts (push_relative stack part) steps h
]

validated :
    (path label : String)
    → validate_resolved_path path label ≡ done tt
    → is_traversal (clean_relative path) ≡ false
unfolding validate_resolved_path
validated path label h = ground (arith, h)

-- Joined to a directory with plain components, a path that the validation lets through leads to a place
-- in that directory.
pub join-validate_resolved_path :
    (base : FilePath) (path label : String)
    → All IsPlain base
    → validate_resolved_path path label ≡ done tt
    → (rel : FilePath) × (join base path ≡ base ++ rel)
unfolding join clean clean_relative
join-validate_resolved_path base path label plain h =
    let parts = split_slash path in
    let end = push_parts [] parts in
    (
      reverse end,
      clean_from-plain base [] parts plain
          ∙ rw append-nil (
              push_parts-clean_from parts [] (reverse base) tt
                (is_traversal-cleaned_text end (validated path label h)))
          ∙ reverse-append end (reverse base)
          ∙ rw reverse-reverse refl,
    )

All-reverse_aux {ℓ κ} :
    {A : Type ℓ} (P : A → Type κ) (xs ys : List A) → All P xs → All P ys → All P (reverse_aux xs ys)
All-reverse_aux P [] ys h k = k
All-reverse_aux P (x ∷ xs) ys h k = All-reverse_aux P xs (x ∷ ys) h.1 (h.0, k)

-- Such a path names a place below any directory.
pub components-validate_resolved_path :
    (path label : String) → validate_resolved_path path label ≡ done tt → IsInside path
unfolding components validate_resolved_path clean_relative
components-validate_resolved_path path label h =
    let end = push_parts [] (split_slash path) in
    let relative : starts_with path "/" ≡ false = ground (arith, h) in
    let steps =
      push_parts-IsStep (split_slash path) [] tt
        (is_traversal-cleaned_text end (validated path label h)) in
    rw relative (All-reverse_aux IsStep end [] steps tt)

-- A plain name is added to such a directory.
pub join-plain :
    (base : FilePath) (name : String)
    → All IsPlain base
    → IsPlain name
    → split_slash name ≡ name ∷ []
    → join base name ≡ base ++ name ∷ []
unfolding join clean clean_from push_component
join-plain base name plain h e =
    let step : push_component (reverse base) name ≡ name ∷ reverse base = ground (arith, h) in
    rw
      (
        e,
        clean_from-plain base [] (name ∷ []) plain,
        append-nil,
        step,
        reverse-cons,
        reverse-reverse,
      )
      refl

push_component-IsPlain :
    (stack : List String) (part : String)
    → All IsPlain stack
    → All IsPlain (push_component stack part)
unfolding push_component
push_component-IsPlain [] part h = ground arith
push_component-IsPlain (x ∷ stack) part h = ground (arith, h)

clean_from-IsPlain :
    (parts stack : List String) → All IsPlain stack → All IsPlain (clean_from stack parts)
unfolding clean_from
clean_from-IsPlain [] stack h = All-reverse_aux IsPlain stack [] h tt
clean_from-IsPlain (part ∷ parts) stack h =
    clean_from-IsPlain parts (push_component stack part) (push_component-IsPlain stack part h)

-- The components of a cleaned path are plain.
pub clean-IsPlain : (parts : List String) → All IsPlain (clean parts)
unfolding clean
clean-IsPlain parts = clean_from-IsPlain parts [] tt
