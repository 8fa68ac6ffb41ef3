-- ===== src/Engine/Exclude/Laws.antt =====
-- What the merged exclude patterns hold.
use stoker_operator.Prelude.{
  String, ◌≡◌, refl, Bool, true, false, not, ◌&&◌, ◌||◌, Option, some, List, [], ◌∷◌, ◌++◌, ◌==◌,
  contains, arith, string_eq, Bool-cases, inl, inr, ◌∙◌,
}
use stoker_operator.Prelude.Text.{trim_space}
use stoker_operator.Engine.Exclude.{
  hardcoded_excludes, add_user, add_hardcoded, merge_excludes, should_exclude,
}

contains-concat :
    (xs : List String) (x a : String) → contains (xs ++ x ∷ []) a ≡ (contains xs a || x == a)
contains-concat [] x a = ground arith
contains-concat (y ∷ xs) x a = ground (arith, contains-concat xs x a)

-- A pattern that a user wrote, as it is kept.
pub is_wanted : List String → String → Bool
is_wanted [] p = false
is_wanted (raw ∷ rest) p = (trim_space raw == p && not (p == "")) || is_wanted rest p

-- The patterns seen are those of the result.
same_concat :
    (seen result : List String) (x : String)
    → ((p : String) → contains seen p ≡ contains result p)
    → (p : String) → contains (x ∷ seen) p ≡ contains (result ++ x ∷ []) p
same_concat seen result x same p = rw contains-concat (ground (arith, same p))

contains-add_user :
    (seen result user : List String) (p : String)
    → ((p : String) → contains seen p ≡ contains result p)
    → (contains (add_user seen result user).1 p ≡ (contains result p || is_wanted user p))
      × (contains (add_user seen result user).0 p ≡ contains (add_user seen result user).1 p)
unfolding add_user is_wanted
contains-add_user seen result [] p same = ground (arith, same p)
contains-add_user seen result (raw ∷ rest) p same =
    let t = trim_space raw in
    ground (
      arith,
      contains-add_user seen result rest p same,
      contains-add_user (t ∷ seen) (result ++ t ∷ []) rest p (same_concat seen result t same),
      same t,
      contains-concat result t p,
    )

contains-add_hardcoded :
    (seen result hard : List String) (p : String)
    → ((p : String) → contains seen p ≡ contains result p)
    → contains (add_hardcoded seen result hard) p ≡ (contains result p || contains hard p)
unfolding add_hardcoded
contains-add_hardcoded seen result [] p same = ground arith
contains-add_hardcoded seen result (t ∷ rest) p same = ground (
  arith,
  contains-add_hardcoded seen result rest p same,
  contains-add_hardcoded (t ∷ seen) (result ++ t ∷ []) rest p (same_concat seen result t same),
  same t,
  contains-concat result t p,
)

-- A pattern is in the merged list exactly if it is hardcoded, or is what trimming leaves of one of
-- the user's patterns and is not empty.
pub contains-merge_excludes :
    (user : List String) (p : String)
    → contains (merge_excludes user) p ≡ (is_wanted user p || contains hardcoded_excludes p)
unfolding merge_excludes
contains-merge_excludes user p =
    let both = λ (r : String). contains-add_user [] [] user r (λ _. refl) in
    contains-add_hardcoded _ _ hardcoded_excludes p (λ r. (both r).1) ∙ ground (arith, both p)

-- No pattern stands twice in a list.
abbrev pub NoRepeats : List String → Type 0
NoRepeats [] = Unit
NoRepeats (x ∷ xs) = (contains xs x ≡ false) × NoRepeats xs

NoRepeats-concat :
    (xs : List String) (x : String)
    → NoRepeats xs
    → contains xs x ≡ false
    → NoRepeats (xs ++ x ∷ [])
NoRepeats-concat [] x _ _ = (refl, tt)
NoRepeats-concat (y ∷ xs) x (fresh, rest) new =
    (rw contains-concat (ground arith), NoRepeats-concat xs x rest (ground arith))

NoRepeats-add_user :
    (seen result user : List String)
    → ((p : String) → contains seen p ≡ contains result p)
    → NoRepeats result
    → NoRepeats (add_user seen result user).1
unfolding add_user
NoRepeats-add_user seen result [] same h = h
NoRepeats-add_user seen result (raw ∷ rest) same h =
    let t = trim_space raw in
    elim (Bool-cases (t == "" || contains seen t)) [
      | inl e ↦ rw (e, add_user) (NoRepeats-add_user seen result rest same h)
      | inr e ↦
          rw (e, add_user)
            (NoRepeats-add_user (t ∷ seen) (result ++ t ∷ []) rest (same_concat seen result t same)
              (NoRepeats-concat result t h (ground (arith, same t))))
    ]

NoRepeats-add_hardcoded :
    (seen result hard : List String)
    → ((p : String) → contains seen p ≡ contains result p)
    → NoRepeats result
    → NoRepeats (add_hardcoded seen result hard)
unfolding add_hardcoded
NoRepeats-add_hardcoded seen result [] same h = h
NoRepeats-add_hardcoded seen result (t ∷ rest) same h = elim (Bool-cases (contains seen t)) [
  | inl e ↦ rw (e, add_hardcoded) (NoRepeats-add_hardcoded seen result rest same h)
  | inr e ↦
      rw (e, add_hardcoded)
        (NoRepeats-add_hardcoded (t ∷ seen) (result ++ t ∷ []) rest (same_concat seen result t same)
          (NoRepeats-concat result t h (ground (arith, same t))))
]

-- The merged list holds no pattern twice.
pub merge_excludes-NoRepeats : (user : List String) → NoRepeats (merge_excludes user)
unfolding merge_excludes
merge_excludes-NoRepeats user =
    NoRepeats-add_hardcoded _ _ hardcoded_excludes
      (λ r. (contains-add_user [] [] user r (λ _. refl)).1)
      (NoRepeats-add_user [] [] user (λ _. refl) tt)

-- A path that one of the patterns matches is excluded.
pub should_exclude-contains :
    (glob : String → String → Option Bool) (path p : String) (excludes : List String)
    → contains excludes p ≡ true
    → glob p path ≡ some true
    → should_exclude glob path excludes ≡ true
unfolding should_exclude
should_exclude-contains glob path p [] listed hit = cc
should_exclude-contains glob path p (x ∷ excludes) listed hit =
    ground (arith, should_exclude-contains glob path p excludes)
