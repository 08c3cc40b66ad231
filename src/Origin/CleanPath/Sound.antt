-- ===== src/Origin/CleanPath/Sound.antt =====
-- A path that `CleanPath` returns does not leave the root.
use mediastub.Prelude.{
  ap₂, subst, suc, ◌++◌, replicate, All, ℕ, ◌≡◌, refl, sym, ap, ◌∙◌, true, false, ◌||◌, ◌&&◌, ◌⊎◌,
  inl, inr, List, [], ◌∷◌, ◌==◌, arith, Bool-cases,
}
use mediastub.Prelude.Maps.{same, same_refl, same_sound}
use mediastub.Core.Base.{Bytes, ok}
use mediastub.Paths.{split, join_with}
use mediastub.Origin.CleanPath.{trim_left, trim_right, trim, dot, good_parts, clean_path}

-- There is a first part, even of an empty string.
split_first : (sep : ℕ) (s : Bytes) → (w : Bytes) × (ws : List Bytes) × (split sep s ≡ w ∷ ws)
unfolding split
split_first sep [] = ([], [], refl)
split_first sep (c ∷ cs) =
    let (w, ws, e) = split_first sep cs in
    elim (Bool-cases (c == sep)) [
      | inl is_sep ↦ rw is_sep ([], split sep cs, refl)
      | inr other ↦ rw (other, e) (c ∷ w, ws, refl)
    ]

join_with-cons :
    (sep c : ℕ) (w : Bytes) (ws : List Bytes)
    → join_with sep ((c ∷ w) ∷ ws) ≡ c ∷ join_with sep (w ∷ ws)
unfolding join_with
join_with-cons sep c w [] = refl
join_with-cons sep c w (v ∷ vs) = refl

pub join_with-split : (sep : ℕ) (s : Bytes) → join_with sep (split sep s) ≡ s
unfolding split join_with
join_with-split sep [] = refl
join_with-split sep (c ∷ cs) =
    let (w, ws, e) = split_first sep cs in
    let rest : join_with sep (w ∷ ws) ≡ cs = sym (ap (join_with sep) e) ∙ join_with-split sep cs in
    elim (Bool-cases (c == sep)) [
      | inl is_sep ↦
          rw (is_sep, e)
            (ap (λ xs. sep ∷ xs) rest ∙ ap (λ x. x ∷ cs) {x = sep} {y = c} (ground arith))
      | inr other ↦ rw (other, e) (join_with-cons sep c w ws ∙ ap (λ xs. c ∷ xs) rest)
    ]

trim_right_twice : (s : Bytes) → trim_right (trim_right s) ≡ trim_right s
unfolding trim_right
trim_right_twice [] = refl
trim_right_twice (c ∷ cs) = elim (Bool-cases (c == b'/' && same (trim_right cs) [])) [
  | inl gone ↦ rw gone refl
  | inr stays ↦ rw (stays, trim_right_twice cs, stays) refl
]

trim_left_slash : (c : ℕ) (cs : Bytes) → (c == b'/') ≡ true → trim_left (c ∷ cs) ≡ trim_left cs
unfolding trim_left
trim_left_slash c cs slash = rw slash refl

trim_left_other : (c : ℕ) (cs : Bytes) → (c == b'/') ≡ false → trim_left (c ∷ cs) ≡ c ∷ cs
unfolding trim_left
trim_left_other c cs other = rw other refl

trim_right_other :
    (c : ℕ) (cs : Bytes) → (c == b'/') ≡ false → trim_right (c ∷ cs) ≡ c ∷ trim_right cs
unfolding trim_right
trim_right_other c cs other = rw other refl

trim_left-trim_right : (s : Bytes) → trim_left (trim_right (trim_left s)) ≡ trim_right (trim_left s)
trim_left-trim_right [] = unfold trim_left trim_right in refl
trim_left-trim_right (c ∷ cs) = elim (Bool-cases (c == b'/')) [
  | inl slash ↦
      let e = trim_left_slash c cs slash in
      ap (λ y. trim_left (trim_right y)) e ∙ trim_left-trim_right cs ∙ ap trim_right (sym e)
  | inr other ↦
      let e = trim_left_other c cs other in
      let e' = trim_right_other c cs other in
      ap (λ y. trim_left (trim_right y)) e
      ∙ ap trim_left e'
      ∙ trim_left_other c (trim_right cs) other
      ∙ sym e'
      ∙ ap trim_right (sym e)
]

trim_twice : (s : Bytes) → trim (trim s) ≡ trim s
trim_twice s = ap trim_right (trim_left-trim_right s) ∙ trim_right_twice (trim_left s)

-- What is returned is a dot or the name without the slashes around it.
clean_path_cases :
    (name p : Bytes)
    → clean_path name ≡ ok p
    → (p ≡ dot)
      ⊎ ((p ≡ trim name)
          × ((same (trim name) [] || same (trim name) dot) ≡ false)
          × (good_parts (split b'/' (trim name)) ≡ true))
unfolding clean_path
clean_path_cases name p h = elim (Bool-cases (same (trim name) [] || same (trim name) dot)) [
  | inl empty ↦ inl (cc (rw empty at h))
  | inr full ↦ elim (Bool-cases (good_parts (split b'/' (trim name)))) [
    | inl good ↦
        let h' : ok (join_with b'/' (split b'/' (trim name))) ≡ ok p = rw (full, good) at h in
        let is_p : join_with b'/' (split b'/' (trim name)) ≡ p = cc h' in
        inr (sym is_p ∙ join_with-split b'/' (trim name), full, good)
    | inr bad ↦ cc (rw (full, bad) at h)
  ]
]

-- A part that stays below the directory that it is in
pub record IsBelow (w : Bytes) : Type 0 where
  not_empty : ¬ (w ≡ [])
  not_dot : ¬ (w ≡ b'.' ∷ [])
  not_parent : ¬ (w ≡ b'.' ∷ b'.' ∷ [])

not_same : (v w : Bytes) → same v w ≡ false → ¬ (v ≡ w)
not_same v w h e = apart (sym (same_refl w) ∙ subst (λ x. same x w ≡ false) e h)
  where
    apart : true ≡ false → ⊥
    apart q = cc

good_parts-IsBelow : (ws : List Bytes) → good_parts ws ≡ true → All IsBelow ws
unfolding good_parts
good_parts-IsBelow [] h = tt
good_parts-IsBelow (w ∷ ws) h = (
  record {
    not_empty = not_same w [] (ground arith);
    not_dot = not_same w dot (ground arith);
    not_parent = not_same w (b'.' ∷ b'.' ∷ []) (ground arith);
  },
  good_parts-IsBelow ws (ground arith),
)

trim_left-replicate : (s : Bytes) → (a : ℕ) × (s ≡ replicate a b'/' ++ trim_left s)
trim_left-replicate [] = unfold trim_left in (0, refl)
trim_left-replicate (c ∷ cs) = elim (Bool-cases (c == b'/')) [
  | inl slash ↦
      let (a, e) = trim_left-replicate cs in
      (
        suc a,
        ap₂ (λ x xs. x ∷ xs) {x = c} {y = b'/'} (ground arith) e
            ∙ ap (λ xs. b'/' ∷ (replicate a b'/' ++ xs)) (sym (trim_left_slash c cs slash)),
      )
  | inr other ↦ (0, sym (trim_left_other c cs other))
]

trim_right-replicate : (s : Bytes) → (b : ℕ) × (s ≡ trim_right s ++ replicate b b'/')
unfolding trim_right
trim_right-replicate [] = (0, refl)
trim_right-replicate (c ∷ cs) =
    let (b, e) = trim_right-replicate cs in
    elim (Bool-cases (c == b'/' && same (trim_right cs) [])) [
      | inl gone ↦
          let nothing : trim_right cs ≡ [] = same_sound (trim_right cs) [] (ground arith) in
          rw gone (
            suc b,
            ap₂ (λ x xs. x ∷ xs) {x = c} {y = b'/'} (ground arith)
                (e ∙ ap (λ t. t ++ replicate b b'/') nothing),
          )
      | inr stays ↦ rw stays (b, ap (λ xs. c ∷ xs) e)
    ]

-- A name is a path with any number of slashes on both sides.
abbrev pub IsBetweenSlashes : Bytes → Bytes → Type 0
IsBetweenSlashes name p = (a : ℕ) × (b : ℕ) × (name ≡ replicate a b'/' ++ (p ++ replicate b b'/'))

trim-IsBetweenSlashes : (name : Bytes) → IsBetweenSlashes name (trim name)
trim-IsBetweenSlashes name =
    let (a, before) = trim_left-replicate name in
    let (b, behind) = trim_right-replicate (trim_left name) in
    (a, b, before ∙ ap (λ xs. replicate a b'/' ++ xs) behind)

-- A path that `CleanPath` returns is a dot, or it is the given name without the slashes around it and
-- none of its parts between slashes is empty, a dot or two dots.
pub clean_path-AllBelow :
    (name p : Bytes)
    → clean_path name ≡ ok p
    → (p ≡ dot) ⊎ (IsBetweenSlashes name p × All IsBelow (split b'/' p))
clean_path-AllBelow name p h = elim (clean_path_cases name p h) [
  | inl is_dot ↦ inl is_dot
  | inr (is_trimmed, full, good) ↦ inr (
    subst (IsBetweenSlashes name) (sym is_trimmed) (trim-IsBetweenSlashes name),
    good_parts-IsBelow (split b'/' p) (ap (λ q. good_parts (split b'/' q)) is_trimmed ∙ good),
  )
]

clean_path-dot : clean_path dot ≡ ok dot
unfolding clean_path trim_left trim_right same
clean_path-dot = refl

clean_path-trimmed :
    (t : Bytes)
    → trim t ≡ t
    → (same t [] || same t dot) ≡ false
    → good_parts (split b'/' t) ≡ true
    → clean_path t ≡ ok t
unfolding clean_path
clean_path-trimmed t trimmed full good =
    rw (trimmed, full, good) (ap (λ q. ok q) (join_with-split b'/' t))

-- A path that `CleanPath` returns is returned again when it is given to it.
clean_path_twice : (name p : Bytes) → clean_path name ≡ ok p → clean_path p ≡ ok p
clean_path_twice name p h = elim (clean_path_cases name p h) [
  | inl is_dot ↦ ap clean_path is_dot ∙ clean_path-dot ∙ ap (λ q. ok q) (sym is_dot)
  | inr (is_trimmed, full, good) ↦
      ap clean_path is_trimmed
      ∙ clean_path-trimmed (trim name) (trim_twice name) full good
      ∙ ap (λ q. ok q) (sym is_trimmed)
]
