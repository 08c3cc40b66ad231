-- ===== src/Syncer/Sidecar/Longest.antt =====
-- The media file that a sidecar is given to has the longest stem.
use mediastub.Prelude.{
  All, Bool, ◌||◌, ℕ, ◌≤◌, ◌<◌, ◌≡◌, refl, sym, ap, subst, ◌∙◌, true, false, not, ◌&&◌, ◌⊎◌, inl,
  inr, Option, none, some, List, [], ◌∷◌, length, arith, Bool-cases, Option-cases, ltb, ltb→lt,
  ◌==◌,
}
use mediastub.Prelude.Maps.{same, same_sound, same_refl}
use mediastub.Core.Base.{Bytes}
use mediastub.Syncer.Base.{RelPath}
use mediastub.Syncer.Sidecar.{
  SidecarKind, SidecarMatch, any_same, stem_of, kind_for, is_longer, is_as_long, classify_step,
  classify_all, classify_sidecar,
}

module _ (to_lower : Bytes → Bytes) (candidate : RelPath) where
  abbrev stem_length : RelPath → ℕ
  stem_length p = length (stem_of to_lower p)

  -- Nothing is chosen yet, or the length that is kept is that of the chosen file, of its kind.
  record IsChosen (acc : SidecarMatch × Option ℕ) (n : ℕ) : Type 0 where
    kept : acc.1 ≡ some n
    long : n ≡ stem_length acc.0.media_path
    kind : SidecarKind
    is_kind : acc.0.kind ≡ some kind
    of_kind : kind_for to_lower candidate acc.0.media_path ≡ some kind

  -- The choice is as good as `p`: longer, or `p` itself, or the match is ambiguous.
  record Beats (acc : SidecarMatch × Option ℕ) (p : RelPath) : Type 0 where
    length_kept : ℕ
    chosen : IsChosen acc length_kept
    not_longer : stem_length p ≤ length_kept
    unless_ambiguous :
        (acc.0.ambiguous ≡ true) ⊎ ((stem_length p < length_kept) ⊎ (p ≡ acc.0.media_path))

  abbrev Inv : SidecarMatch × Option ℕ → Type 0
  Inv acc = (acc.1 ≡ none) ⊎ ((n : ℕ) × IsChosen acc n)

  -- The four ways through a round of the loop.
  step_cases {ℓ} :
      (P : SidecarMatch × Option ℕ → Type ℓ) (acc : SidecarMatch × Option ℕ) (q : RelPath)
      → (kind_for to_lower candidate q ≡ none → P acc)
      → ((k : SidecarKind)
          → kind_for to_lower candidate q ≡ some k
          → is_longer to_lower (stem_length q) acc.1 ≡ true
          → P (
            record acc.0 { media_path = q; kind = some k; ambiguous = false },
            some (stem_length q),
          ))
      → ((k : SidecarKind)
          → kind_for to_lower candidate q ≡ some k
          → is_longer to_lower (stem_length q) acc.1 ≡ false
          → (is_as_long to_lower (stem_length q) acc.1 && not (same acc.0.media_path q)) ≡ true
          → P (record acc.0 { ambiguous = true }, acc.1))
      → ((k : SidecarKind)
          → kind_for to_lower candidate q ≡ some k
          → is_longer to_lower (stem_length q) acc.1 ≡ false
          → (is_as_long to_lower (stem_length q) acc.1 && not (same acc.0.media_path q)) ≡ false
          → P acc)
      → P (classify_step to_lower candidate acc q)
  unfolding classify_step
  step_cases P acc q no_kind longer equal rest =
      elim (Option-cases (kind_for to_lower candidate q)) [
        | inl none_found ↦ rw (classify_step, none_found) (no_kind none_found)
        | inr (k, found) ↦
            rw (classify_step, found)
              (elim (Bool-cases (is_longer to_lower (stem_length q) acc.1)) [
                | inl yes_longer ↦ rw yes_longer (longer k found yes_longer)
                | inr no_longer ↦
                    rw no_longer
                      (elim (Bool-cases (
                        is_as_long to_lower (stem_length q) acc.1
                        && not (same acc.0.media_path q))) [
                          | inl clash ↦ rw clash (equal k found no_longer clash)
                          | inr fine ↦ rw fine (rest k found no_longer fine)
                        ])
              ])
      ]

  anew-IsChosen :
      (r : SidecarMatch) (q : RelPath) (k : SidecarKind)
      → kind_for to_lower candidate q ≡ some k
      → IsChosen
          (record r { media_path = q; kind = some k; ambiguous = false }, some (stem_length q))
          (stem_length q)
  anew-IsChosen r q k found = record {
    kept = refl;
    long = refl;
    kind = k;
    is_kind = refl;
    of_kind = found;
  }

  still-IsChosen :
      (acc : SidecarMatch × Option ℕ) (n : ℕ)
      → IsChosen acc n
      → IsChosen (record acc.0 { ambiguous = true }, acc.1) n
  still-IsChosen acc n c = record {
    kept = c.kept;
    long = c.long;
    kind = c.kind;
    is_kind = c.is_kind;
    of_kind = c.of_kind;
  }

  step-Inv :
      (acc : SidecarMatch × Option ℕ) (q : RelPath)
      → Inv acc
      → Inv (classify_step to_lower candidate acc q)
  step-Inv acc q v =
      step_cases Inv acc q (λ none_found. v)
        (λ k found longer. inr (stem_length q, anew-IsChosen acc.0 q k found))
        (λ k found no_longer clash. elim v [
          | inl empty ↦ inl empty
          | inr (n, c) ↦ inr (n, still-IsChosen acc n c)
        ])
        (λ k found no_longer fine. v)

  length_below :
      (acc : SidecarMatch × Option ℕ) (n m : ℕ)
      → acc.1 ≡ some n
      → is_longer to_lower m acc.1 ≡ true
      → n < m
  length_below acc n m kept longer = ltb→lt n m (sym (ap (is_longer to_lower m) kept) ∙ longer)

  length_above :
      (acc : SidecarMatch × Option ℕ) (n m : ℕ)
      → acc.1 ≡ some n
      → is_longer to_lower m acc.1 ≡ false
      → m ≤ n
  length_above acc n m kept no_longer =
      let e : ltb n m ≡ false = sym (ap (is_longer to_lower m) kept) ∙ no_longer in ground arith

  step-Beats :
      (acc : SidecarMatch × Option ℕ) (p q : RelPath)
      → Beats acc p
      → Beats (classify_step to_lower candidate acc q) p
  step-Beats acc p q b =
      step_cases (λ a. Beats a p) acc q (λ none_found. b)
        (λ k found longer.
          let below = length_below acc b.length_kept (stem_length q) b.chosen.kept longer in
          record {
            length_kept = stem_length q;
            chosen = anew-IsChosen acc.0 q k found;
            not_longer = omega (arith, b.not_longer);
            unless_ambiguous = inr (inl (omega (arith, b.not_longer)));
          })
        (λ k found no_longer clash. record {
          length_kept = b.length_kept;
          chosen = still-IsChosen acc b.length_kept b.chosen;
          not_longer = b.not_longer;
          unless_ambiguous = inl refl;
        })
        (λ k found no_longer fine. b)

  -- A file that is neither longer than the chosen one nor in conflict with it.
  no_conflict :
      (acc : SidecarMatch × Option ℕ) (n : ℕ) (q : RelPath)
      → acc.1 ≡ some n
      → stem_length q ≤ n
      → (is_as_long to_lower (stem_length q) acc.1 && not (same acc.0.media_path q)) ≡ false
      → (stem_length q < n) ⊎ (q ≡ acc.0.media_path)
  no_conflict acc n q kept le fine =
      let fine' : ((stem_length q == n) && not (same acc.0.media_path q)) ≡ false =
        sym (ap (λ l. is_as_long to_lower (stem_length q) l && not (same acc.0.media_path q)) kept)
        ∙ fine in
      elim (Bool-cases (same acc.0.media_path q)) [
        | inl it ↦ inr (sym (same_sound acc.0.media_path q it))
        | inr other ↦ inl (ground arith)
      ]

  step-Beats_new :
      (acc : SidecarMatch × Option ℕ) (q : RelPath) (kind : SidecarKind)
      → Inv acc
      → kind_for to_lower candidate q ≡ some kind
      → Beats (classify_step to_lower candidate acc q) q
  step-Beats_new acc q kind v it =
      step_cases (λ a. Beats a q) acc q (λ none_found. cc)
        (λ k found longer. record {
          length_kept = stem_length q;
          chosen = anew-IsChosen acc.0 q k found;
          not_longer = omega arith;
          unless_ambiguous = inr (inr refl);
        })
        (λ k found no_longer clash. elim v [
          | inl empty ↦ cc (sym (ap (is_longer to_lower (stem_length q)) empty) ∙ no_longer)
          | inr (n, c) ↦ record {
            length_kept = n;
            chosen = still-IsChosen acc n c;
            not_longer = length_above acc n (stem_length q) c.kept no_longer;
            unless_ambiguous = inl refl;
          }
        ])
        (λ k found no_longer fine. elim v [
          | inl empty ↦ cc (sym (ap (is_longer to_lower (stem_length q)) empty) ∙ no_longer)
          | inr (n, c) ↦
              let le = length_above acc n (stem_length q) c.kept no_longer in
              record {
                length_kept = n;
                chosen = c;
                not_longer = le;
                unless_ambiguous = inr (no_conflict acc n q c.kept le fine);
              }
        ])

  all-Beats :
      (acc : SidecarMatch × Option ℕ) (p : RelPath) (ps : List RelPath)
      → Beats acc p
      → Beats (classify_all to_lower candidate acc ps) p
  unfolding classify_all
  all-Beats acc p [] b = b
  all-Beats acc p (q ∷ qs) b =
      all-Beats (classify_step to_lower candidate acc q) p qs (step-Beats acc p q b)

  all-Beats_member :
      (acc : SidecarMatch × Option ℕ) (p : RelPath) (kind : SidecarKind) (ps : List RelPath)
      → Inv acc
      → any_same p ps ≡ true
      → kind_for to_lower candidate p ≡ some kind
      → Beats (classify_all to_lower candidate acc ps) p
  unfolding classify_all any_same
  all-Beats_member acc p kind [] v member it = cc
  all-Beats_member acc p kind (q ∷ qs) v member it = elim (Bool-cases (same p q)) [
    | inl is_q ↦ all-Beats (classify_step to_lower candidate acc q) p qs (
        subst (λ x. Beats (classify_step to_lower candidate acc x) p) (same_sound p q is_q)
          (step-Beats_new acc p kind v it))
    | inr other ↦
        all-Beats_member (classify_step to_lower candidate acc q) p kind qs (step-Inv acc q v)
          (rw other at member) it
  ]

  module _ (P : RelPath → Type 0) where
    -- Nothing is chosen yet, or the chosen file has the property.
    abbrev ChosenHas : SidecarMatch × Option ℕ → Type 0
    ChosenHas acc = (acc.1 ≡ none) ⊎ P acc.0.media_path

    step-ChosenHas :
        (acc : SidecarMatch × Option ℕ) (q : RelPath)
        → P q
        → ChosenHas acc
        → ChosenHas (classify_step to_lower candidate acc q)
    step-ChosenHas acc q has v =
        step_cases ChosenHas acc q (λ none_found. v) (λ k found longer. inr has)
          (λ k found no_longer clash. v) (λ k found no_longer fine. v)

    all-ChosenHas :
        (acc : SidecarMatch × Option ℕ) (ps : List RelPath)
        → All P ps
        → ChosenHas acc
        → ChosenHas (classify_all to_lower candidate acc ps)
    unfolding classify_all
    all-ChosenHas acc [] has v = v
    all-ChosenHas acc (q ∷ qs) has v =
        all-ChosenHas (classify_step to_lower candidate acc q) qs has.1
          (step-ChosenHas acc q has.0 v)

abbrev Among : List RelPath → RelPath → Type 0
Among ps q = any_same q ps ≡ true

still-Among : (p : RelPath) (ps qs : List RelPath) → All (Among ps) qs → All (Among (p ∷ ps)) qs
unfolding any_same
still-Among p ps [] h = tt
still-Among p ps (q ∷ qs) h = (rw h.0 (or_true (same q p)), still-Among p ps qs h.1)
  where
    or_true : (b : Bool) → (b || true) ≡ true
    or_true true = refl
    or_true false = refl

all-Among : (ps : List RelPath) → All (Among ps) ps
unfolding any_same
all-Among [] = tt
all-Among (p ∷ ps) = (rw (same_refl p) refl, still-Among p ps ps (all-Among ps))

-- Of the given media files, let `p` be one to whose stem the candidate matches. Then the candidate is
-- given to one of the given files, to whose stem it matches as the kind that is returned, and whose stem
-- is not shorter than that of `p`. If it is as long, that file is `p` or the match is marked as
-- ambiguous.
pub classify_sidecar_longest :
    (to_lower : Bytes → Bytes) (candidate p : RelPath) (kind : SidecarKind)
    (media_paths : List RelPath)
    → any_same p media_paths ≡ true
    → kind_for to_lower candidate p ≡ some kind
    → let m = classify_sidecar to_lower candidate media_paths in
      (any_same m.media_path media_paths ≡ true)
      × ((k : SidecarKind) × (m.kind ≡ some k)
          × (kind_for to_lower candidate m.media_path ≡ some k))
      × (length (stem_of to_lower p) ≤ length (stem_of to_lower m.media_path))
      × ((m.ambiguous ≡ true)
          ⊎ ((length (stem_of to_lower p) < length (stem_of to_lower m.media_path))
              ⊎ (p ≡ m.media_path)))
unfolding classify_sidecar
classify_sidecar_longest to_lower candidate p kind media_paths member it =
    let start : SidecarMatch × Option ℕ =
      (record { path = candidate; media_path = []; kind = none; ambiguous = false }, none) in
    let b = all-Beats_member to_lower candidate start p kind media_paths (inl refl) member it in
    let among =
      all-ChosenHas to_lower candidate (Among media_paths) start media_paths (all-Among media_paths)
        (inl refl) in
    (
      elim among [ inl nothing ↦ absurd (some_none (sym b.chosen.kept ∙ nothing)) | inr h ↦ h ],
      (b.chosen.kind, b.chosen.is_kind, b.chosen.of_kind),
      omega (arith, b.not_longer, b.chosen.long),
      subst
          (λ n.
            (((classify_all to_lower candidate start media_paths).0.ambiguous ≡ true)
              ⊎ ((length (stem_of to_lower p) < n)
                  ⊎ (p ≡ (classify_all to_lower candidate start media_paths).0.media_path))))
          b.chosen.long b.unless_ambiguous,
    )
  where
    some_none : {n : ℕ} → some n ≡ none → ⊥
    some_none h = cc
