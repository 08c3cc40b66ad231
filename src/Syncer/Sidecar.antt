-- ===== src/Syncer/Sidecar.antt =====
-- syncer/sidecar.go: which media file a sidecar belongs to.
pub mod Longest
use mediastub.Prelude.{
  ℕ, Bool, true, false, not, ◌||◌, ◌&&◌, Option, none, some, List, [], ◌∷◌, ◌++◌, length, ltb, ◌==◌,
  if◌then◌else◌,
}
use mediastub.Prelude.Maps.{same}
use mediastub.Core.Base.{Bytes}
use mediastub.Syncer.Base.{RelPath}
use mediastub.Paths.{ext, without_ext, split, dir, base, behind, atoi_positive}

pub data SidecarKind : Type 0 where
  nfo image subtitle : SidecarKind

pub record SidecarMatch : Type 0 where
  pub path : RelPath
  pub media_path : RelPath
  pub kind : Option SidecarKind
  pub ambiguous : Bool

unfoldable pub any_same : Bytes → List Bytes → Bool
any_same s [] = false
any_same s (w ∷ ws) = same s w || any_same s ws

abbrev image_extensions : List Bytes
image_extensions =
    (b'.' ∷ b'j' ∷ b'p' ∷ b'g' ∷ [])
    ∷ (b'.' ∷ b'j' ∷ b'p' ∷ b'e' ∷ b'g' ∷ [])
    ∷ (b'.' ∷ b'p' ∷ b'n' ∷ b'g' ∷ [])
    ∷ (b'.' ∷ b'w' ∷ b'e' ∷ b'b' ∷ b'p' ∷ [])
    ∷ []

abbrev subtitle_extensions : List Bytes
subtitle_extensions =
    (b'.' ∷ b's' ∷ b'r' ∷ b't' ∷ [])
    ∷ (b'.' ∷ b'a' ∷ b's' ∷ b's' ∷ [])
    ∷ (b'.' ∷ b's' ∷ b's' ∷ b'a' ∷ [])
    ∷ (b'.' ∷ b'v' ∷ b't' ∷ b't' ∷ [])
    ∷ (b'.' ∷ b's' ∷ b'u' ∷ b'b' ∷ [])
    ∷ []

abbrev fanart : Bytes
fanart = b'-' ∷ b'f' ∷ b'a' ∷ b'n' ∷ b'a' ∷ b'r' ∷ b't' ∷ []

abbrev backdrop : Bytes
backdrop = b'-' ∷ b'b' ∷ b'a' ∷ b'c' ∷ b'k' ∷ b'd' ∷ b'r' ∷ b'o' ∷ b'p' ∷ []

abbrev exact_image_suffixes : List Bytes
exact_image_suffixes =
    []
    ∷ (b'-' ∷ b'p' ∷ b'o' ∷ b's' ∷ b't' ∷ b'e' ∷ b'r' ∷ [])
    ∷ (b'-' ∷ b'c' ∷ b'o' ∷ b'v' ∷ b'e' ∷ b'r' ∷ [])
    ∷ (b'-' ∷ b'f' ∷ b'o' ∷ b'l' ∷ b'd' ∷ b'e' ∷ b'r' ∷ [])
    ∷ fanart
    ∷ backdrop
    ∷ (b'-' ∷ b't' ∷ b'h' ∷ b'u' ∷ b'm' ∷ b'b' ∷ [])
    ∷ (b'-' ∷ b'l' ∷ b'o' ∷ b'g' ∷ b'o' ∷ [])
    ∷ (b'-' ∷ b'c' ∷ b'l' ∷ b'e' ∷ b'a' ∷ b'r' ∷ b'l' ∷ b'o' ∷ b'g' ∷ b'o' ∷ [])
    ∷ (b'-' ∷ b'b' ∷ b'a' ∷ b'n' ∷ b'n' ∷ b'e' ∷ b'r' ∷ [])
    ∷ (b'-' ∷ b'l' ∷ b'a' ∷ b'n' ∷ b'd' ∷ b's' ∷ b'c' ∷ b'a' ∷ b'p' ∷ b'e' ∷ [])
    ∷ (b'-' ∷ b'a' ∷ b'r' ∷ b't' ∷ [])
    ∷ (b'-' ∷ b'd' ∷ b'i' ∷ b's' ∷ b'c' ∷ [])
    ∷ []

unfoldable pub positive_numeric_suffix : Bytes → Bytes → Bool
positive_numeric_suffix value prefix = elim (behind prefix value) [
  | none ↦ false
  | some n ↦ atoi_positive n
]

-- One or two qualifiers, none of them empty.
abbrev pub good_qualifiers : List Bytes → Bool
good_qualifiers (q ∷ []) = not (same q [])
good_qualifiers (q ∷ r ∷ []) = not (same q []) && not (same r [])
good_qualifiers _ = false

-- `to_lower` stands for `strings.ToLower`.
module _ (to_lower : Bytes → Bytes) where
  abbrev pub good_suffix : Bytes → Bool
  good_suffix suffix =
      any_same suffix exact_image_suffixes
      || positive_numeric_suffix suffix fanart
      || positive_numeric_suffix suffix backdrop

  -- The kind is `none` where the source returns false.
  unfoldable pub matches_sidecar_stem : Bytes → Bytes → Option SidecarKind
  matches_sidecar_stem filename stem =
      let e = to_lower (ext filename) in
      let b = without_ext filename in
      if same e (b'.' ∷ b'n' ∷ b'f' ∷ b'o' ∷ [])
      then if same b stem then some nfo else none
      else if any_same e image_extensions
      then elim (behind stem b) [
        | none ↦ none
        | some suffix ↦ if good_suffix (to_lower suffix) then some image else none
      ]
      else if any_same e subtitle_extensions
      then if same b stem then some subtitle else elim (behind (stem ++ (b'.' ∷ [])) b) [
        | none ↦ none
        | some rest ↦ if good_qualifiers (split b'.' rest) then some subtitle else none
      ]
      else none

  abbrev pub stem_of : RelPath → Bytes
  stem_of media_path = without_ext (base media_path)

  -- The kind as which the candidate belongs to a media file.
  abbrev pub kind_for : RelPath → RelPath → Option SidecarKind
  kind_for candidate media_path =
      if same (dir media_path) (dir candidate)
      then matches_sidecar_stem (base candidate) (stem_of media_path)
      else none

  -- `longest`; `none` is -1.
  abbrev pub is_longer : ℕ → Option ℕ → Bool
  is_longer n none = true
  is_longer n (some m) = ltb m n

  abbrev pub is_as_long : ℕ → Option ℕ → Bool
  is_as_long n none = false
  is_as_long n (some m) = n == m

  -- One round of the loop.
  unfoldable pub classify_step :
      RelPath → SidecarMatch × Option ℕ → RelPath → SidecarMatch × Option ℕ
  classify_step candidate (result, longest) media_path = elim (kind_for candidate media_path) [
    | none ↦ (result, longest)
    | some kind ↦
        let n = length (stem_of media_path) in
        if is_longer n longest
        then (
          record result { media_path = media_path; kind = some kind; ambiguous = false },
          some n,
        )
        else if is_as_long n longest && not (same result.media_path media_path)
        then (record result { ambiguous = true }, longest)
        else (result, longest)
  ]

  unfoldable pub classify_all :
      RelPath → SidecarMatch × Option ℕ → List RelPath → SidecarMatch × Option ℕ
  classify_all candidate acc [] = acc
  classify_all candidate acc (p ∷ ps) = classify_all candidate (classify_step candidate acc p) ps

  unfoldable pub classify_sidecar : RelPath → List RelPath → SidecarMatch
  classify_sidecar candidate media_paths =
      (classify_all candidate
        (record { path = candidate; media_path = []; kind = none; ambiguous = false }, none)
        media_paths).0
