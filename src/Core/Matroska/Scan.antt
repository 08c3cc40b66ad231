-- ===== src/Core/Matroska/Scan.antt =====
-- The metadata that the scan keeps are elements of the file, and the scan ends.
use mediastub.Prelude.{
  refl, ap, ◌∙◌, ◌⊎◌, inl, inr, [], Bool-cases, length-take, length-drop, take-length-take, ℕ, zero,
  suc, ◌+◌, ◌-◌, ◌≤◌, ◌≡◌, sym, subst, true, false, ◌||◌, ◌&&◌, not, arith, length, take, drop, ltb,
  ◌==◌, All, All-take, All-drop,
}
use mediastub.Core.Base.{Bytes, Result, ok, err, metadata_too_large, unknown_sized}
use mediastub.Core.Source.{Source}
use mediastub.Core.Source.Faithful.{Serves, IsPart}
use mediastub.Core.Action.{Act, read, check_read, check_but_eof, attempt}
use mediastub.Core.Action.Ensures.{
  Ensures, OrError, IsFull, IsCut, bind-Ensures, pure-Ensures, fail-Ensures, if-Ensures,
  lift-Ensures, attempt-Ensures, check_read-Ensures, check_but_eof-Ensures, read-Ensures,
}
use mediastub.Core.Ebml.{
  EbmlElement, parse_element, ebml_info_id, ebml_tracks_id, ebml_tags_id, ebml_cluster_id,
}
use mediastub.Core.Ebml.Digits.{IsByte}
use mediastub.Core.Ebml.Bounds.{parse_element_bounds}
use mediastub.Core.Matroska.{
  Raws, is_empty, metadata_element, has_info_and_tracks, store_raw, read_ebml_element, keep_element,
  scan_element, unless_error, scan_metadata,
}
use mediastub.Core.Mp4.{max_metadata_element_size}

-- The header that is read at the place `o` of the file
abbrev pub ParsesTo : Bytes → ℕ → EbmlElement → Type 0
ParsesTo content o e = parse_element (take 12 (drop o content)) o ≡ ok e

-- The places that are come to from `start` by the sizes of the elements on the way
pub data Reaches (content : Bytes) (start : ℕ) : ℕ → Type 0 where
  here : Reaches content start start
  onward :
      {o : ℕ} (e : EbmlElement)
      → Reaches content start o
      → ParsesTo content o e
      → e.unknown ≡ false
      → Reaches content start (o + (e.header_size + e.size))

-- A whole element of the file with a given ID, one of those that follow each other from `start` and end
-- by `segment_end`
pub record IsElement (content : Bytes) (start segment_end id : ℕ) (raw : Bytes) : Type 0 where
  pub place : ℕ
  pub element : EbmlElement
  pub reached : Reaches content start place
  pub parsed : ParsesTo content place element
  pub known : element.unknown ≡ false
  pub has_id : element.id ≡ id
  pub within : place + (element.header_size + element.size) ≤ segment_end
  pub whole : raw ≡ take (element.header_size + element.size) (drop place content)

-- What was found for an ID, if anything
abbrev pub IsFound : Bytes → ℕ → ℕ → ℕ → Bytes → Type 0
IsFound content start segment_end id raw = (raw ≡ []) ⊎ IsElement content start segment_end id raw

pub record RawsOf (content : Bytes) (start segment_end : ℕ) (raws : Raws) : Type 0 where
  pub info_found : IsFound content start segment_end ebml_info_id raws.info
  pub tracks_found : IsFound content start segment_end ebml_tracks_id raws.tracks
  pub tags_found : IsFound content start segment_end ebml_tags_id raws.tags

module _ (content : Bytes) (start segment_end : ℕ) where
  with_id :
      (id id' : ℕ) (raw : Bytes)
      → id ≡ id'
      → IsElement content start segment_end id raw
      → IsElement content start segment_end id' raw
  with_id id id' raw h e = subst (λ k. IsElement content start segment_end k raw) h e

  store_raw-RawsOf :
      (id : ℕ) (raw : Bytes) (raws : Raws)
      → metadata_element id ≡ true
      → IsElement content start segment_end id raw
      → RawsOf content start segment_end raws
      → RawsOf content start segment_end (store_raw id raw raws)
  store_raw-RawsOf id raw raws meta e v = elim (Bool-cases (id == ebml_info_id)) [
    | inl is_info ↦ rw is_info (record {
      info_found = inr (with_id id ebml_info_id raw (ground arith) e);
      tracks_found = v.tracks_found;
      tags_found = v.tags_found;
    })
    | inr no_info ↦ rw no_info (elim (Bool-cases (id == ebml_tracks_id)) [
      | inl is_tracks ↦ rw is_tracks (record {
        info_found = v.info_found;
        tracks_found = inr (with_id id ebml_tracks_id raw (ground arith) e);
        tags_found = v.tags_found;
      })
      | inr no_tracks ↦ rw no_tracks (record {
        info_found = v.info_found;
        tracks_found = v.tracks_found;
        tags_found = inr (with_id id ebml_tags_id raw (ground arith) e);
      })
    ])
  ]

-- An element that was read at the place `o`.
pub record IsRead (content : Bytes) (o : ℕ) (e : EbmlElement) : Type 0 where
  pub parses : ParsesTo content o e
  pub placed : e.offset ≡ o
  pub header_min : 2 ≤ e.header_size

cut_whole :
    (content : Bytes) (n o : ℕ) (buf : Bytes)
    → IsCut content n o buf
    → buf ≡ take n (drop o content)
cut_whole content n o buf cut =
    cut.0
    ∙ ap (λ k. take k (drop o content)) {x = length buf} {y = length (take n (drop o content))}
        (omega (arith, cut.1, length-take n (drop o content), length-drop o content))
    ∙ sym (take-length-take n (drop o content))

module _ (content : Bytes) (bytes : All IsByte content) (source : Source)
    (serves : Serves content source) where
  pub read_ebml_element-Ensures :
      (o : ℕ) → Ensures serves.Inv (IsRead content o) (read_ebml_element source o)
  unfolding read_ebml_element
  read_ebml_element-Ensures o =
      bind-Ensures serves.Inv (IsPart content 12 o) (IsRead content o) (read source 12 o) _
        (read-Ensures content source serves 12 o)
        λ r p.
          bind-Ensures serves.Inv (IsCut content 12 o) (IsRead content o) (check_but_eof r) _
            (check_but_eof-Ensures serves.Inv content 12 o r p)
            λ buf cut. lift-Ensures serves.Inv (IsRead content o) (parse_element buf o) λ e h.
              let whole : buf ≡ take 12 (drop o content) = cut_whole content 12 o buf cut in
              let are_bytes : All IsByte buf =
                subst (All IsByte) (sym cut.0)
                  (All-take IsByte (length buf) _ (All-drop IsByte o content bytes)) in
              let b = parse_element_bounds buf o e are_bytes h in
              (record {
                parses = ap (λ x. parse_element x o) (sym whole) ∙ h;
                placed = b.placed;
                header_min = b.header_min;
              })

module _ (content : Bytes) (bytes : All IsByte content) (source : Source)
    (serves : Serves content source) (start segment_end : ℕ) where
  abbrev Good : Raws → Type 0
  Good raws = RawsOf content start segment_end raws

  keep_element-Ensures :
      (e : EbmlElement) (o total : ℕ) (raws : Raws)
      → ((raw : Bytes)
          → raw ≡ take total (drop o content)
          → IsElement content start segment_end e.id raw)
      → Good raws
      → Ensures serves.Inv Good (keep_element source e.id o total raws)
  unfolding keep_element
  keep_element-Ensures e o total raws found v =
      let id = e.id in
      if-Ensures serves.Inv Good (metadata_element id) _ _
        (λ meta.
          if-Ensures serves.Inv Good (ltb max_metadata_element_size total) _ _
            (λ e. fail-Ensures serves.Inv Good metadata_too_large)
            (λ e.
              bind-Ensures serves.Inv (IsPart content total o) Good (read source total o) _
                (read-Ensures content source serves total o)
                λ r p.
                  bind-Ensures serves.Inv (IsFull content total o) Good (check_read r) _
                    (check_read-Ensures serves.Inv content total o r p)
                    λ raw full. pure-Ensures serves.Inv Good _ (
                      store_raw-RawsOf content start segment_end id raw raws meta
                        (found raw (full.0 ∙ ap (λ k. take k (drop o content)) full.1)) v)))
        (λ other. pure-Ensures serves.Inv Good raws v)

  scan_element-Ensures :
      (next : ℕ → Raws → Act source.State Raws) (o : ℕ) (raws : Raws) (e : EbmlElement)
      → Reaches content start o
      → IsRead content o e
      → Good raws
      → ((raws' : Raws)
          → Reaches content start (o + (e.header_size + e.size))
          → Good raws'
          → Ensures serves.Inv Good (next (o + (e.header_size + e.size)) raws'))
      → Ensures serves.Inv Good (scan_element source next segment_end o raws e)
  unfolding scan_element
  scan_element-Ensures next o raws e reached is_read v later =
      let keep = pure-Ensures serves.Inv Good raws v in
      if-Ensures serves.Inv Good e.unknown _ _
        (λ h.
          if-Ensures serves.Inv Good (e.id == ebml_cluster_id) _ _ (λ h. keep)
            (λ h. fail-Ensures serves.Inv Good unknown_sized))
        (λ known.
          if-Ensures serves.Inv Good (e.id == ebml_cluster_id && has_info_and_tracks raws) _ _
            (λ h. keep)
            (λ h.
              if-Ensures serves.Inv Good
                (ltb (e.header_size + e.size) e.header_size
                  || ltb (segment_end - o) (e.header_size + e.size))
                _ _ (λ h. keep)
                (λ fits.
                  bind-Ensures serves.Inv Good Good
                    (keep_element source e.id o (e.header_size + e.size) raws) _
                    (keep_element-Ensures e o (e.header_size + e.size) raws
                      (λ raw whole. record {
                        place = o;
                        element = e;
                        reached = reached;
                        parsed = is_read.parses;
                        known = known;
                        has_id = refl;
                        within = ground (arith, fits, is_read.header_min);
                        whole = whole;
                      })
                      v)
                    λ raws' v'.
                      if-Ensures serves.Inv Good
                        (has_info_and_tracks raws'
                          && (not (is_empty raws'.tags) || not (metadata_element e.id)))
                        _ _ (λ h. pure-Ensures serves.Inv Good raws' v')
                        (λ h. later raws' (onward e reached is_read.parses known) v'))))

  pub scan_metadata-Ensures :
      (fuel o : ℕ) (raws : Raws)
      → segment_end ≤ o + fuel
      → Reaches content start o
      → Good raws
      → Ensures serves.Inv Good (scan_metadata source fuel segment_end o raws)
  unfolding scan_metadata
  scan_metadata-Ensures zero o raws enough reached v =
      if-Ensures serves.Inv Good (ltb o segment_end) _ _ (λ e. absurd (ground arith))
        (λ e. pure-Ensures serves.Inv Good raws v)
  scan_metadata-Ensures (suc fuel) o raws enough reached v =
      if-Ensures serves.Inv Good (ltb o segment_end) _ _
        (λ e.
          bind-Ensures serves.Inv (OrError (IsRead content o)) Good
            (attempt (read_ebml_element source o)) _
            (attempt-Ensures serves.Inv (IsRead content o) (read_ebml_element source o)
              (read_ebml_element-Ensures content bytes source serves o))
            (go (scan_metadata-Ensures fuel)))
        (λ e. pure-Ensures serves.Inv Good raws v)
    where
      go :
          ((o' : ℕ) (raws' : Raws)
            → segment_end ≤ o' + fuel
            → Reaches content start o'
            → Good raws'
            → Ensures serves.Inv Good (scan_metadata source fuel segment_end o' raws'))
          → (r : Result EbmlElement) → OrError (IsRead content o) r
          → Ensures serves.Inv Good (
              unless_error source r raws
                (scan_element source (scan_metadata source fuel segment_end) segment_end o raws))
      go again (ok e) h =
          scan_element-Ensures (scan_metadata source fuel segment_end) o raws e reached h v
            (λ raws' reached' v'.
              again (o + (e.header_size + e.size)) raws' (omega (arith, h.header_min)) reached' v')
      go again (err x) h = pure-Ensures serves.Inv Good raws v
