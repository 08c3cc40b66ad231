-- ===== src/Marker/RoundTrip.antt =====
-- A marker that was set on a new file is found again, and one that was set in part is none.
use mediastub.Prelude.{
  ℕ, ◌<◌, ◌^◌, ◌≡◌, ◌⊎◌, refl, ap, ◌∙◌, Bool, true, false, not, Option, none, some, [], ◌∷◌, All,
  length, arith, ◌==◌, if◌then◌else◌, inl, inr,
}
use mediastub.Prelude.Int.{ℤ, pos}
use mediastub.Prelude.Decimal.{decimal, decimal_ℤ}
use mediastub.Prelude.Maps.{Map, lookup, insert, delete, same}
use mediastub.Core.Base.{Bytes}
use mediastub.Syncer.Base.{no_marker, valid_marker, invalid_marker, hex}
use mediastub.Marker.{
  Failure, Result, ok, Reader, format_xattr, remote_size_xattr, etag_hash_xattr, plan_hash_xattr,
  webdav_url_xattr, valid_format, set_fields, set_marker, read_values, inspect_marker, Inspection,
  unmarked, is_negative, of_values, inspected, all_names, decode_hex, parse_uint,
}
use mediastub.Marker.Hex.{decode_hex-hex, parse_uint-decimal}

-- The attributes of a file that can be read.
abbrev pub reads_of : Map Bytes → Reader
reads_of attrs name = ok (lookup name attrs)

-- 32 bytes
pub record IsDigest (bs : Bytes) : Type 0 where
  pub all_bytes : All (λ b. b < 256) bs
  pub full : length bs ≡ 32

-- The values of the five attributes, in the order in which they are read.
abbrev five_values : Bytes → Bytes → Bytes → Bytes → Bytes → Map Bytes
five_values format size etag_hash plan_hash url =
    (format_xattr, format)
    ∷ (remote_size_xattr, size)
    ∷ (etag_hash_xattr, etag_hash)
    ∷ (plan_hash_xattr, plan_hash)
    ∷ (webdav_url_xattr, url)
    ∷ []

abbrev attrs_of : Bytes → Bytes → Bytes → Bytes → Bytes → Map Bytes
attrs_of format size etag_hash plan_hash url = insert webdav_url_xattr url (
    insert plan_hash_xattr plan_hash (
      insert etag_hash_xattr etag_hash
        (insert remote_size_xattr size (insert format_xattr format []))))

read_values-attrs_of :
    (format size etag_hash plan_hash url : Bytes)
    → read_values (reads_of (attrs_of format size etag_hash plan_hash url)) all_names
      ≡ ok (five_values format size etag_hash plan_hash url)
unfolding read_values lookup insert delete same
read_values-attrs_of format size etag_hash plan_hash url = refl

same_number : (n : ℕ) → (n == n) ≡ true
same_number n = ground arith

-- Values that are all good
of_values-five_values :
    (format size etag_hash plan_hash url : Bytes) (n : ℕ) (etag_digest plan_digest : Bytes)
    → valid_format format ≡ true
    → parse_uint size ≡ some n
    → decode_hex etag_hash ≡ some etag_digest
    → length etag_digest ≡ 32
    → decode_hex plan_hash ≡ some plan_digest
    → length plan_digest ≡ 32
    → same url [] ≡ false
    → of_values n (five_values format size etag_hash plan_hash url) ≡ record {
      status = valid_marker;
      format = format;
      marker = record {
        remote_size = n;
        remote_etag_hash = etag_digest;
        plan_hash = plan_digest;
        webdav_url = url;
      };
    }
unfolding lookup same
of_values-five_values format size etag_hash plan_hash url n etag_digest plan_digest hf hs he le hp
      lp hu =
    rw (hf, hs, he, le, hp, lp, same_number n, hu) refl

module _ (digest : Bytes → Bytes) (digests : (bs : Bytes) → IsDigest (digest bs)) where
  set_all :
      (refuses : Bytes → Option Failure) (format : Bytes) (size : ℕ) (etag plan_hash url : Bytes)
      → ((name : Bytes) → refuses name ≡ none)
      → valid_format format ≡ true
      → same url [] ≡ false
      → (set_marker digest refuses format (pos size) etag plan_hash url []).1
        ≡ attrs_of format (decimal size) (hex (digest etag)) (hex plan_hash) url
  unfolding set_marker set_fields decimal_ℤ
  set_all refuses format size etag plan_hash url free good named =
      rw
        (
          good,
          named,
          free format_xattr,
          free remote_size_xattr,
          free etag_hash_xattr,
          free plan_hash_xattr,
          free webdav_url_xattr,
        )
        refl

  -- A marker that `Set` writes to a file without attributes, none of which the system refuses, is found
  -- by `Inspect` for a file of the remote's size, with the format, the hashes and the URL that were set.
  pub inspect_marker-set_marker :
      (refuses : Bytes → Option Failure) (format : Bytes) (size : ℕ) (etag plan_hash url : Bytes)
      → ((name : Bytes) → refuses name ≡ none)
      → valid_format format ≡ true
      → size < 2 ^ 64
      → IsDigest plan_hash
      → same url [] ≡ false
      → inspect_marker
          (reads_of (set_marker digest refuses format (pos size) etag plan_hash url []).1)
          (pos size)
        ≡ ok (record {
          status = valid_marker;
          format = format;
          marker = record {
            remote_size = size;
            remote_etag_hash = digest etag;
            plan_hash = plan_hash;
            webdav_url = url;
          };
        })
  unfolding inspect_marker
  inspect_marker-set_marker refuses format size etag plan_hash url free good small hash named =
      ap (λ attrs. inspect_marker (reads_of attrs) (pos size))
        (set_all refuses format size etag plan_hash url free good named)
      ∙ ap (inspected size)
          (read_values-attrs_of format (decimal size) (hex (digest etag)) (hex plan_hash) url)
      ∙ ap ok (
          of_values-five_values format (decimal size) (hex (digest etag)) (hex plan_hash) url size
            (digest etag) plan_hash good (parse_uint-decimal size small)
            (decode_hex-hex (digest etag) (digests etag).all_bytes) (digests etag).full
            (decode_hex-hex plan_hash hash.all_bytes) hash.full named)

-- What `Inspect` answers for a file that carries no whole marker.
abbrev pub IsUnmarked : Result Inspection → Type 0
IsUnmarked r = (r ≡ ok (unmarked no_marker)) ⊎ (r ≡ ok (unmarked invalid_marker))

module _ (e : Failure) (file_size : ℕ) where
  abbrev Unmarks : Map Bytes → Type 0
  Unmarks attrs = IsUnmarked (inspect_marker (reads_of attrs) (pos file_size))

  -- Attributes that are left by an error carry no whole marker.
  abbrev FailsUnmarked : Option Failure × Map Bytes → Type 0
  FailsUnmarked (o, attrs) = o ≡ some e → Unmarks attrs

  field-FailsUnmarked :
      (o : Option Failure) (attrs : Map Bytes) (rest : Option Failure × Map Bytes)
      → Unmarks attrs
      → FailsUnmarked rest
      → FailsUnmarked (elim o [ some e' ↦ (some e', attrs) | none ↦ rest ])
  field-FailsUnmarked (some e') attrs rest u f h = u
  field-FailsUnmarked none attrs rest u f h = f h

  if-FailsUnmarked :
      (b : Bool) (x y : Option Failure × Map Bytes)
      → FailsUnmarked x
      → FailsUnmarked y
      → FailsUnmarked (if b then x else y)
  if-FailsUnmarked true x y f g = f
  if-FailsUnmarked false x y f g = g

  -- Fewer than five fields
  abbrev one_field : Bytes → Map Bytes
  one_field format = insert format_xattr format []

  abbrev two_fields : Bytes → Bytes → Map Bytes
  two_fields format size = insert remote_size_xattr size (one_field format)

  abbrev three_fields : Bytes → Bytes → Bytes → Map Bytes
  three_fields format size etag_hash = insert etag_hash_xattr etag_hash (two_fields format size)

  abbrev four_fields : Bytes → Bytes → Bytes → Bytes → Map Bytes
  four_fields format size etag_hash plan_hash =
      insert plan_hash_xattr plan_hash (three_fields format size etag_hash)

  none-Unmarks : Unmarks []
  unfolding inspect_marker read_values lookup
  none-Unmarks = inl refl

  fewer-Unmarks :
      (format size etag_hash plan_hash : Bytes)
      → Unmarks (one_field format)
        × Unmarks (two_fields format size)
        × Unmarks (three_fields format size etag_hash)
        × Unmarks (four_fields format size etag_hash plan_hash)
  unfolding inspect_marker read_values lookup insert delete same
  fewer-Unmarks format size etag_hash plan_hash = (inr refl, inr refl, inr refl, inr refl)

  set_fields-FailsUnmarked :
      (refuses : Bytes → Option Failure) (format size etag_hash plan_hash url : Bytes)
      → FailsUnmarked (set_fields refuses (five_values format size etag_hash plan_hash url) [])
  unfolding set_fields
  set_fields-FailsUnmarked refuses format size etag_hash plan_hash url =
      let (u1, u2, u3, u4) = fewer-Unmarks format size etag_hash plan_hash in
      field-FailsUnmarked (refuses format_xattr) [] _ none-Unmarks (
        field-FailsUnmarked (refuses remote_size_xattr) (one_field format) _ u1 (
          field-FailsUnmarked (refuses etag_hash_xattr) (two_fields format size) _ u2 (
            field-FailsUnmarked (refuses plan_hash_xattr) (three_fields format size etag_hash) _ u3
              (field-FailsUnmarked (refuses webdav_url_xattr)
                (four_fields format size etag_hash plan_hash) _ u4 (λ h. absurd cc)))))

-- If `Set` ends with an error on a file without attributes, whatever it had written by then, `Inspect`
-- finds no marker or an invalid one.
pub set_marker_failed-IsUnmarked :
    (digest : Bytes → Bytes) (refuses : Bytes → Option Failure) (format : Bytes) (size : ℤ)
    (etag plan_hash url : Bytes) (e : Failure) (file_size : ℕ)
    → (set_marker digest refuses format size etag plan_hash url []).0 ≡ some e
    → IsUnmarked (
        inspect_marker
          (reads_of (set_marker digest refuses format size etag plan_hash url []).1)
          (pos file_size))
unfolding set_marker
set_marker_failed-IsUnmarked digest refuses format size etag plan_hash url e file_size =
    if-FailsUnmarked e file_size (is_negative size) _ _ (λ h. none-Unmarks e file_size)
      (if-FailsUnmarked e file_size (not (valid_format format)) _ _ (λ h. none-Unmarks e file_size)
        (if-FailsUnmarked e file_size (same url []) _ _ (λ h. none-Unmarks e file_size)
          (set_fields-FailsUnmarked e file_size refuses format (decimal_ℤ size) (hex (digest etag))
            (hex plan_hash) url)))
