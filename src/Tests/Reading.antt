-- ===== src/Tests/Reading.antt =====
-- The theorems of the package origin on small inputs.
use mediastub.Prelude.{All, ℕ, ◌≡◌, refl, ◌⊎◌, none, [], ◌∷◌, arith, min}
use mediastub.Prelude.Int.{pos, negsuc}
use mediastub.Prelude.Maps.{same}
use mediastub.Core.Base.{Bytes, ok, err, invalid_path}
use mediastub.Core.Source.{bytes_read_at, bytes_source}
use mediastub.Core.Source.Faithful.{IsPart, bytes_read_at-IsPart, bytes-Serves}
use mediastub.Core.ReadSeeker.{read_each, seek, seek_end, new_read_seeker}
use mediastub.Core.ReadSeeker.Sequence.{IsSequence, seek-read_each}
use mediastub.Paths.{split, join_with}
use mediastub.Origin.{Object, read_full_at}
use mediastub.Origin.ReadFull.{IsSlice, Offers, read_full_at-IsPart}
use mediastub.Origin.CleanPath.{clean_path, trim_left, trim_right, dot, good_parts}
use mediastub.Origin.CleanPath.Sound.{IsBelow, IsBetweenSlashes, clean_path-AllBelow}
use mediastub.Tests.Files.{mp4_file}

-- An object that gives one byte of the file at a time.
abbrev pub slow_object : Bytes → Object
slow_object content = record {
  State = Unit {0};
  context_error = λ s. (none, s);
  read_at = λ s n off. (bytes_read_at content (min n 1) off, s);
}

pub slow_read :
    (content : Bytes) (n off : ℕ)
    → IsSlice content n off (bytes_read_at content (min n 1) (pos off))
slow_read content n off =
    let p = bytes_read_at-IsPart content (min n 1) off in
    record { part = p.part; bounded = omega (arith, p.bounded); at_end = p.at_end }

abbrev pub slow_offers : (content : Bytes) → Offers content (slow_object content)
slow_offers content = record {
  Inv = λ s. Unit;
  context_keeps = λ s v. tt;
  context_error_is = λ s v h. cc;
  keeps = λ s n off v. tt;
  reads = λ s n off v. slow_read content n off;
}

read_full_at-IsPart_example :
    IsPart mp4_file 6 10 (read_full_at (slow_object mp4_file) tt 6 (pos 10)).0
read_full_at-IsPart_example =
    read_full_at-IsPart mp4_file (slow_object mp4_file) (slow_offers mp4_file) tt 6 10 tt

-- "/a/b/"
abbrev slashed : Bytes
slashed = b'/' ∷ b'a' ∷ b'/' ∷ b'b' ∷ b'/' ∷ []

slashed-clean_path : clean_path slashed ≡ ok (b'a' ∷ b'/' ∷ b'b' ∷ [])
unfolding clean_path trim_left trim_right good_parts same split join_with
slashed-clean_path = refl

-- "a/../b"
parent_refused : clean_path (b'a' ∷ b'/' ∷ b'.' ∷ b'.' ∷ b'/' ∷ b'b' ∷ []) ≡ err invalid_path
unfolding clean_path trim_left trim_right good_parts same split join_with
parent_refused = refl

clean_path-AllBelow_example :
    (b'a' ∷ b'/' ∷ b'b' ∷ [] ≡ dot)
    ⊎ (IsBetweenSlashes slashed (b'a' ∷ b'/' ∷ b'b' ∷ [])
        × All IsBelow (split b'/' (b'a' ∷ b'/' ∷ b'b' ∷ [])))
clean_path-AllBelow_example =
    clean_path-AllBelow slashed (b'a' ∷ b'/' ∷ b'b' ∷ []) slashed-clean_path

-- Ten bytes before the end.
seek-read_each_example : IsSequence mp4_file 25 (
    read_each
      (bytes_source mp4_file)
      (seek
        (bytes_source mp4_file)
        (new_read_seeker (bytes_source mp4_file) tt)
        (negsuc 9)
        seek_end).1
      (4 ∷ 3 ∷ 9 ∷ []))
unfolding bytes-Serves seek
seek-read_each_example =
    seek-read_each mp4_file (bytes_source mp4_file) (bytes-Serves mp4_file)
      (new_read_seeker (bytes_source mp4_file) tt) (negsuc 9) seek_end 25 (4 ∷ 3 ∷ 9 ∷ []) tt refl
