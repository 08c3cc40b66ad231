-- ===== src/Tests/Hashing.antt =====
-- The hash of a small remote file.
use mediastub.Prelude.{◌≡◌, refl, some, [], ◌∷◌}
use mediastub.Prelude.Int.{pos}
use mediastub.Core.Base.{Bytes, ok, err, eof}
use mediastub.Core.Source.{bytes_read_at}
use mediastub.Syncer.Base.{hex}
use mediastub.Origin.{read_full_at, read_full, after_part}
use mediastub.Syncer.Hash.{hash_remote, hash_rest}
use mediastub.Syncer.Hash.Whole.{HashesOrFails, hash_remote-HashesOrFails}
use mediastub.Tests.Reading.{slow_object, slow_offers}

abbrev text : Bytes
text = 1 ∷ 2 ∷ 3 ∷ []

-- A digest that keeps everything
abbrev whole : Bytes → Bytes
whole xs = xs

prefix_hashed : hash_remote (slow_object text) whole (ok tt) (pos 2) ≡ some (ok (hex (1 ∷ 2 ∷ [])))
unfolding hash_remote hash_rest read_full_at read_full after_part bytes_read_at
prefix_hashed = refl

longer_refused : hash_remote (slow_object text) whole (ok tt) (pos 4) ≡ some (err eof)
unfolding hash_remote hash_rest read_full_at read_full after_part bytes_read_at
longer_refused = refl

hash_remote-HashesOrFails_example :
    HashesOrFails text
      (slow_object text)
      (slow_offers text)
      whole
      2
      (hash_remote (slow_object text) whole (ok tt) (pos 2))
hash_remote-HashesOrFails_example =
    hash_remote-HashesOrFails text (slow_object text) (slow_offers text) whole (pos 2) tt tt
