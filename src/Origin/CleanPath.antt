-- ===== src/Origin/CleanPath.antt =====
-- origin/origin.go: `CleanPath` turns a user's path into a relative one.
pub mod Sound
use mediastub.Prelude.{ℕ, Bool, true, false, not, ◌||◌, ◌&&◌, List, [], ◌∷◌, ◌==◌, if◌then◌else◌}
use mediastub.Prelude.Maps.{same}
use mediastub.Core.Base.{Bytes, Result, ok, err, invalid_path}
use mediastub.Paths.{split, join_with}

unfoldable pub trim_left : Bytes → Bytes
trim_left [] = []
trim_left (c ∷ cs) = let rest = trim_left cs in if c == b'/' then rest else c ∷ cs

unfoldable pub trim_right : Bytes → Bytes
trim_right [] = []
trim_right (c ∷ cs) = let rest = trim_right cs in if c == b'/' && same rest [] then [] else c ∷ rest

-- `strings.Trim(name, "/")`
abbrev pub trim : Bytes → Bytes
trim name = trim_right (trim_left name)

abbrev pub dot : Bytes
dot = b'.' ∷ []

-- No part is empty, a dot or two dots.
unfoldable pub good_parts : List Bytes → Bool
good_parts [] = true
good_parts (w ∷ ws) = not (same w [] || same w dot || same w (b'.' ∷ b'.' ∷ [])) && good_parts ws

unfoldable pub clean_path : Bytes → Result Bytes
clean_path name =
    let t = trim name in
    if same t [] || same t dot
    then ok dot
    else if good_parts (split b'/' t)
    then ok (join_with b'/' (split b'/' t))
    else err invalid_path
