-- ===== src/Paths.antt =====
-- The functions of the Go packages path, strings and strconv that the program calls on paths.
use mediastub.Prelude.{
  ℕ, ◌+◌, ◌-◌, ◌*◌, ◌^◌, Bool, false, not, ◌||◌, ◌&&◌, Option, none, some, List, [], ◌∷◌, ◌++◌,
  length, take, ltb, leb, ◌==◌, if◌then◌else◌,
}
use mediastub.Prelude.Maps.{same}
use mediastub.Core.Base.{Bytes}

unfoldable pub has_slash : Bytes → Bool
has_slash [] = false
has_slash (c ∷ cs) = c == b'/' || has_slash cs

-- `path.Ext`: from the last dot of the last element on.
unfoldable pub ext : Bytes → Bytes
ext [] = []
ext (c ∷ cs) =
    let rest = ext cs in
    if not (same rest []) then rest else if c == b'.' && not (has_slash cs) then c ∷ cs else []

-- A name without its extension.
abbrev pub without_ext : Bytes → Bytes
without_ext name = take (length name - length (ext name)) name

abbrev add_byte : ℕ → List Bytes → List Bytes
add_byte c [] = (c ∷ []) ∷ []
add_byte c (w ∷ ws) = (c ∷ w) ∷ ws

-- `strings.Split` by one byte
unfoldable pub split : ℕ → Bytes → List Bytes
split sep [] = [] ∷ []
split sep (c ∷ cs) = let rest = split sep cs in if c == sep then [] ∷ rest else add_byte c rest

unfoldable pub join_with : ℕ → List Bytes → Bytes
join_with sep [] = []
join_with sep (w ∷ []) = w
join_with sep (w ∷ v ∷ ws) = w ++ (sep ∷ join_with sep (v ∷ ws))

-- One element of a path that `path.Clean` meets; the elements kept stand in reverse.
abbrev clean_step : Bool → List Bytes → Bytes → List Bytes
clean_step rooted kept w =
    if same w [] || same w (b'.' ∷ [])
    then kept
    else if same w (b'.' ∷ b'.' ∷ [])
    then elim kept [
      | [] ↦ if rooted then [] else w ∷ []
      | top ∷ below ↦ if same top (b'.' ∷ b'.' ∷ []) then w ∷ top ∷ below else below
    ]
    else w ∷ kept

clean_all : Bool → List Bytes → List Bytes → List Bytes
clean_all rooted kept [] = kept
clean_all rooted kept (w ∷ ws) = clean_all rooted (clean_step rooted kept w) ws

reversed : List Bytes → List Bytes → List Bytes
reversed acc [] = acc
reversed acc (w ∷ ws) = reversed (w ∷ acc) ws

abbrev is_rooted : Bytes → Bool
is_rooted [] = false
is_rooted (c ∷ cs) = c == b'/'

-- `path.Clean`
unfoldable pub clean : Bytes → Bytes
unfolding clean_all reversed
clean p =
    let out = join_with b'/' (reversed [] (clean_all (is_rooted p) [] (split b'/' p))) in
    if is_rooted p then b'/' ∷ out else if same out [] then b'.' ∷ [] else out

-- The part up to the last slash, that slash included.
unfoldable pub dir_part : Bytes → Bytes
dir_part [] = []
dir_part (c ∷ cs) = let rest = dir_part cs in if has_slash (c ∷ cs) then c ∷ rest else []

-- `path.Dir`
abbrev pub dir : Bytes → Bytes
dir p = clean (dir_part p)

trim_slashes : Bytes → Bytes
trim_slashes [] = []
trim_slashes (c ∷ cs) =
    let rest = trim_slashes cs in if c == b'/' && same rest [] then [] else c ∷ rest

after_slash : Bytes → Bytes
after_slash [] = []
after_slash (c ∷ cs) = let rest = after_slash cs in if has_slash (c ∷ cs) then rest else c ∷ cs

-- `path.Base`
unfoldable pub base : Bytes → Bytes
unfolding trim_slashes after_slash
base p =
    if same p []
    then b'.' ∷ []
    else if same (trim_slashes p) []
    then b'/' ∷ []
    else after_slash (trim_slashes p)

-- `strings.HasPrefix` with `strings.TrimPrefix`: what is behind the prefix.
unfoldable pub behind : Bytes → Bytes → Option Bytes
behind [] s = some s
behind (c ∷ cs) [] = none
behind (c ∷ cs) (x ∷ xs) = let rest = behind cs xs in if c == x then rest else none

digits_value : ℕ → Bytes → Option ℕ
digits_value acc [] = some acc
digits_value acc (c ∷ cs) =
    let rest = digits_value (acc * 10 + (c - 48)) cs in if leb 48 c && leb c 57 then rest else none

abbrev is_positive : Option ℕ → Bool
is_positive none = false
is_positive (some n) = ltb 0 n && ltb n (2 ^ 63)

-- `strconv.Atoi` finds a number, and it is positive.
unfoldable pub atoi_positive : Bytes → Bool
unfolding digits_value
atoi_positive [] = false
atoi_positive (c ∷ cs) =
    if c == b'+'
    then not (same cs []) && is_positive (digits_value 0 cs)
    else is_positive (digits_value 0 (c ∷ cs))
