-- ===== src/Mountfs/Fingerprint.antt =====
-- Fingerprints tell the versions of objects apart.
use mediastub.Prelude.{suc, ◌≡◌, ◌≢◌, refl, ◌++◌, [], ◌∷◌, arith, All}
use mediastub.Prelude.Int.{ℤ, pos, negsuc}
use mediastub.Prelude.Decimal.{decimal_are, decimal_ℤ, decimal_ℤ-injective}
use mediastub.Core.Base.{Bytes}
use mediastub.Syncer.Base.{Entry}
use mediastub.Mountfs.Base.{fingerprint, unix_nano}

-- No byte is 0.
abbrev pub IsText : Bytes → Type 0
IsText bs = All (λ b. b ≢ 0) bs

-- Up to the first byte that is 0, two texts are told apart.
split_same :
    (xs ys us vs : Bytes)
    → IsText xs
    → IsText ys
    → xs ++ 0 ∷ us ≡ ys ++ 0 ∷ vs
    → (xs ≡ ys) × (us ≡ vs)
split_same [] [] us vs tx ty h = (refl, cc)
split_same [] (y ∷ ys) us vs tx ty h = absurd (ty.0 cc)
split_same (x ∷ xs) [] us vs tx ty h = absurd (tx.0 cc)
split_same (x ∷ xs) (y ∷ ys) us vs tx ty h =
    let (same_rest, same_tail) = split_same xs ys us vs tx.1 ty.1 cc in (cc, same_tail)

decimal_ℤ-IsText : (n : ℤ) → IsText (decimal_ℤ n)
unfolding decimal_ℤ
decimal_ℤ-IsText (pos n) = decimal_are (λ b. b ≢ 0) n (λ d q. omega arith)
decimal_ℤ-IsText (negsuc n) = (omega arith, decimal_are (λ b. b ≢ 0) (suc n) (λ d q. omega arith))

-- The fingerprint behind the path, and behind the size
abbrev from_size : Entry → Bytes
from_size e = decimal_ℤ e.size ++ 0 ∷ (decimal_ℤ (unix_nano e.mod_time) ++ 0 ∷ e.etag)

abbrev from_time : Entry → Bytes
from_time e = decimal_ℤ (unix_nano e.mod_time) ++ 0 ∷ e.etag

-- Two entries with the same fingerprint, whose paths hold no byte that is 0, have the same path, size,
-- ETag and time in nanoseconds.
pub fingerprint_injective :
    (e f : Entry)
    → IsText e.path
    → IsText f.path
    → fingerprint e ≡ fingerprint f
    → (e.path ≡ f.path)
      × (e.size ≡ f.size)
      × (unix_nano e.mod_time ≡ unix_nano f.mod_time)
      × (e.etag ≡ f.etag)
unfolding fingerprint
fingerprint_injective e f te tf h =
    let (paths, rest) = split_same e.path f.path (from_size e) (from_size f) te tf h in
    let (sizes, rest') =
      split_same (decimal_ℤ e.size) (decimal_ℤ f.size) (from_time e) (from_time f)
        (decimal_ℤ-IsText e.size) (decimal_ℤ-IsText f.size) rest in
    let (times, etags) =
      split_same (decimal_ℤ (unix_nano e.mod_time)) (decimal_ℤ (unix_nano f.mod_time)) e.etag f.etag
        (decimal_ℤ-IsText (unix_nano e.mod_time)) (decimal_ℤ-IsText (unix_nano f.mod_time)) rest' in
    (
      paths,
      decimal_ℤ-injective e.size f.size sizes,
      decimal_ℤ-injective (unix_nano e.mod_time) (unix_nano f.mod_time) times,
      etags,
    )
