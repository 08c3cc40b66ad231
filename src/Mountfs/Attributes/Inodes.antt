-- ===== src/Mountfs/Attributes/Inodes.antt =====
-- The numbers of inodes, and the age of attributes.
use mediastub.Prelude.{ℕ, ◌^◌, ◌<◌, ◌≤◌, Bool, true, false, [], ◌∷◌, arith}
use mediastub.Core.Base.{Bytes}
use mediastub.Mountfs.Attributes.{kept_free, fnv_round, fnv_64a, inode_number}

-- What a hash of 64 bits is.
abbrev IsWord : ℕ → Type 0
IsWord h = h < 2 ^ 64

fnv_round-IsWord : (h b : ℕ) → IsWord (fnv_round h b)
fnv_round-IsWord h b = omega arith

fnv_64a-IsWord : (h : ℕ) (bs : Bytes) → IsWord h → IsWord (fnv_64a h bs)
unfolding fnv_64a
fnv_64a-IsWord h [] w = w
fnv_64a-IsWord h (b ∷ bs) w = fnv_64a-IsWord (fnv_round h b) bs (fnv_round-IsWord h b)

kept_free_within : (h : ℕ) → IsWord h → (2 ≤ kept_free h) × IsWord (kept_free h)
kept_free_within h w = ground (arith, w)

-- A number of an inode fits into 64 bits and is neither 0 nor 1.
pub inode_number_within :
    (name : Bytes) (is_dir : Bool)
    → (2 ≤ inode_number name is_dir) × (inode_number name is_dir < 2 ^ 64)
unfolding inode_number
inode_number_within name true =
    kept_free_within (fnv_round (fnv_64a 14695981039346656037 name) 1)
      (fnv_round-IsWord (fnv_64a 14695981039346656037 name) 1)
inode_number_within name false =
    kept_free_within (fnv_64a 14695981039346656037 name)
      (fnv_64a-IsWord 14695981039346656037 name (omega arith))
