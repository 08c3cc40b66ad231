-- ===== src/Core/Action/Ensures.antt =====
-- What holds after an action over a source that reads from fixed contents.
use mediastub.Prelude.{
  ℕ, ◌≡◌, Bool, true, false, none, some, Option, arith, length, take, drop, length-take,
  length-drop, min, ◌-◌, if◌then◌else◌,
}
use mediastub.Core.Base.{Bytes, Error, Result, ok, err, Read}
use mediastub.Core.Source.{Source}
use mediastub.Core.Source.Faithful.{Serves, IsPart}
use mediastub.Core.Action.{
  Outcome, done, stuck, Act, continue, ◌>>=◌, lift, pure, fail, read, check_read, check_but_eof,
  attempt, attempted, checked,
}

-- A result satisfies `Q`, an error may be any, and `stuck` does not happen.
abbrev pub Holds : {A : Type 0} → (A → Type 0) → Outcome A → Type 0
Holds Q (done (ok a)) = Q a
Holds Q (done (err e)) = Unit
Holds Q stuck = ⊥

abbrev pub Ensures : {St A : Type 0} → (St → Type 0) → (A → Type 0) → Act St A → Type 0
Ensures {St} Inv Q m = (s : St) → Inv s → Inv (m s).1 × Holds Q (m s).0

-- The bytes are those of the file at `off`, as many as asked for and as there are.
abbrev pub IsFull : Bytes → ℕ → ℕ → Bytes → Type 0
IsFull content n off bs = (bs ≡ take (length bs) (drop off content)) × (length bs ≡ n)

abbrev pub IsCut : Bytes → ℕ → ℕ → Bytes → Type 0
IsCut content n off bs =
    (bs ≡ take (length bs) (drop off content)) × (length bs ≡ min n (length content - off))

-- An error is handed on as a value, of which nothing is known.
abbrev pub OrError : {A : Type 0} → (A → Type 0) → Result A → Type 0
OrError P (ok a) = P a
OrError P (err e) = Unit

module _ {St : Type 0} (Inv : St → Type 0) where
  continue-Holds :
      {A B : Type 0} (P : A → Type 0) (Q : B → Type 0) (r : Outcome A × St) (f : A → Act St B)
      → Inv r.1 × Holds P r.0
      → ((a : A) → P a → Ensures Inv Q (f a))
      → Inv (continue r f).1 × Holds Q (continue r f).0
  continue-Holds P Q (done (ok a), s) f h rest = rest a h.1 s h.0
  continue-Holds P Q (done (err e), s) f h rest = (h.0, tt)
  continue-Holds P Q (stuck, s) f h rest = absurd h.1

  pub bind-Ensures :
      {A B : Type 0} (P : A → Type 0) (Q : B → Type 0) (m : Act St A) (f : A → Act St B)
      → Ensures Inv P m
      → ((a : A) → P a → Ensures Inv Q (f a))
      → Ensures Inv Q (m >>= f)
  bind-Ensures P Q m f h rest s v = continue-Holds P Q (m s) f (h s v) rest

  pub pure-Ensures : {A : Type 0} (Q : A → Type 0) (a : A) → Q a → Ensures Inv Q (pure a)
  pure-Ensures Q a q s v = (v, q)

  pub fail-Ensures : {A : Type 0} (Q : A → Type 0) (e : Error) → Ensures Inv Q (fail e)
  fail-Ensures Q e s v = (v, tt)

  pub lift-Ensures :
      {A : Type 0} (Q : A → Type 0) (r : Result A)
      → ((a : A) → r ≡ ok a → Q a)
      → Ensures Inv Q (lift r)
  lift-Ensures Q (ok a) h s v = (v, h a (λ i. ok a))
  lift-Ensures Q (err e) h s v = (v, tt)

  pub if-Ensures :
      {A : Type 0} (Q : A → Type 0) (b : Bool) (m n : Act St A)
      → (b ≡ true → Ensures Inv Q m)
      → (b ≡ false → Ensures Inv Q n)
      → Ensures Inv Q (if b then m else n)
  if-Ensures Q true m n hm hn = hm (λ i. true)
  if-Ensures Q false m n hm hn = hn (λ i. false)

  Holds-map :
      {A : Type 0} (P Q : A → Type 0) (r : Outcome A)
      → ((a : A) → P a → Q a)
      → Holds P r
      → Holds Q r
  Holds-map P Q (done (ok a)) f h = f a h
  Holds-map P Q (done (err e)) f h = tt
  Holds-map P Q stuck f h = absurd h

  pub weaken-Ensures :
      {A : Type 0} (P Q : A → Type 0) (m : Act St A)
      → ((a : A) → P a → Q a)
      → Ensures Inv P m
      → Ensures Inv Q m
  weaken-Ensures P Q m f h s v = ((h s v).0, Holds-map P Q (m s).0 f (h s v).1)

  pub attempt-Ensures :
      {A : Type 0} (P : A → Type 0) (m : Act St A)
      → Ensures Inv P m
      → Ensures Inv (OrError P) (attempt m)
  unfolding attempt
  attempt-Ensures {A} P m h s v = go (m s) (h s v)
    where
      go :
          (r : Outcome A × St)
          → Inv r.1 × Holds P r.0
          → Inv (attempted r).1 × Holds (OrError P) (attempted r).0
      go (done (ok a), s) h = h
      go (done (err e), s) h = h
      go (stuck, s) h = h

  pub check_read-Ensures :
      (content : Bytes) (n off : ℕ) (r : Read)
      → IsPart content n off r
      → Ensures Inv (IsFull content n off) (check_read r)
  unfolding check_read
  check_read-Ensures content n off r p = go r.error p.complete
    where
      go :
          (e : Option Error)
          → (e ≡ none → length r.bytes ≡ n)
          → Ensures Inv (IsFull content n off) (checked e r.bytes)
      go none full s v = (v, (p.part, full (λ i. none)))
      go (some e) full s v = (v, tt)

  pub check_but_eof-Ensures :
      (content : Bytes) (n off : ℕ) (r : Read)
      → IsPart content n off r
      → Ensures Inv (IsCut content n off) (check_but_eof r)
  unfolding check_but_eof
  check_but_eof-Ensures content n off r p s v = ground (
    arith,
    p.complete,
    p.at_end,
    p.bounded,
    p.part,
    length-take (length r.bytes) (drop off content),
    length-drop off content,
    v,
  )

module _ (content : Bytes) (source : Source) (serves : Serves content source) where
  pub read-Ensures : (n off : ℕ) → Ensures serves.Inv (IsPart content n off) (read source n off)
  unfolding read
  read-Ensures n off s v = (serves.keeps s n off v, serves.reads s n off v)
