-- ===== src/Core/Action.antt =====
-- Code that reads from a `Source`: the state of the source is threaded through, and errors stop it.
pub mod Ensures
use mediastub.Prelude.{ℕ, Bool, Option, none, some}
use mediastub.Prelude.Int.{pos}
use mediastub.Core.Base.{Bytes, Error, Result, ok, err, Read, eof}
use mediastub.Core.Source.{Source}

-- `stuck` is no Go value: a loop of the model ran out of fuel.
pub data Outcome (A : Type 0) : Type 0 where
  done : Result A → Outcome A
  stuck : Outcome A

abbrev pub Act : Type 0 → Type 0 → Type 0
Act St A = St → Outcome A × St

abbrev pub continue : {St A B : Type 0} → Outcome A × St → (A → Act St B) → Outcome B × St
continue (done (ok a), s) f = f a s
continue (done (err e), s) f = (done (err e), s)
continue (stuck, s) f = (stuck, s)

infixl 5 ◌>>=◌ ◌>>◌
abbrev pub ◌>>=◌ : {St A B : Type 0} → Act St A → (A → Act St B) → Act St B
◌>>=◌ m f s = continue (m s) f

abbrev pub ◌>>◌ : {St B : Type 0} → Act St (Unit {0}) → Act St B → Act St B
m >> k = m >>= λ _. k

abbrev pub lift : {St A : Type 0} → Result A → Act St A
lift r s = (done r, s)

abbrev pub pure : {St A : Type 0} → A → Act St A
pure a = lift (ok a)

abbrev pub fail : {St A : Type 0} → Error → Act St A
fail e = lift (err e)

-- `source.ReadAt(buf[:n], off)`. Its error is a value, which the caller looks at.
unfoldable pub read : (source : Source) → ℕ → ℕ → Act source.State Read
read source n off s = let (r, s') = source.read_at s n (pos off) in (done (ok r), s')

abbrev pub checked : {St : Type 0} → Option Error → Bytes → Act St Bytes
checked none bs = pure bs
checked (some e) bs = fail e

abbrev pub checked_but_eof : {St : Type 0} → Option Error → Bytes → Act St Bytes
checked_but_eof none bs = pure bs
checked_but_eof (some eof) bs = pure bs
checked_but_eof (some e) bs = fail e

-- `if err != nil { return err }`
unfoldable pub check_read : {St : Type 0} → Read → Act St Bytes
check_read r = checked r.error r.bytes

-- The same, where `io.EOF` is let pass.
unfoldable pub check_but_eof : {St : Type 0} → Read → Act St Bytes
check_but_eof r = checked_but_eof r.error r.bytes

abbrev pub attempted : {St A : Type 0} → Outcome A × St → Outcome (Result A) × St
attempted (done r, s) = (done (ok r), s)
attempted (stuck, s) = (stuck, s)

-- `a, err := m()`, where the caller goes on with the error.
unfoldable pub attempt : {St A : Type 0} → Act St A → Act St (Result A)
attempt m s = attempted (m s)
