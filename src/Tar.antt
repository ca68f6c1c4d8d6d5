-- ===== src/Tar.antt =====
-- A tar archive as `archive/tar` delivers it: entry by entry, to the end or to an error.
use mender_artifact.Prelude.{Bool, ◌⊎◌, ◌≡◌, Bytes}

-- What a reader delivers: all the bytes, or some of them and then an error; `ended` if the cause of the
-- error, as `errors.Cause` finds it, is `io.EOF`, which is so for an `io.EOF` that was wrapped.
pub data Body : Type 0 where
  full cut ended : Bytes → Body

pub record Entry : Type 0 where
  pub name : Bytes
  pub is_dir : Bool
  pub body : Body

-- `Next` returns the entry, an error whose cause is `io.EOF`, or another error.
pub data Tar : Type 0 where
  entry : Entry → Tar → Tar
  eof broken : Tar

-- The archive delivers this entry.
abbrev pub In : Entry → Tar → Type 0
In e eof = ⊥
In e broken = ⊥
In e (entry f t) = (e ≡ f) ⊎ In e t
