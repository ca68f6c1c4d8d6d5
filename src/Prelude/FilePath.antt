-- ===== src/Prelude/FilePath.antt =====
-- The functions of Go's `path/filepath` on Unix that the program calls, over bytes.
pub mod Plain
use mathlib.Core.List.{reverse}
use mathlib.Core.Path.{◌≡◌, refl, ap, ◌∙◌}
use mathlib.Core.Logic.{◌≢◌}
use mathlib.Core.Bool.{Bool, true, false, ◌&&◌, ◌||◌, not}
use mathlib.Core.List.{List, [], ◌∷◌, ◌++◌, append-nil}
use native.Mathlib.Omega.{arith}
use Prim.Native.Nat.{ℕ}
use mender_artifact.Prelude.Tests.{◌==◌, if◌then◌else◌}
use mender_artifact.Prelude.Text.{
  Bytes, codes, eqb, eqb_iff, split, split_from, split_from-append, split_from-Lacks, Lacks,
}

-- One component of a path, on the components kept so far, the last one first.
clean_step : Bool → List Bytes → Bytes → List Bytes
clean_step rooted kept part =
    if eqb part [] || eqb part (codes ".")
    then kept
    else if eqb part (codes "..")
    then up kept
    else part ∷ kept
  where
    up : List Bytes → List Bytes
    up [] = if rooted then [] else codes ".." ∷ []
    up (p ∷ ps) = if eqb p (codes "..") then codes ".." ∷ p ∷ ps else ps

clean_parts : Bool → List Bytes → List Bytes → List Bytes
unfolding clean_step
clean_parts rooted kept [] = reverse kept
clean_parts rooted kept (p ∷ ps) = clean_parts rooted (clean_step rooted kept p) ps

unfoldable pub join_parts : List Bytes → Bytes
join_parts [] = []
join_parts (p ∷ []) = p
join_parts (p ∷ q ∷ ps) = p ++ b'/' ∷ join_parts (q ∷ ps)

is_rooted : Bytes → Bool
is_rooted [] = false
is_rooted (c ∷ s) = c == b'/'

or_dot : Bytes → Bytes
or_dot [] = codes "."
or_dot (c ∷ s) = c ∷ s

-- `filepath.Clean`.
unfoldable pub clean : Bytes → Bytes
unfolding clean_parts join_parts is_rooted or_dot split
clean s =
    let rooted = is_rooted s in
    let body = join_parts (clean_parts rooted [] (split s b'/')) in
    if rooted then b'/' ∷ body else or_dot body

-- `filepath.Join` of two elements.
unfoldable pub join : Bytes → Bytes → Bytes
unfolding clean
join [] [] = []
join [] (c ∷ t) = clean (c ∷ t)
join (c ∷ s) [] = clean (c ∷ s)
join (c ∷ s) (d ∷ t) = clean ((c ∷ s) ++ b'/' ∷ d ∷ t)

-- What stands behind the last slash, and before it with the slash.
after_slash : Bytes → Bytes → Bytes
after_slash [] cur = cur
after_slash (c ∷ s) cur = after_slash s (if c == b'/' then [] else cur ++ c ∷ [])

up_to_slash : Bytes → Bytes → Bytes → Bytes
up_to_slash [] done cur = done
up_to_slash (c ∷ s) done cur =
    up_to_slash s (if c == b'/' then done ++ (cur ++ c ∷ []) else done)
      (if c == b'/' then [] else cur ++ c ∷ [])

drop_slashes : Bytes → Bytes
drop_slashes [] = []
drop_slashes (c ∷ s) = if c == b'/' then drop_slashes s else c ∷ s

or_slash : Bytes → Bytes
or_slash [] = codes "/"
or_slash (c ∷ s) = c ∷ s

-- `filepath.Base`: trailing slashes are dropped first.
unfoldable pub base : Bytes → Bytes
unfolding after_slash drop_slashes or_slash
base [] = codes "."
base (c ∷ s) = or_slash (after_slash (reverse (drop_slashes (reverse (c ∷ s)))) [])

-- `filepath.Dir`.
unfoldable pub dir : Bytes → Bytes
unfolding up_to_slash clean
dir s = clean (up_to_slash s [] [])

base_tests :
    (base (codes "data/0000.tar.gz") ≡ codes "0000.tar.gz")
    × (base (codes "a/b//") ≡ codes "b")
    × (base (codes "///") ≡ codes "/")
unfolding base
base_tests = (refl, refl, refl)

dir_tests :
    (dir (codes "data/0000.tar.gz") ≡ codes "data")
    × (dir (codes "./scripts//x") ≡ codes "scripts")
    × (dir (codes "a/../../b") ≡ codes "..")
    × (dir (codes "x") ≡ codes ".")
unfolding dir eqb
dir_tests = (refl, refl, refl, refl)
