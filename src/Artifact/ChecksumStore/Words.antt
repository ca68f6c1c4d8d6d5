-- ===== src/Artifact/ChecksumStore/Words.antt =====
-- The line of a manifest in artifact/checksum.go whose checksum and file name are words: what trimming
-- and splitting make of it.
use mathlib.Core.List.{reverse, reverse-append, reverse-reverse, reverse-cons}
use mender_artifact.Prelude.{
  ℕ, false, [], ◌∷◌, ◌++◌, ◌≡◌, ◌≢◌, refl, sym, ap, ◌∙◌, arith, Bytes, All, All-append, is_space,
  ltb, true, skip_spaces, space_in_front, space_behind, trim_left, trim_space, append_assoc,
  append-nil,
}
use mender_artifact.Artifact.ChecksumStore.{manifest_line, split_two_spaces}

-- A word: not empty, of ASCII characters that are no white space.
abbrev pub IsWord : Bytes → Type 0
IsWord s = (s ≢ []) × All (λ c. is_space c ≡ false) s × All (λ c. ltb c 128 ≡ true) s

All-reverse {ℓ} : (P : ℕ → Type ℓ) (s : Bytes) → All P s → All P (reverse s)
All-reverse P [] h = tt
All-reverse P (c ∷ s) h =
    rw (reverse-cons c s) (All-append P (reverse s) (c ∷ []) (All-reverse P s h.1) (h.0, tt))

reverse-IsWord : (s : Bytes) → IsWord s → IsWord (reverse s)
reverse-IsWord s w =
    (λ e. w.0 (sym (reverse-reverse s) ∙ ap reverse e), All-reverse _ s w.1, All-reverse _ s w.2)

-- In front of a word nothing is cut, whatever stands behind it.
front_word : (s t : Bytes) → IsWord s → skip_spaces space_in_front 0 (s ++ t) ≡ s ++ t
unfolding skip_spaces space_in_front
front_word [] t w = absurd (w.0 refl)
front_word (c ∷ s) t w = ground (arith, w.1.0, w.2.0)

behind_word : (s t : Bytes) → IsWord s → skip_spaces space_behind 0 (s ++ t) ≡ s ++ t
unfolding skip_spaces space_behind
behind_word [] t w = absurd (w.0 refl)
behind_word (c ∷ s) t w = ground (arith, w.1.0, w.2.0)

-- Behind a word one newline is cut.
newline_behind :
    (p file : Bytes)
    → IsWord file
    → skip_spaces space_behind 0 (b'\n' ∷ reverse (p ++ file)) ≡ reverse (p ++ file)
unfolding skip_spaces space_behind
newline_behind p file w =
    rw (reverse-append p file) (behind_word (reverse file) (reverse p) (reverse-IsWord file w))

pub trim_space-manifest_line :
    (sum file : Bytes)
    → IsWord sum
    → IsWord file
    → trim_space (manifest_line sum file) ≡ sum ++ (b' ' ∷ b' ' ∷ file)
unfolding manifest_line trim_space trim_left
trim_space-manifest_line sum file ws wf = rw (front_word sum _ ws) (
    rw
      (
        ← append_assoc sum (b' ' ∷ b' ' ∷ file) (b'\n' ∷ []),
        reverse-append (sum ++ (b' ' ∷ b' ' ∷ file)) (b'\n' ∷ []),
      )
      (rw
        (
          ← append_assoc sum (b' ' ∷ b' ' ∷ []) file,
          newline_behind (sum ++ b' ' ∷ b' ' ∷ []) file wf,
        )
        (reverse-reverse _)))

pub split-word :
    (sum rest cur : Bytes)
    → All (λ c. is_space c ≡ false) sum
    → split_two_spaces (sum ++ (b' ' ∷ b' ' ∷ rest)) cur ≡ (cur ++ sum) ∷ split_two_spaces rest []
unfolding split_two_spaces
split-word [] rest cur h = ground (arith, append-nil cur)
split-word (a ∷ []) rest cur h = ground arith
split-word (a ∷ b ∷ s) rest cur h =
    ground (arith, split-word (b ∷ s) rest (cur ++ a ∷ []) h.1, append_assoc cur (a ∷ []) (b ∷ s))

pub split_last_word :
    (file cur : Bytes)
    → All (λ c. is_space c ≡ false) file
    → split_two_spaces file cur ≡ (cur ++ file) ∷ []
unfolding split_two_spaces
split_last_word [] cur h = ground (arith, append-nil cur)
split_last_word (a ∷ []) cur h = ground arith
split_last_word (a ∷ b ∷ s) cur h =
    ground (arith, split_last_word (b ∷ s) (cur ++ a ∷ []) h.1, append_assoc cur (a ∷ []) (b ∷ s))
