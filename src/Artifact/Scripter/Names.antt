-- ===== src/Artifact/Scripter/Names.antt =====
-- The names that `Scripts.Add` of artifact/scripter.go can read a state from.
use mender_artifact.Prelude.{
  ℕ, ◌≤◌, ◌⊎◌, codes, has_prefix, true, false, not, ◌&&◌, [], ◌∷◌, ◌++◌, none, some, ◌≡◌, ◌≢◌, ◌↔◌,
  inl, inr, refl, sym, ap, subst, ◌∙◌, arith, Bytes, All, All-append, length, ◌==◌, append_assoc,
  append-nil, Bool-cases, Option-cases,
}
use mender_artifact.Artifact.Scripter.{is_letter, is_action, find_state}

-- `A` to `Z`, or `a` to `z`.
abbrev pub IsLetter : ℕ → Type 0
IsLetter c = ((b'A' ≤ c) × (c ≤ b'Z')) ⊎ ((b'a' ≤ c) × (c ≤ b'z'))

abbrev pub IsDigit : ℕ → Type 0
IsDigit c = (b'0' ≤ c) × (c ≤ b'9')

-- What a script is run on.
abbrev pub IsAction : Bytes → Type 0
IsAction a = (a ≡ codes "Enter") ⊎ (a ≡ codes "Leave") ⊎ (a ≡ codes "Error")

-- The name is made of these parts: any text, letters, an underscore, an action, an underscore, two
-- digits, and any text.
pub record IsMatch (name : Bytes) : Type 0 where
  pub before : Bytes
  pub state : Bytes
  pub action : Bytes
  pub tens : ℕ
  pub units : ℕ
  pub rest : Bytes
  pub parts : name ≡ before ++ (state ++ b'_' ∷ (action ++ b'_' ∷ tens ∷ units ∷ rest))
  pub some_letters : state ≢ []
  pub letters : All IsLetter state
  pub is_action : IsAction action
  pub tens_digit : IsDigit tens
  pub units_digit : IsDigit units

-- The same in the words of the code.
abbrev Matches : Bytes → Bytes → Bytes → Bytes → Type 0
Matches name before state behind =
    (name ≡ before ++ (state ++ b'_' ∷ behind))
    × (state ≢ [])
    × All (λ c. is_letter c ≡ true) state
    × (is_action behind ≡ true)

find_state_sound :
    (letters name : Bytes) {state : Bytes}
    → All (λ c. is_letter c ≡ true) letters
    → find_state letters name ≡ some state
    → (before behind : Bytes) × Matches (letters ++ name) before state behind
unfolding find_state
find_state_sound letters [] a h = cc
find_state_sound letters (c ∷ s) {state} a h = elim (Bool-cases (is_letter c)) [
  | inl letter ↦
      let (before, behind, m) =
        find_state_sound (letters ++ c ∷ []) s
          (All-append (λ b. is_letter b ≡ true) letters (c ∷ []) a (letter, tt))
          (rw (letter, find_state) at h) in
      (before, behind, (sym (append_assoc letters (c ∷ []) s) ∙ m.0, m.1, m.2, m.3))
  | inr other ↦ elim (Bool-cases (c == b'_' && not (length letters == 0) && is_action s)) [
    | inl hit ↦
        let same : letters ≡ state = ground (arith, other, hit, h) in
        let under : c ≡ b'_' = ground (arith, hit) in
        let some_letters : letters ≢ [] = λ e. ground (arith, hit, e) in
        (
          [],
          s,
          (
            ap (λ d. letters ++ d ∷ s) under ∙ ap (λ l. l ++ b'_' ∷ s) same,
            subst (λ l. l ≢ []) same some_letters,
            subst (All (λ b. is_letter b ≡ true)) same a,
            ground (arith, hit),
          ),
        )
    | inr miss ↦
        let (before, behind, m) = find_state_sound [] s tt (ground (arith, other, miss, h)) in
        (
          letters ++ c ∷ before,
          behind,
          (
            ap (λ t. letters ++ c ∷ t) m.0
                ∙ sym (append_assoc letters (c ∷ before) (state ++ b'_' ∷ behind)),
            m.1,
            m.2,
            m.3,
          ),
        )
  ]
]

length-ne : (s : Bytes) → s ≢ [] → (length s == 0) ≡ false
length-ne [] n = absurd (n refl)
length-ne (c ∷ s) n = ground arith

append-ne : (s t : Bytes) → t ≢ [] → (s ++ t) ≢ []
append-ne [] t n = n
append-ne (c ∷ s) t n = λ e. cc (e)

-- Once the letters are read, the expression matches.
found_behind :
    (letters more behind : Bytes)
    → (letters ++ more) ≢ []
    → All (λ c. is_letter c ≡ true) more
    → is_action behind ≡ true
    → (state : Bytes) × (find_state letters (more ++ b'_' ∷ behind) ≡ some state)
unfolding find_state is_letter
found_behind letters [] behind n a h =
    let some_letters : (length letters == 0) ≡ false =
      length-ne letters (subst (λ l. l ≢ []) (append-nil letters) n) in
    (letters, ground (arith, some_letters, h))
found_behind letters (c ∷ more) behind n a h =
    let (state, found) =
      found_behind (letters ++ c ∷ []) more behind
        (subst (λ l. l ≢ []) (sym (append_assoc letters (c ∷ []) more)) n) a.1 h in
    (state, rw (a.0, find_state) found)

found_in :
    (letters before state behind : Bytes)
    → state ≢ []
    → All (λ c. is_letter c ≡ true) state
    → is_action behind ≡ true
    → (found : Bytes) × (find_state letters (before ++ (state ++ b'_' ∷ behind)) ≡ some found)
unfolding find_state
found_in letters [] state behind n a h =
    found_behind letters state behind (append-ne letters state n) a h
found_in letters (c ∷ before) state behind n a h =
    let (f, longer) = found_in (letters ++ c ∷ []) before state behind n a h in
    let (g, later) = found_in [] before state behind n a h in
    elim (Bool-cases (is_letter c)) [
      | inl letter ↦ (f, ground (arith, letter, longer))
      | inr other ↦
          elim (Bool-cases (
            c == b'_'
            && not (length letters == 0)
            && is_action (before ++ (state ++ b'_' ∷ behind)))) [
              | inl hit ↦ (letters, ground (arith, other, hit))
              | inr miss ↦ (g, ground (arith, other, miss, later))
            ]
    ]

letters-All : (s : Bytes) → All (λ c. is_letter c ≡ true) s → All IsLetter s
unfolding is_letter
letters-All [] a = tt
letters-All (c ∷ s) a = (ground (arith, a.0), letters-All s a.1)

All-letters : (s : Bytes) → All IsLetter s → All (λ c. is_letter c ≡ true) s
unfolding is_letter
All-letters [] a = tt
All-letters (c ∷ s) a = (
  elim a.0 [ inl upper ↦ ground (arith, upper) | inr lower ↦ ground (arith, lower) ],
  All-letters s a.1,
)

-- What the test of an action is true of.
action_parts :
    (behind : Bytes)
    → is_action behind ≡ true
    → (action : Bytes) × (tens units : ℕ) × (rest : Bytes) × (behind
        ≡ action ++ b'_' ∷ tens ∷ units ∷ rest)
      × IsAction action
      × IsDigit tens
      × IsDigit units
unfolding is_action has_prefix
action_parts (a ∷ b ∷ c ∷ d ∷ e ∷ f ∷ t ∷ u ∷ rest) h =
    let digits : IsDigit t × IsDigit u = ground arith in
    let under : f ≡ b'_' = ground arith in
    (a ∷ b ∷ c ∷ d ∷ e ∷ [], t, u, rest, ground (arith, under), ground arith, digits.0, digits.1)
action_parts _ h = ground (arith, h)

parts_action :
    (action rest : Bytes) (tens units : ℕ)
    → IsAction action
    → IsDigit tens
    → IsDigit units
    → is_action (action ++ b'_' ∷ tens ∷ units ∷ rest) ≡ true
unfolding is_action has_prefix
parts_action action rest tens units is t u = elim is [
  | inl enter ↦ ground (arith, enter, t, u)
  | inr other ↦ elim other [
    | inl leave ↦ ground (arith, leave, t, u)
    | inr error ↦ ground (arith, error, t, u)
  ]
]

-- `Add` can read a state from a name exactly if somewhere in it letters are followed by an underscore,
-- `Enter`, `Leave` or `Error`, an underscore and two digits; what stands before and behind that is not
-- looked at.
pub find_state-none_iff : (name : Bytes) → (find_state [] name ≡ none) ↔ (¬ IsMatch name)
find_state-none_iff name = (
  λ missing m.
      let (found, there) =
        found_in [] m.before m.state (m.action ++ b'_' ∷ m.tens ∷ m.units ∷ m.rest) m.some_letters
          (All-letters m.state m.letters)
          (parts_action m.action m.rest m.tens m.units m.is_action m.tens_digit m.units_digit) in
      cc (missing, subst (λ n. find_state [] n ≡ some found) (sym m.parts) there),
  λ absent. elim (Option-cases (find_state [] name)) [
    | inl missing ↦ missing
    | inr (state, there) ↦
        let (before, behind, m) = find_state_sound [] name tt there in
        let (action, tens, units, rest, is, a, t, u) = action_parts behind m.3 in
        absurd (
          absent (record {
            before = before;
            state = state;
            action = action;
            tens = tens;
            units = units;
            rest = rest;
            parts = m.0 ∙ ap (λ b. before ++ (state ++ b'_' ∷ b)) is;
            some_letters = m.1;
            letters = letters-All state m.2;
            is_action = a;
            tens_digit = t;
            units_digit = u;
          }))
  ],
)
