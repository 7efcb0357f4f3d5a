-- ===== src/Fs/Table.antt =====
-- fsm.fs.c: the transition table of the path parser.
use geminon.Base.{ℕ, Option, none, some, [], ◌∷◌, ◌==◌, if◌then◌else◌}
use geminon.Base.Rows.{Row, entry}

abbrev row_0 : Row
row_0 = (47, none) ∷ (1, some 1) ∷ (208, none) ∷ []

-- rows 1 and 2: a dot leads to `dot`
abbrev dotted : ℕ → Row
dotted dot = (46, some 4) ∷ (1, some dot) ∷ (1, some 1) ∷ (208, some 4) ∷ []

-- rows 3 and 4
abbrev plain : Row
plain = (47, some 4) ∷ (1, some 1) ∷ (208, some 4) ∷ []

-- `STATES[state][c]`
unfoldable pub states : ℕ → ℕ → Option ℕ
states st c =
    if st == 0
    then entry row_0 c
    else if st == 1
    then entry (dotted 2) c
    else if st == 2
    then entry (dotted 3) c
    else if st == 3
    then entry plain c
    else if st == 4
    then entry plain c
    else none
