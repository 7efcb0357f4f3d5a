-- ===== src/Url/Table.antt =====
-- fsm.url.c: the transition table of the URL parser, a row for each state. A row is written as
-- runs of equal entries, (how many, entry); `none` stands for -1.
use geminon.Base.{ℕ, Option, none, some, [], ◌∷◌, ◌==◌, if◌then◌else◌}
use geminon.Base.Rows.{Row, entry}

-- a row in which one byte leads on
abbrev only : ℕ → ℕ → ℕ → Row
only before to after = (before, none) ∷ (1, some to) ∷ (after, none) ∷ []

abbrev row_9 : Row
row_9 =
    (46, none)
    ∷ (1, some 10)
    ∷ (1, none)
    ∷ (10, some 10)
    ∷ (7, none)
    ∷ (26, some 10)
    ∷ (6, none)
    ∷ (26, some 10)
    ∷ (133, none)
    ∷ []

abbrev row_10 : Row
row_10 =
    (46, none)
    ∷ (1, some 10)
    ∷ (1, some 12)
    ∷ (10, some 10)
    ∷ (1, some 11)
    ∷ (6, none)
    ∷ (26, some 10)
    ∷ (6, none)
    ∷ (26, some 10)
    ∷ (133, none)
    ∷ []

abbrev row_11 : Row
row_11 = (47, none) ∷ (1, some 12) ∷ (10, some 11) ∷ (198, none) ∷ []

abbrev row_12 : Row
row_12 = (256, some 12) ∷ []

-- `STATES[state][c]`
unfoldable pub states : ℕ → ℕ → Option ℕ
states st c =
    if st == 0
    then entry (only 103 1 152) c
    else if st == 1
    then entry (only 101 2 154) c
    else if st == 2
    then entry (only 109 3 146) c
    else if st == 3
    then entry (only 105 4 150) c
    else if st == 4
    then entry (only 110 5 145) c
    else if st == 5
    then entry (only 105 6 150) c
    else if st == 6
    then entry (only 58 7 197) c
    else if st == 7
    then entry (only 47 8 208) c
    else if st == 8
    then entry (only 47 9 208) c
    else if st == 9
    then entry row_9 c
    else if st == 10
    then entry row_10 c
    else if st == 11
    then entry row_11 c
    else if st == 12
    then entry row_12 c
    else none
