-- ===== src/Getopt/Tests.antt =====
-- Runs of the options parser.
use comex.Base.{ℕ, List, [], ◌∷◌}
use comex.Base.Int.{pos}
use comex.Getopt.{KrpingOption, krping_getopt}
use comex.Getopt.Tokens.{Taken, krping_getopt-Taken}

-- ",a=7,b" with an option a that takes a number
abbrev text : List ℕ
text = 44 ∷ 97 ∷ 61 ∷ 55 ∷ 44 ∷ 98 ∷ []

abbrev one_option : List KrpingOption
one_option = record { name = 97 ∷ []; has_arg = 2; val = pos 104 } ∷ []

krping_getopt-Taken_example :
    Taken (λ v. (7, [])) one_option text (krping_getopt (λ v. (7, [])) one_option text)
krping_getopt-Taken_example = krping_getopt-Taken (λ v. (7, [])) one_option text
