-- ===== src/Getopt.antt =====
-- The options parser: krping_getopt of `krpingTrimmed/getopt.c`. A string is the list of its
-- characters, and simple_strtoul is an argument, which gives a number and what follows it.
pub mod Tokens
mod Tests
use comex.Base.Errno.{einval, edom, eopnotsupp}
use comex.Base.{
  ℕ, ◌/◌, ◌%◌, Bool, true, false, ◌&&◌, List, [], ◌∷◌, Option, none, some, ◌==◌, if◌then◌else◌,
}
use comex.Base.Int.{ℤ, pos, negsuc}

-- struct krping_option. The bits of has_arg are OPT_NOPARAM, OPT_INT and OPT_STRING.
pub record KrpingOption : Type 0 where
  pub name : List ℕ
  pub has_arg : ℕ
  pub val : ℤ

pub opt_noparam : KrpingOption → Bool
opt_noparam o = o.has_arg % 2 == 1

pub opt_int : KrpingOption → Bool
opt_int o = o.has_arg / 2 % 2 == 1

pub opt_string : KrpingOption → Bool
opt_string o = o.has_arg / 4 % 2 == 1

-- The text up to the first `c`, and the text after it, if there is one
pub split : (c : ℕ) → List ℕ → List ℕ × Option (List ℕ)
split c [] = ([], none)
split c (x ∷ xs) =
    let (token, rest) = split c xs in if x == c then ([], some xs) else (x ∷ token, rest)

-- The first loop: strsep at ',' until a token is not empty. `none`: no more tokens.
pub next_token : List ℕ → Option (List ℕ × Option (List ℕ))
next_token [] = none
next_token (x ∷ xs) = let rest = next_token xs in if x == 44 then rest else some (split 44 (x ∷ xs))

-- !strcmp
pub is_same : List ℕ → List ℕ → Bool
is_same [] [] = true
is_same [] (y ∷ ys) = false
is_same (x ∷ xs) [] = false
is_same (x ∷ xs) (y ∷ ys) = (x == y) && is_same xs ys

-- What a call gives: its result, *options, *optopt, *optarg and *value. What it does not write is empty or
-- missing here.
pub record Parsed : Type 0 where
  pub ret : ℤ
  pub options : Option (List ℕ)
  pub optopt : List ℕ
  pub optarg : Option (List ℕ)
  pub value : Option ℕ

-- The result for the option that matches, and *value
pub take_option : (strtoul : List ℕ → ℕ × List ℕ) → KrpingOption → Option (List ℕ) → ℤ × Option ℕ
take_option strtoul o none = if opt_noparam o then (o.val, none) else (einval, none)
take_option strtoul o (some val) =
    let (n, v) = strtoul val in
    if opt_int o
    then (if is_same v [] then (o.val, some n) else (edom, some n))
    else if opt_string o
    then (o.val, none)
    else (einval, none)

-- The second loop
pub find_option :
    (strtoul : List ℕ → ℕ × List ℕ)
    → List KrpingOption
    → (token : List ℕ) → Option (List ℕ)
    → ℤ × Option ℕ
find_option strtoul [] token val = (eopnotsupp, none)
find_option strtoul (o ∷ os) token val =
    let rest = find_option strtoul os token val in
    if is_same o.name token then take_option strtoul o val else rest

-- krping_getopt on the text that *options points to; with *options NULL it returns 0.
pub krping_getopt : (strtoul : List ℕ → ℕ × List ℕ) → List KrpingOption → List ℕ → Parsed
krping_getopt strtoul opts options = elim (next_token options) [
  | none ↦ record { ret = pos 0; options = none; optopt = []; optarg = none; value = none }
  | some (token, rest) ↦
      let (name, val) = split 61 token in
      let (ret, value) = find_option strtoul opts name val in
      record { ret = ret; options = rest; optopt = name; optarg = val; value = value }
]
