-- ===== src/Start.antt =====
-- Starting the transport: krping_opts, krping_doit and krping_write_proc of `krpingTrimmed/krping.c`. A
-- string is the list of its characters.
pub mod Ends
pub mod Refs
mod Tests
use comex.Base.Errno.{eintr, enomem, efault, enodev, einval}
use comex.Base.{
  ℕ, zero, suc, ◌+◌, ◌-◌, ◌%◌, ◌^◌, Bool, true, false, not, List, [], ◌∷◌, Option, none, some, ◌==◌,
  ltb, if◌then◌else◌,
}
use comex.Base.Int.{ℤ, pos, negsuc, ◌==ℤ◌}
use comex.Getopt.{KrpingOption, Parsed, krping_getopt}

abbrev option : (name : List ℕ) (has_arg val : ℕ) → KrpingOption
option name has_arg val = record { name = name; has_arg = has_arg; val = pos val }

-- krping_opts: the name, the bits of OPT_NOPARAM, OPT_INT and OPT_STRING, and the letter
pub krping_opts : List KrpingOption
krping_opts =
    option (99 ∷ 111 ∷ 117 ∷ 110 ∷ 116 ∷ []) 2 67
    ∷ option (115 ∷ 105 ∷ 122 ∷ 101 ∷ []) 2 83
    ∷ option (97 ∷ 100 ∷ 100 ∷ 114 ∷ []) 4 97
    ∷ option (97 ∷ 100 ∷ 100 ∷ 114 ∷ 54 ∷ []) 4 65
    ∷ option (112 ∷ 111 ∷ 114 ∷ 116 ∷ []) 2 112
    ∷ option (118 ∷ 101 ∷ 114 ∷ 98 ∷ 111 ∷ 115 ∷ 101 ∷ []) 1 118
    ∷ option (115 ∷ 101 ∷ 114 ∷ 118 ∷ 101 ∷ 114 ∷ []) 1 115
    ∷ option (99 ∷ 108 ∷ 105 ∷ 101 ∷ 110 ∷ 116 ∷ []) 1 99
    ∷ option (115 ∷ 101 ∷ 114 ∷ 118 ∷ 101 ∷ 114 ∷ 95 ∷ 105 ∷ 110 ∷ 118 ∷ []) 1 73
    ∷ option (98 ∷ 119 ∷ []) 1 66
    ∷ option (116 ∷ 120 ∷ 100 ∷ 101 ∷ 112 ∷ 116 ∷ 104 ∷ []) 2 84
    ∷ option (112 ∷ 111 ∷ 108 ∷ 108 ∷ []) 1 80
    ∷ option (108 ∷ 111 ∷ 99 ∷ 97 ∷ 108 ∷ 95 ∷ 100 ∷ 109 ∷ 97 ∷ 95 ∷ 108 ∷ 107 ∷ 101 ∷ 121 ∷ []) 1
        90
    ∷ option (114 ∷ 101 ∷ 97 ∷ 100 ∷ 95 ∷ 105 ∷ 110 ∷ 118 ∷ []) 1 82
    ∷ option (110 ∷ 111 ∷ 100 ∷ 101 ∷ 95 ∷ 73 ∷ 68 ∷ []) 2 105
    ∷ option (110 ∷ 95 ∷ 110 ∷ 111 ∷ 100 ∷ 101 ∷ 115 ∷ []) 2 110
    ∷ option (116 ∷ 111 ∷ 116 ∷ 97 ∷ 108 ∷ 95 ∷ 112 ∷ 97 ∷ 103 ∷ 101 ∷ 115 ∷ []) 2 116
    ∷ option (119 ∷ 114 ∷ 105 ∷ 116 ∷ 101 ∷ 79 ∷ 117 ∷ 116 ∷ 95 ∷ 98 ∷ 117 ∷ 102 ∷ 102 ∷ []) 2 119
    ∷ option (114 ∷ 101 ∷ 97 ∷ 100 ∷ 73 ∷ 110 ∷ 95 ∷ 98 ∷ 117 ∷ 102 ∷ 102 ∷ []) 2 114
    ∷ option (112 ∷ 114 ∷ 111 ∷ 99 ∷ 95 ∷ 110 ∷ 97 ∷ 109 ∷ 101 ∷ []) 4 111
    ∷ []

-- What the options set: the text of the address of the first connection and whether it is one of
-- IPv6 (the bytes that are parsed from it are left out), its port, whether it is a server, the level of messages, and the sizes and the name that COMEX_init
-- reads; and `ret`
pub record Options : Type 0 where
  pub addr_str : List ℕ
  pub is_inet6 : Bool
  pub port : ℕ
  pub server : Bool
  pub verbose : ℕ
  pub total_pages : ℤ
  pub write_out_buff : ℤ
  pub read_in_buff : ℤ
  pub proc_name : List ℕ
  pub ret : ℤ

-- `(int)` of an unsigned long
unfoldable pub as_int : ℕ → ℤ
as_int n = let low = n % 2 ^ 32 in if ltb low (2 ^ 31) then pos low else negsuc (2 ^ 32 - 1 - low)

-- The value of a pointer to a string, or of a number, that the call has written
text_of : Option (List ℕ) → List ℕ
text_of none = []
text_of (some s) = s

number_of : Option ℕ → ℕ
number_of none = 0
number_of (some n) = n

-- The switch of krping_doit. An option that needs an argument is there with it, as krping_getopt
-- returns an error else.
pub take_op : (htons : ℕ → ℕ) → Options → Parsed → Options
take_op htons o p =
    let arg = text_of p.optarg in
    let n = number_of p.value in
    if p.ret ==ℤ pos 97
    then record o { addr_str = arg; is_inet6 = false }
    else if p.ret ==ℤ pos 65
    then record o { addr_str = arg; is_inet6 = true }
    else if p.ret ==ℤ pos 112
    then record o { port = htons n }
    else if p.ret ==ℤ pos 115
    then record o { server = true }
    else if p.ret ==ℤ pos 99
    then record o { server = false }
    else if p.ret ==ℤ pos 118
    then record o { verbose = suc o.verbose }
    else if p.ret ==ℤ pos 116
    then record o { total_pages = as_int n }
    else if p.ret ==ℤ pos 119
    then record o { write_out_buff = as_int n }
    else if p.ret ==ℤ pos 114
    then record o { read_in_buff = as_int n }
    else if p.ret ==ℤ pos 111
    then record o { proc_name = arg }
    else record o { ret = einval }

-- The loop over the options of a text; `none` for the text is NULL, and `none` as the result means
-- that the fuel does not suffice.
unfoldable pub option_loop :
    (htons : ℕ → ℕ) (strtoul : List ℕ → ℕ × List ℕ)
    → (fuel : ℕ) → Options
    → Option (List ℕ)
    → Option Options
option_loop htons strtoul fuel o none = some o
option_loop htons strtoul zero o (some cmd) = none
option_loop htons strtoul (suc fuel) o (some cmd) =
    let p = krping_getopt strtoul krping_opts cmd in
    let rest = option_loop htons strtoul fuel (take_op htons o p) p.options in
    if p.ret ==ℤ pos 0 then some o else rest

-- What krping_doit has allocated and not given back when it returns: the pages of the pool, control
-- blocks, and ids of the connection manager
pub record Left : Type 0 where
  pub pages : Bool
  pub cbs : ℕ
  pub ids : ℕ

-- krping_doit returns before it starts its threads, or it has started them and waits for sem_killsw,
-- which nothing raises. If a signal ends that wait it winds the connections down, as Connection.Life
-- has it for each, and returns -EINTR.
pub data Outcome : Type 0 where
  returned : (ret : ℤ) → Left → Outcome
  running : Outcome

-- The results of the allocations: kzalloc for the pool, kzalloc for each control block, and
-- rdma_create_id for each of them, where `some n` is the error -(n + 1)
pub record Allocations : Type 0 where
  pub bigspace : Bool
  pub cb : ℕ → Bool
  pub create_id : ℕ → Option ℕ

-- The loops of krping_doit over the connections from `i` on, of which `n` are left: the ids, and the
-- control blocks before them
unfoldable pub create_ids : Allocations → (n i : ℕ) → Outcome
create_ids a zero i = running
create_ids a (suc n) i =
    let rest = create_ids a n (i + 1) in
    elim (a.create_id i) [
      | none ↦ rest
      | some e ↦ returned (negsuc e) (record { pages = true; cbs = 0; ids = i })
    ]

unfoldable pub create_cbs : Allocations → (total n i : ℕ) → Outcome
create_cbs a total zero i = create_ids a total 0
create_cbs a total (suc n) i =
    let rest = create_cbs a total n (i + 1) in
    if a.cb i then rest else returned enomem (record { pages = true; cbs = i; ids = 0 })

-- krping_doit, as far as what it allocates goes; `total` is CONF_totalCB. The options are read
-- between the two loops; the value that they give to `ret` is overwritten.
pub doit : Allocations → (total : ℕ) → Outcome
doit a total =
    if a.bigspace
    then create_cbs a total total 0
    else returned enomem (record { pages = false; cbs = 0; ids = 0 })

-- How krping_write_proc ends: it returns, with references to the module that it has not dropped and
-- maybe its buffer; it writes before its buffer; or it does not return.
pub data Written : Type 0 where
  written : (ret : ℤ) (module_refs : ℕ) (cmd_left : Bool) → Written
  before_buffer waits : Written

-- krping_write_proc of `count` characters, given whether try_module_get, kmalloc and copy_from_user
-- succeed, and whether a signal ends the wait of krping_doit
pub write_proc :
    (module_get kmalloc copied signalled : Bool) (count : ℕ) → Allocations → (total : ℕ) → Written
write_proc module_get kmalloc copied signalled count a total =
    if not module_get
    then written enodev 0 false
    else if not kmalloc
    then written enomem 1 false
    else if not copied
    then written efault 1 true
    else if count == 0
    then before_buffer
    else elim (doit a total) [
      | running ↦ if signalled then written eintr 0 false else waits
      | returned rc left ↦ written (if rc ==ℤ pos 0 then pos count else rc) 0 false
    ]
