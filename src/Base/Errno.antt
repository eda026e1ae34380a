-- ===== src/Base/Errno.antt =====
-- The error codes of the kernel that functions return.
use comex.Base.Int.{ℤ, negsuc}

abbrev pub enoent : ℤ
enoent = negsuc 1

abbrev pub eintr : ℤ
eintr = negsuc 3

abbrev pub enomem : ℤ
enomem = negsuc 11

abbrev pub efault : ℤ
efault = negsuc 13

abbrev pub eexist : ℤ
eexist = negsuc 16

abbrev pub enodev : ℤ
enodev = negsuc 18

abbrev pub einval : ℤ
einval = negsuc 21

abbrev pub edom : ℤ
edom = negsuc 32

abbrev pub eopnotsupp : ℤ
eopnotsupp = negsuc 94
