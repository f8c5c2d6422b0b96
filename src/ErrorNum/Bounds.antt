-- ===== src/ErrorNum/Bounds.antt =====
-- The size of the discriminants of usrlib_rust/src/utils/error_num.rs.
use parch_testbench.Prelude.{◌<◌, arith}
use parch_testbench.ErrorNum.{
  ErrorNum, noerr, eperm, enoent, esrch, eintr, eio, enxio, e2big, enoexec, ebadf, echild, eagain,
  enomem, eacces, efault, enotblk, ebusy, eexist, exdev, enodev, enotdir, eisdir, einval, enfile,
  emfile, enotty, etxtbsy, efbig, enospc, espipe, erofs, emlink, epipe, edom, erange, edeadlk,
  enametoolong, enolck, enosys, enotempty, eloop, enomsg, eidrm, echrng, el2nsync, el3hlt, el3rst,
  elnrng, eunatch, enocsi, el2hlt, ebade, ebadr, exfull, enoano, ebadrqc, ebadslt, ebfont, enostr,
  enodata, etime, enosr, enonet, enopkg, eremote, enolink, eadv, esrmnt, ecomm, eproto, emultihop,
  edotdot, ebadmsg, eoverflow, enotuniq, ebadfd, eremchg, elibacc, elibbad, elibscn, elibmax,
  elibexec, eilseq, erestart, estrpipe, eusers, enotsock, edestaddrreq, emsgsize, eprototype,
  enoprotoopt, eprotonosupport, esocktnosupport, eopnotsupp, epfnosupport, eafnosupport, eaddrinuse,
  eaddrnotavail, enetdown, enetunreach, enetreset, econnaborted, econnreset, enobufs, eisconn,
  enotconn, eshutdown, etoomanyrefs, etimedout, econnrefused, ehostdown, ehostunreach, ealready,
  einprogress, estale, euclean, enotnam, enavail, eisnam, eremoteio, edquot, enomedium, emediumtype,
  ecanceled, enokey, ekeyexpired, ekeyrevoked, ekeyrejected, eownerdead, enotrecoverable, ewrongseg,
  eempty, eoor, enotaligned, ebadtype, enotmapped, enoseg, emmaped, enosig, esigdisabled, ebadcodex,
  eeof, code,
}

pub code-lt : (e : ErrorNum) → code e < 2001
unfolding code
code-lt noerr = omega arith
code-lt eperm = omega arith
code-lt enoent = omega arith
code-lt esrch = omega arith
code-lt eintr = omega arith
code-lt eio = omega arith
code-lt enxio = omega arith
code-lt e2big = omega arith
code-lt enoexec = omega arith
code-lt ebadf = omega arith
code-lt echild = omega arith
code-lt eagain = omega arith
code-lt enomem = omega arith
code-lt eacces = omega arith
code-lt efault = omega arith
code-lt enotblk = omega arith
code-lt ebusy = omega arith
code-lt eexist = omega arith
code-lt exdev = omega arith
code-lt enodev = omega arith
code-lt enotdir = omega arith
code-lt eisdir = omega arith
code-lt einval = omega arith
code-lt enfile = omega arith
code-lt emfile = omega arith
code-lt enotty = omega arith
code-lt etxtbsy = omega arith
code-lt efbig = omega arith
code-lt enospc = omega arith
code-lt espipe = omega arith
code-lt erofs = omega arith
code-lt emlink = omega arith
code-lt epipe = omega arith
code-lt edom = omega arith
code-lt erange = omega arith
code-lt edeadlk = omega arith
code-lt enametoolong = omega arith
code-lt enolck = omega arith
code-lt enosys = omega arith
code-lt enotempty = omega arith
code-lt eloop = omega arith
code-lt enomsg = omega arith
code-lt eidrm = omega arith
code-lt echrng = omega arith
code-lt el2nsync = omega arith
code-lt el3hlt = omega arith
code-lt el3rst = omega arith
code-lt elnrng = omega arith
code-lt eunatch = omega arith
code-lt enocsi = omega arith
code-lt el2hlt = omega arith
code-lt ebade = omega arith
code-lt ebadr = omega arith
code-lt exfull = omega arith
code-lt enoano = omega arith
code-lt ebadrqc = omega arith
code-lt ebadslt = omega arith
code-lt ebfont = omega arith
code-lt enostr = omega arith
code-lt enodata = omega arith
code-lt etime = omega arith
code-lt enosr = omega arith
code-lt enonet = omega arith
code-lt enopkg = omega arith
code-lt eremote = omega arith
code-lt enolink = omega arith
code-lt eadv = omega arith
code-lt esrmnt = omega arith
code-lt ecomm = omega arith
code-lt eproto = omega arith
code-lt emultihop = omega arith
code-lt edotdot = omega arith
code-lt ebadmsg = omega arith
code-lt eoverflow = omega arith
code-lt enotuniq = omega arith
code-lt ebadfd = omega arith
code-lt eremchg = omega arith
code-lt elibacc = omega arith
code-lt elibbad = omega arith
code-lt elibscn = omega arith
code-lt elibmax = omega arith
code-lt elibexec = omega arith
code-lt eilseq = omega arith
code-lt erestart = omega arith
code-lt estrpipe = omega arith
code-lt eusers = omega arith
code-lt enotsock = omega arith
code-lt edestaddrreq = omega arith
code-lt emsgsize = omega arith
code-lt eprototype = omega arith
code-lt enoprotoopt = omega arith
code-lt eprotonosupport = omega arith
code-lt esocktnosupport = omega arith
code-lt eopnotsupp = omega arith
code-lt epfnosupport = omega arith
code-lt eafnosupport = omega arith
code-lt eaddrinuse = omega arith
code-lt eaddrnotavail = omega arith
code-lt enetdown = omega arith
code-lt enetunreach = omega arith
code-lt enetreset = omega arith
code-lt econnaborted = omega arith
code-lt econnreset = omega arith
code-lt enobufs = omega arith
code-lt eisconn = omega arith
code-lt enotconn = omega arith
code-lt eshutdown = omega arith
code-lt etoomanyrefs = omega arith
code-lt etimedout = omega arith
code-lt econnrefused = omega arith
code-lt ehostdown = omega arith
code-lt ehostunreach = omega arith
code-lt ealready = omega arith
code-lt einprogress = omega arith
code-lt estale = omega arith
code-lt euclean = omega arith
code-lt enotnam = omega arith
code-lt enavail = omega arith
code-lt eisnam = omega arith
code-lt eremoteio = omega arith
code-lt edquot = omega arith
code-lt enomedium = omega arith
code-lt emediumtype = omega arith
code-lt ecanceled = omega arith
code-lt enokey = omega arith
code-lt ekeyexpired = omega arith
code-lt ekeyrevoked = omega arith
code-lt ekeyrejected = omega arith
code-lt eownerdead = omega arith
code-lt enotrecoverable = omega arith
code-lt ewrongseg = omega arith
code-lt eempty = omega arith
code-lt eoor = omega arith
code-lt enotaligned = omega arith
code-lt ebadtype = omega arith
code-lt enotmapped = omega arith
code-lt enoseg = omega arith
code-lt emmaped = omega arith
code-lt enosig = omega arith
code-lt esigdisabled = omega arith
code-lt ebadcodex = omega arith
code-lt eeof = omega arith
